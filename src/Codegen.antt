-- ===== src/Codegen.antt =====
-- runtime-core/src/codegen/worker: the driver that compiles kernels for an accelerator. `Driver` has
-- `codegen_kernel`, which any number of threads call over one cache, with its steps; `Invariant`,
-- `Steps`, `Once` and `Waiting` their laws; `Worker` the message loop of the codegen thread, `Served` its
-- laws.
pub mod Driver
pub mod Invariant
pub mod Steps
pub mod Once
pub mod Waiting
pub mod Worker
pub mod Served
mod Tests
