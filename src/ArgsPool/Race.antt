-- ===== src/ArgsPool/Race.antt =====
-- The loop of `ArgsPool::alloc` of runtime-amd/src/module/args_pool.rs under interleaving: the steps
-- of the threads, and what holds in every state that they reach.
mod Steps
mod Safety
mod Progress
pub use Steps.*
pub use Safety.*
pub use Progress.*
