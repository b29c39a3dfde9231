-- ===== src/Launch.antt =====
-- A kernel launch of runtime-amd/src/module/mod.rs: the checks of the dimensions, the barrier packets
-- for its dependencies, and the call that puts it on a queue.
pub mod Barriers
pub mod Batches
pub mod Sending
pub mod Completion
pub mod Shape
pub mod Rounding
pub mod Call
pub mod Outcomes
pub mod Success
mod Tests
