-- ===== src/Queue.antt =====
-- hsa-rt/src/queue.rs: user mode queues of AQL packets. `Abi` has the constants, `Header` the first
-- word of a packet, `Dispatch` the kernel dispatch packet, `Ring` the ring and its
-- operations, `Soft` the reader on the host.
pub mod Abi
pub mod Header
pub mod Dispatch
pub mod Ring
pub mod Soft
