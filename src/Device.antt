-- ===== src/Device.antt =====
-- Parts of `HsaAmdGpuAccel` of runtime-amd/src/lib.rs: the target that the name of an ISA describes, and
-- the memory pools that a device takes.
pub mod Target
pub mod Names
pub mod Features
pub mod Pools
pub mod Taken
mod Tests
