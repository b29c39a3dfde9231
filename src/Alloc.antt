-- ===== src/Alloc.antt =====
-- The allocators over memory that the HSA runtime hands out: `Heap` has what they share, `Pool`
-- MemoryPoolAlloc of hsa-rt/src/ext/amd.rs, `Region` RegionAlloc of hsa-rt/src/mem/region_alloc.rs,
-- `Accessible` and `Lap` the allocator of runtime-amd/src/alloc, which grants devices access.
pub mod Heap
pub mod Pool
pub mod Programs
pub mod Placed
pub mod Native
pub mod Grown
pub mod Room
pub mod Resized
pub mod Region
pub mod Aligned
pub mod Accessible
pub mod Lap
pub mod Grants
mod Tests
