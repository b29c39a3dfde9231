-- ===== src/Layout.antt =====
-- `std::alloc::Layout` as the allocators use it: a size and an alignment, with the checks and the
-- roundings that the standard library documents. The allocators are runtime-amd/src/module/args_pool.rs
-- and hsa-rt/src/mem/region_alloc.rs.
mod Rounding
mod Powers
unfoldable pub use Rounding.*
pub use Powers.*
