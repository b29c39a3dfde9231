-- ===== src/Grid.antt =====
-- The launch grids of runtime-amd/src/module/grid.rs: ranges of an axis, dimensions, the workgroups
-- of a grid and the index that a workitem gets.
pub mod Range
pub mod Dims
pub mod Ops
pub mod Conversions
pub mod Indices
pub mod Axis
pub mod Coverage
pub mod Linear
pub mod Unique
pub mod Edges
mod Tests
