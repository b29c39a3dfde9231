-- ===== src/Launch/Shape.antt =====
-- The checks of `_try_unchecked_call_async` in runtime-amd/src/module/mod.rs on the dimensions of a
-- launch, and the grid rounded up to whole workgroups.
use geobacter.Prelude.{ℕ, if◌then◌else◌, ltb, ◌==◌, ◌||◌, u32_mod, usize_mod, Bool}
use geobacter.Prelude.Results.{Result, ok, err, ok_or, ◌>>=◌, ◌>>◌}
use geobacter.Errors.{
  Stop, Error, failed, overflow, zero_grid_launch_axis, kernel_workgroup_dim_too_large_for_device,
  kernel_workgroup_len_too_large_for_device, launch_grid_dim_too_large_for_device,
  launch_grid_len_too_large_for_device,
}
use geobacter.Grid.Dims.{Fields, Dim3D, dim3d}
use geobacter.Grid.Range.{Range}
use geobacter.Grid.Indices.{as_, checked_linear_len, full_launch_grid, workgroup_full_launch_grid}
use geobacter.Grid.Ops.{dim_sub, dim_div, dim_checked_add, dim_checked_mul}

-- The limits of the device, `IsaInfo`.
pub record IsaInfo : Type 0 where
  pub workgroup_max_dim : Dim3D ℕ
  pub workgroup_max_size : ℕ
  pub grid_max_dim : Dim3D ℕ
  pub grid_max_size : ℕ

abbrev pub fail_if : Bool → Error → Result Stop (Unit {0})
fail_if bad e = if bad then err (failed e) else ok tt

abbrev pub any_zero : Dim3D ℕ → Bool
any_zero d = d.x == 0 || d.y == 0 || d.z == 0

abbrev pub exceeds : Dim3D ℕ → Dim3D ℕ → Bool
exceeds d limit = ltb limit.x d.x || ltb limit.y d.y || ltb limit.z d.z

unfoldable pub check_limits : IsaInfo → Dim3D ℕ → Dim3D ℕ → Result Stop (Unit {0})
check_limits isa wg_size grid_size = do
  fail_if (any_zero wg_size || any_zero grid_size) zero_grid_launch_axis
  fail_if (exceeds wg_size isa.workgroup_max_dim) kernel_workgroup_dim_too_large_for_device
  let wg_len = (← checked_linear_len dim3d u32_mod (as_ dim3d u32_mod wg_size))
  fail_if (ltb isa.workgroup_max_size wg_len) kernel_workgroup_len_too_large_for_device
  fail_if (exceeds grid_size isa.grid_max_dim) launch_grid_dim_too_large_for_device
  let grid_len = (← checked_linear_len dim3d usize_mod (as_ dim3d usize_mod grid_size))
  fail_if (ltb isa.grid_max_size grid_len) launch_grid_len_too_large_for_device

unfoldable pub round_grid : Dim3D ℕ → Dim3D ℕ → Result Stop (Dim3D ℕ)
round_grid wg_size grid_size = do
  let wg_size' = as_ dim3d u32_mod wg_size
  let one = dim3d.same 1
  let whole = (← dim_div dim3d (dim_sub dim3d u32_mod grid_size one) wg_size')
  let count = (← ok_or (dim_checked_add dim3d u32_mod whole one) (failed overflow))
  ok_or (dim_checked_mul dim3d u32_mod count wg_size') (failed overflow)

-- The workgroup's size and the rounded grid's.
unfoldable pub launch_shape :
    {D E : Type 0 → Type 0}
    → Fields D
    → Fields E
    → IsaInfo
    → D Range
    → E Range
    → Result Stop (Dim3D ℕ × Dim3D ℕ)
unfolding check_limits round_grid
launch_shape F G isa workgroup grid = do
  let wg_size = (← workgroup_full_launch_grid F workgroup)
  let grid_size = (← full_launch_grid G grid)
  check_limits isa wg_size grid_size
  let rounded = (← round_grid wg_size grid_size)
  ok (wg_size, rounded)
