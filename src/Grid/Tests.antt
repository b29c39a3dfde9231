-- ===== src/Grid/Tests.antt =====
-- The tests of runtime-amd/src/module/grid.rs, and the theorems on grids at concrete grids.
use geobacter.Prelude.{ℕ, ◌-◌, ◌*◌, ◌≤◌, ◌<◌, ◌≡◌, refl, true, false, arith, u32_mod, All}
use geobacter.Prelude.Results.{ok}
use geobacter.Grid.Dims.{Dim1D, Dim2D, Dim3D, dim1d, dim2d, dim3d}
use geobacter.Grid.Range.{
  Range, range, range_to, range_inclusive, lower, upper, InWord, Ordered, axis_start, axis_end,
  axis_len,
}
use geobacter.Grid.Ops.{dim_add, dim_mul}
use geobacter.Grid.Indices.{
  grid_id, grid_oob, global_linear_id, is_zero, workgroup_idx, len, start, end, as_,
}
use geobacter.Grid.Axis.{Launched}
use geobacter.Grid.Coverage.{FitsGrid, InsideGrid, LaunchedItem, grid_id_covers, ranges_to}
use geobacter.Grid.Unique.{global_linear_id_unique}

-- `is_zero_2d` and `is_zero_3d`.
is_zero_2d : is_zero dim2d (record { x = 0; y = 0 }) ≡ true
unfolding is_zero dim2d
is_zero_2d = refl

is_zero_3d : is_zero dim3d (record { x = 0; y = 1; z = 0 }) ≡ false
unfolding is_zero dim3d
is_zero_3d = refl

abbrev small_grid : Dim2D Range
small_grid = record { x = range 1 3; y = range 1 3 }

abbrev small_group : Dim2D Range
small_group = record { x = range_to 4; y = range_to 4 }

abbrev origin : Dim2D ℕ
origin = record { x = 0; y = 0 }

glid_2d_a : global_linear_id dim2d small_grid small_group origin origin ≡ ok 4
unfolding global_linear_id grid_id workgroup_idx dim_add dim_mul len start end as_ dim2d axis_start
    axis_len axis_end
glid_2d_a = refl

grid_id_2d : grid_id dim2d small_grid small_group origin origin ≡ ok (record { x = 1; y = 1 })
unfolding grid_id workgroup_idx dim_add dim_mul len start as_ dim2d axis_start axis_len
grid_id_2d = refl

glid_2d_oob : grid_oob dim2d small_grid small_group origin (record { x = 3; y = 3 }) ≡ ok true
unfolding grid_oob grid_id workgroup_idx dim_add dim_mul len start end as_ dim2d axis_start axis_len
    axis_end
glid_2d_oob = refl

-- Ten by five by two indices, in workgroups of four by two by one.
abbrev box : Dim3D Range
box = record { x = range 5 15; y = range_to 5; z = range_inclusive 1 2 }

abbrev group : Dim3D ℕ
group = record { x = 4; y = 2; z = 1 }

box-FitsGrid : FitsGrid box group
unfolding lower upper InWord
box-FitsGrid = ground arith

abbrev at : ℕ → ℕ → ℕ → Dim3D ℕ
at x y z = record { x = x; y = y; z = z }

edge-LaunchedItem : LaunchedItem box group (at 2 1 0) (at 3 1 0)
unfolding lower upper
edge-LaunchedItem = ground arith

first-LaunchedItem : LaunchedItem box group (at 0 0 1) (at 0 0 0)
unfolding lower upper
first-LaunchedItem = ground arith

last-LaunchedItem : LaunchedItem box group (at 2 1 0) (at 1 1 0)
unfolding lower upper
last-LaunchedItem = ground arith

corner-InsideGrid : InsideGrid box (at 14 4 2)
unfolding lower upper
corner-InsideGrid = ground arith

grid_id_covers_example :
    (wg : Dim3D ℕ) × (wi : Dim3D ℕ) × LaunchedItem box group wg wi
    × (grid_id dim3d box (ranges_to group) wg wi ≡ ok (at 14 4 2))
    × (grid_oob dim3d box (ranges_to group) wg wi ≡ ok false)
    × ((wg' wi' : Dim3D ℕ)
        → LaunchedItem box group wg' wi'
        → grid_id dim3d box (ranges_to group) wg' wi' ≡ ok (at 14 4 2)
        → (wg' ≡ wg) × (wi' ≡ wi))
grid_id_covers_example = grid_id_covers box group (at 14 4 2) box-FitsGrid corner-InsideGrid

box_ends : upper box.z * upper box.y * upper box.x ≤ u32_mod
unfolding upper
box_ends = ground arith

first-in_bounds : grid_oob dim3d box (ranges_to group) (at 0 0 1) (at 0 0 0) ≡ ok false
unfolding grid_oob grid_id workgroup_idx dim_add dim_mul len start end as_ dim3d axis_start axis_len
    axis_end
first-in_bounds = refl

last-in_bounds : grid_oob dim3d box (ranges_to group) (at 2 1 0) (at 1 1 0) ≡ ok false
unfolding grid_oob grid_id workgroup_idx dim_add dim_mul len start end as_ dim3d axis_start axis_len
    axis_end
last-in_bounds = refl

global_linear_id_unique_example :
    (n : ℕ) × (n < upper box.z * upper box.y * upper box.x)
    × (global_linear_id dim3d box (ranges_to group) (at 0 0 1) (at 0 0 0) ≡ ok n)
    × (global_linear_id dim3d box (ranges_to group) (at 2 1 0) (at 1 1 0) ≡ ok n
        → (at 0 0 1 ≡ at 2 1 0) × (at 0 0 0 ≡ at 1 1 0))
global_linear_id_unique_example =
    global_linear_id_unique box group (at 0 0 1) (at 0 0 0) (at 2 1 0) (at 1 1 0) box-FitsGrid
      box_ends first-LaunchedItem last-LaunchedItem first-in_bounds last-in_bounds

group_positive : All (λ x. 1 ≤ x) (dim3d.values group)
unfolding dim3d
group_positive = ground arith

-- Two axes of `2^16` indices: `linear_len` is 0.
abbrev square : Dim2D Range
square = record { x = range_to 65536; y = range_to 65536 }

square_fits :
    All (λ r. InWord u32_mod r × Ordered r × (upper r - lower r < u32_mod)) (dim2d.values square)
unfolding InWord Ordered upper lower dim2d
square_fits = ground arith

abbrev word : ℕ → Dim1D ℕ
word x = record { x = x }

abbrev axis : Range → Dim1D Range
axis r = record { x = r }

reaches_last :
    grid_id dim1d
      (axis (range_inclusive 5 (u32_mod - 1)))
      (axis (range_to 4))
      (word 1073741822)
      (word 2)
    ≡ ok (word (u32_mod - 1))
unfolding grid_id workgroup_idx dim_add dim_mul len start as_ dim1d axis_start axis_len
reaches_last = refl

-- Nine indices below the last word, in a workgroup of 64.
abbrev near : ℕ
near = u32_mod - 10

near-Launched : Launched (range near (u32_mod - 1)) 64 0 20
unfolding lower upper
near-Launched = ground arith
