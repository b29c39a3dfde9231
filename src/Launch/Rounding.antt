-- ===== src/Launch/Rounding.antt =====
-- The grid that a launch asks for and the one that it gets.
use geobacter.Prelude.{
  ℕ, ◌+◌, ◌-◌, ◌*◌, ◌/◌, ◌%◌, ◌≤◌, ◌<◌, ◌≡◌, refl, ◌∙◌, some, ◌⊎◌, u16_mod, u32_mod, arith,
  checked_div, checked_add, wrapping_sub, checked_mul-fits,
}
use native.Mathlib.Nat.{div-add-mod, mod-lt, mul_comm, mul-mod_left, div-le_self}
use geobacter.Prelude.Results.{ok, err, ok_or}
use geobacter.Errors.{failed, overflow}
use geobacter.Grid.Dims.{Dim3D, dim3d}
use geobacter.Grid.Indices.{as_}
use geobacter.Grid.Ops.{dim_sub, dim_div, dim_checked_add, dim_checked_mul}
use geobacter.Launch.Shape.{round_grid}

-- The workgroup's length and the grid's along an axis.
abbrev pub AxisShape : ℕ → ℕ → Type 0
AxisShape w g = (1 ≤ w) × (w < u16_mod) × (1 ≤ g) × (g < u32_mod)

unfoldable pub rounded : ℕ → ℕ → ℕ
rounded w g = ((g - 1) / w + 1) * w

-- A rounded length is the least multiple of the workgroup's that is not below the grid's.
pub rounded_lem :
    (w g : ℕ) → AxisShape w g → (g ≤ rounded w g) × (rounded w g < g + w) × (rounded w g % w ≡ 0)
unfolding rounded
rounded_lem w g s = (
  omega (
    arith,
    div-add-mod (g - 1) w,
    mod-lt (g - 1) {m = w} (omega (arith, s.0)),
    mul_comm w ((g - 1) / w),
  ),
  omega (arith, s, div-add-mod (g - 1) w, mul_comm w ((g - 1) / w)),
  mul-mod_left ((g - 1) / w + 1) w,
)

axis_whole :
    (w g : ℕ)
    → AxisShape w g
    → checked_div (wrapping_sub u32_mod g 1) (w % u32_mod) ≡ some ((g - 1) / w)
axis_whole w g s = rw (lower, word) (ground arith)
  where
    lower : wrapping_sub u32_mod g 1 ≡ g - 1
    lower = omega (arith, s)

    word : w % u32_mod ≡ w
    word = omega (arith, s)

axis_count :
    (w g : ℕ) → AxisShape w g → checked_add u32_mod ((g - 1) / w) 1 ≡ some ((g - 1) / w + 1)
axis_count w g s = ground (arith, div-le_self (g - 1) w)

axis_word : (w g : ℕ) → AxisShape w g → w % u32_mod ≡ w
axis_word w g s = omega (arith, s)

abbrev pub ShapeOk : Dim3D ℕ → Dim3D ℕ → Type 0
ShapeOk w g = AxisShape w.x g.x × AxisShape w.y g.y × AxisShape w.z g.z

abbrev pub rounded_dims : Dim3D ℕ → Dim3D ℕ → Dim3D ℕ
rounded_dims w g = record { x = rounded w.x g.x; y = rounded w.y g.y; z = rounded w.z g.z }

-- The counts of workgroups along the axes.
counts : Dim3D ℕ → Dim3D ℕ → Dim3D ℕ
counts w g = record { x = (g.x - 1) / w.x + 1; y = (g.y - 1) / w.y + 1; z = (g.z - 1) / w.z + 1 }

round_grid-eq :
    (w g : Dim3D ℕ)
    → ShapeOk w g
    → round_grid w g ≡ ok_or (dim_checked_mul dim3d u32_mod (counts w g) w) (failed overflow)
unfolding round_grid as_ dim_sub dim_div dim_checked_add dim_checked_mul dim3d counts
round_grid-eq w g s = rw (
  axis_whole w.x g.x s.0,
  axis_whole w.y g.y s.1,
  axis_whole w.z g.z s.2,
  axis_count w.x g.x s.0,
  axis_count w.y g.y s.1,
  axis_count w.z g.z s.2,
  axis_word w.x g.x s.0,
  axis_word w.y g.y s.1,
  axis_word w.z g.z s.2,
)

-- The grid of a launch is rounded up to whole workgroups: each axis is the least multiple of the
-- workgroup's length that is not below the length asked for. Where a word does not hold one of these,
-- the launch fails with an overflow.
pub round_grid_lem :
    (w g : Dim3D ℕ)
    → ShapeOk w g
    → (rounded w.x g.x < u32_mod
        → rounded w.y g.y < u32_mod
        → rounded w.z g.z < u32_mod
        → round_grid w g ≡ ok (rounded_dims w g))
      × ((u32_mod ≤ rounded w.x g.x) ⊎ (u32_mod ≤ rounded w.y g.y) ⊎ (u32_mod ≤ rounded w.z g.z)
          → round_grid w g ≡ err (failed overflow))
unfolding dim_checked_mul dim3d counts rounded
round_grid_lem w g s = (
  λ x y z.
      round_grid-eq w g s
      ∙ rw
          (
            checked_mul-fits u32_mod _ w.x x,
            checked_mul-fits u32_mod _ w.y y,
            checked_mul-fits u32_mod _ w.z z,
          )
          refl,
  λ over. round_grid-eq w g s ∙ ground arith,
)
