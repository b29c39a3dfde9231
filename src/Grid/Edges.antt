-- ===== src/Grid/Edges.antt =====
-- Grids at the last words (`full_launch_grid`, `grid_id` and `grid_oob` of
-- runtime-amd/src/module/grid.rs): what happens where `Grid.Axis.Fits` does not hold.
use geobacter.Prelude.{
  ℕ, ◌+◌, ◌-◌, ◌*◌, ◌%◌, ◌≤◌, ◌<◌, ◌≡◌, refl, ap, ◌∙◌, true, false, u32_mod, u16_mod, arith,
}
use native.Mathlib.Nat.{mod-eq_of_lt}
use geobacter.Prelude.Results.{ok}
use geobacter.Grid.Dims.{Dim1D, dim1d}
use geobacter.Grid.Range.{
  Range, range, range_to, range_inclusive, lower, upper, InWord, Ordered, axis_end,
  axis_checked_len_lem, axis_len-range_to, axis_start_lem, axis_end_lem,
}
use geobacter.Grid.Ops.{dim_add, dim_mul}
use geobacter.Grid.Indices.{
  full_launch_grid, checked_len, grid_id, grid_oob, workgroup_idx, len, start, end, as_,
}
use geobacter.Grid.Axis.{Launched, groups, below_padded, padding_lt}

abbrev axis : Range → Dim1D Range
axis r = record { x = r }

-- A grid `l..=u32::MAX` that does not start at 0 is accepted with its full length, and yet a workitem
-- that gets the last index is told that it is out of bounds: no workitem runs for that index.
pub last_index_lost :
    (l w : ℕ) (wg wi : Dim1D ℕ)
    → 0 < l
    → l < u32_mod
    → grid_id dim1d (axis (range_inclusive l (u32_mod - 1))) (axis (range_to w)) wg wi
      ≡ ok (record { x = u32_mod - 1 })
    → (full_launch_grid dim1d (axis (range_inclusive l (u32_mod - 1)))
        ≡ ok (record { x = u32_mod - l; y = 1; z = 1 }))
      × (grid_oob dim1d (axis (range_inclusive l (u32_mod - 1))) (axis (range_to w)) wg wi
          ≡ ok true)
unfolding full_launch_grid checked_len grid_oob end dim1d lower upper InWord Ordered
last_index_lost l w wg wi pos small h = (
  rw
      ((axis_checked_len_lem u32_mod (range_inclusive l (u32_mod - 1)) (small, omega arith)).0
        (omega arith) (omega arith))
      refl,
  rw (h, axis_end_lem u32_mod (range_inclusive l (u32_mod - 1)) (small, omega arith)) refl,
)

-- Where the last workgroup of a half-open grid reaches past the words, and the grid starts at or past
-- the workgroup's length, the padding items wrap around to indices before the start of the grid, and
-- `grid_oob` takes them for items in bounds.
pub padding_wraps :
    (l r w wg wi : ℕ)
    → l < r
    → r < u32_mod
    → 1 ≤ w
    → w < u16_mod
    → w ≤ l
    → Launched (range l r) w wg wi
    → u32_mod ≤ l + (wg * w + wi)
    → (i : ℕ) × (i < l)
      × (grid_id dim1d
            (axis (range l r))
            (axis (range_to w))
            (record { x = wg })
            (record { x = wi })
          ≡ ok (record { x = i }))
      × (grid_oob dim1d
            (axis (range l r))
            (axis (range_to w))
            (record { x = wg })
            (record { x = wi })
          ≡ ok false)
unfolding grid_oob grid_id workgroup_idx dim_add dim_mul len start end as_ dim1d lower upper InWord
padding_wraps l r w wg wi h1 h2 h3 h4 h5 la h6 =
    let (small, wraps) = wrapped in
    (
      i,
      small,
      rw (axis_len-range_to u16_mod w, axis_start_lem (range l r), wraps),
      rw (axis_len-range_to u16_mod w, axis_start_lem (range l r), wraps, ends) (ground arith),
    )
  where
    i : ℕ
    i = l + (wg * w + wi) - u32_mod

    ends : axis_end u32_mod (range l r) ≡ ok r
    ends = axis_end_lem u32_mod (range l r) (omega arith, h2) ∙ ap (λ t. ok t) (omega arith)

    wrapped :
        (i < l) × (((wg * (w % u32_mod) % u32_mod + wi % u32_mod) % u32_mod + l) % u32_mod ≡ i)
    wrapped =
        let below = below_padded (groups (range l r) w) w wg wi la.0 la.1 in
        let last = padding_lt (range l r) w h3 in
        (
          omega (arith, below, last),
          rw (mod-eq_of_lt {n = w} {m = u32_mod} (omega arith)) (omega (arith, below, last)),
        )
