-- ===== src/Grid/Indices.antt =====
-- The traits `GridDims` and `WorkgroupDims` of runtime-amd/src/module/grid.rs for the ranges of
-- `u32` and `..n` of `u16`, and the methods on dimensions that they use. The intrinsics that give a
-- workitem's ids are arguments.
use geobacter.Prelude.{
  ℕ, ◌%◌, List, [], ◌∷◌, Option, none, some, Bool, true, false, ◌&&◌, ◌||◌, if◌then◌else◌, leb, ltb,
  ◌==◌, checked_mul, wrapping_mul, u32_mod, u16_mod,
}
use geobacter.Prelude.Results.{Result, ok, err, ok_or, ◌>>=◌}
use geobacter.Errors.{Stop, panic, failed, overflow}
use geobacter.Grid.Dims.{Fields, Dim3D}
use geobacter.Grid.Ops.{dim_add, dim_mul}
use geobacter.Grid.Range.{Range, axis_start, axis_end, axis_len, axis_checked_len}

unfoldable pub product_from : ℕ → ℕ → List ℕ → Result Stop ℕ
product_from m acc [] = ok acc
product_from m acc (a ∷ xs) = do
  let next = (← ok_or (checked_mul m acc a) (failed overflow))
  product_from m next xs

all_zero : Bool → List ℕ → Bool
all_zero c [] = c
all_zero c (a ∷ xs) = all_zero (c && a == 0) xs

unfoldable pub wrapping_product : ℕ → List ℕ → ℕ
wrapping_product acc [] = acc
wrapping_product acc (a ∷ xs) = wrapping_product (wrapping_mul u32_mod acc a) xs

-- `$(idx.$field >= end.$field)||*`.
abbrev pub any : Bool → List Bool → Bool
any c [] = c
any c (b ∷ bs) = any (c || b) bs

module _ {D : Type 0 → Type 0} (F : Fields D) where
  -- `as_`, between unsigned words: the low bits.
  unfoldable pub as_ : ℕ → D ℕ → D ℕ
  as_ m d = F.each (λ a. a % m) d

  unfoldable pub checked_linear_len : ℕ → D ℕ → Result Stop ℕ
  unfolding product_from
  checked_linear_len m d = product_from m 1 (F.values d)

  unfoldable pub start : D Range → Result Stop (D ℕ)
  start d = F.try_each axis_start d

  unfoldable pub end : ℕ → D Range → Result Stop (D ℕ)
  end m d = F.try_each (axis_end m) d

  unfoldable pub len : ℕ → D Range → Result Stop (D ℕ)
  len m d = F.try_each (axis_len m) d

  unfoldable pub checked_len : ℕ → D Range → Result Stop (D ℕ)
  checked_len m d = F.try_each (axis_checked_len m) d

  unfoldable pub is_zero : D ℕ → Bool
  unfolding all_zero
  is_zero d = all_zero true (F.values d)

  -- `GridDims`.
  unfoldable pub full_launch_grid : D Range → Result Stop (Dim3D ℕ)
  unfolding checked_len
  full_launch_grid g = do ok (F.into_dim3d (← checked_len u32_mod g))

  unfoldable pub product_of_len : Result Stop (D ℕ) → Result Stop (Option ℕ)
  product_of_len (ok l) = ok (some (wrapping_product 1 (F.values l)))
  product_of_len (err panic) = err panic
  product_of_len (err (failed e)) = ok none

  unfoldable pub linear_len : D Range → Result Stop (Option ℕ)
  unfolding checked_len product_of_len wrapping_product
  linear_len g = product_of_len (checked_len u32_mod g)

  unfoldable pub workgroup_idx : D Range → D ℕ → Result Stop (D ℕ)
  unfolding len as_ dim_mul
  workgroup_idx wg_size wg_id = do
    let l = (← len u16_mod wg_size)
    ok (dim_mul F u32_mod wg_id (as_ u32_mod l))

  unfoldable pub grid_id : D Range → D Range → D ℕ → D ℕ → Result Stop (D ℕ)
  unfolding workgroup_idx as_ start dim_add
  grid_id g wg_size wg_id wi_id = do
    let wg_idx = (← workgroup_idx wg_size wg_id)
    let first = (← start g)
    ok (dim_add F u32_mod (dim_add F u32_mod wg_idx (as_ u32_mod wi_id)) first)

  unfoldable pub grid_oob : D Range → D Range → D ℕ → D ℕ → Result Stop Bool
  unfolding grid_id end
  grid_oob g wg_size wg_id wi_id = do
    let idx = (← grid_id g wg_size wg_id wi_id)
    let last = (← end u32_mod g)
    ok (any false (F.values (F.each2 (λ i e. leb e i) idx last)))

  unfoldable pub global_linear_id : D Range → D Range → D ℕ → D ℕ → Result Stop ℕ
  unfolding grid_id end
  global_linear_id g wg_size wg_id wi_id = do
    let idx = (← grid_id g wg_size wg_id wi_id)
    let last = (← end u32_mod g)
    ok (F.glid u32_mod idx last)

  -- `WorkgroupDims`. `to_u16` of a word below `2^16` is that word.
  unfoldable pub workgroup_full_launch_grid : D Range → Result Stop (Dim3D ℕ)
  unfolding len
  workgroup_full_launch_grid w = do
    let l = (← len u16_mod w)
    let l' = (← F.try_each (λ a. if ltb a u16_mod then ok a else err (failed overflow)) l)
    ok (F.into_dim3d l')

  unfoldable pub workitem_linear_id : D Range → D ℕ → Result Stop ℕ
  unfolding len
  workitem_linear_id w wi_id = do ok (F.wi_linear_id u16_mod (← len u16_mod w) wi_id)
