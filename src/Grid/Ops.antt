-- ===== src/Grid/Ops.antt =====
-- Arithmetic on dimensions, field by field (the module `ops` of runtime-amd/src/module/grid.rs), for
-- words below `m`. A division by 0 panics.
use geobacter.Prelude.{
  ℕ, ◌%◌, Option, none, some, if◌then◌else◌, ◌==◌, checked_add, checked_sub, checked_mul,
  checked_div, wrapping_add, wrapping_sub, wrapping_mul,
}
use geobacter.Prelude.Results.{Result, ok_or}
use geobacter.Errors.{Stop, panic}
use geobacter.Grid.Dims.{Fields}

checked_rem : ℕ → ℕ → Option ℕ
checked_rem a b = if b == 0 then none else some (a % b)

module _ {D : Type 0 → Type 0} (F : Fields D) where
  -- `CheckedAdd`, `CheckedSub`, `CheckedMul` and `CheckedDiv`.
  unfoldable pub dim_checked_add : ℕ → D ℕ → D ℕ → Option (D ℕ)
  dim_checked_add m d e = F.try_each2 (checked_add m) d e

  unfoldable pub dim_checked_sub : D ℕ → D ℕ → Option (D ℕ)
  dim_checked_sub d e = F.try_each2 checked_sub d e

  unfoldable pub dim_checked_mul : ℕ → D ℕ → D ℕ → Option (D ℕ)
  dim_checked_mul m d e = F.try_each2 (checked_mul m) d e

  unfoldable pub dim_checked_div : D ℕ → D ℕ → Option (D ℕ)
  dim_checked_div d e = F.try_each2 checked_div d e

  -- `Add`, `Sub`, `Mul`, `Div` and `Rem`; those by a scalar have it on every axis.
  unfoldable pub dim_add : ℕ → D ℕ → D ℕ → D ℕ
  dim_add m d e = F.each2 (wrapping_add m) d e

  unfoldable pub dim_sub : ℕ → D ℕ → D ℕ → D ℕ
  dim_sub m d e = F.each2 (wrapping_sub m) d e

  unfoldable pub dim_mul : ℕ → D ℕ → D ℕ → D ℕ
  dim_mul m d e = F.each2 (wrapping_mul m) d e

  unfoldable pub dim_div : D ℕ → D ℕ → Result Stop (D ℕ)
  dim_div d e = ok_or (F.try_each2 checked_div d e) panic

  unfoldable pub dim_rem : D ℕ → D ℕ → Result Stop (D ℕ)
  unfolding checked_rem
  dim_rem d e = ok_or (F.try_each2 checked_rem d e) panic

  unfoldable pub scalar_add : ℕ → D ℕ → ℕ → D ℕ
  scalar_add m d b = F.each (λ a. wrapping_add m a b) d
