-- ===== src/ArgsPool/Padding.antt =====
-- `alignment_padding` of `ArgsPool::alloc`.
use native.Mathlib.Nat.{div-add-mod, mod-lt, mul-mod_right, mul-add}
use geobacter.Prelude.{ℕ, ◌+◌, ◌-◌, ◌*◌, ◌/◌, ◌%◌, ◌<◌, ◌≤◌, ◌≡◌, arith, usize_mod, wrapping_sub}
use geobacter.ArgsPool.{alignment_padding}

-- The padding brings a positive address up to the next multiple of the alignment, and is below it.
pub alignment_padding_lem :
    (x a : ℕ)
    → 1 ≤ x
    → x < usize_mod
    → 1 ≤ a
    → a < usize_mod
    → (alignment_padding x a < a) × ((x + alignment_padding x a) % a ≡ 0)
unfolding alignment_padding
alignment_padding_lem x a hx hm ha hb =
    rw (padding) (omega (arith, below), rw (sum) (mul-mod_right a ((x - 1) / a + 1)))
  where
    below : (x - 1) % a < a
    below = mod-lt (x - 1) ha

    wrapped : wrapping_sub usize_mod x 1 ≡ x - 1
    wrapped = omega arith

    padding : wrapping_sub usize_mod (a - wrapping_sub usize_mod x 1 % a) 1 ≡ a - 1 - (x - 1) % a
    padding = rw (wrapped) (omega (arith, below))

    sum : x + (a - 1 - (x - 1) % a) ≡ a * ((x - 1) / a + 1)
    sum = omega (arith, below, div-add-mod (x - 1) a, mul-add a ((x - 1) / a) 1)
