-- ===== src/Layout/Powers.antt =====
-- Powers of two as alignments, and multiples of an alignment.
use native.Mathlib.Nat.{
  div-add-mod, mul-mod_right, mul_assoc, mod_self, max-eq_left, max-eq_right, mul-add,
  lt_of_mul-lt-mul_left, mul-le-mul_left, pow-le-pow_right,
}
use geobacter.Prelude.{
  ℕ, ◌+◌, ◌-◌, ◌*◌, ◌/◌, ◌%◌, ◌^◌, ◌<◌, ◌≤◌, max, ◌≡◌, sym, ap, ◌∙◌, true, some, arith, usize_mod,
  wrapping_add, bit_and_mask, two_pow_pos, pow-add, dec_le,
}
use geobacter.Layout.Rounding.{
  Layout, IsLayout, is_power_of_two, from_size_align, align_to, pad_to_align, padding_needed_for,
}

pub is_power_of_two-pow : (k : ℕ) → is_power_of_two (2 ^ k) ≡ true
unfolding is_power_of_two
is_power_of_two-pow k = ground (arith, two_pow_pos k, bit_and_mask k (2 ^ k), mod_self (2 ^ k))

-- Two multiples of `a` are at least `a` apart.
pub multiples_gap : (a x y : ℕ) → x % a ≡ 0 → y % a ≡ 0 → x < y → x + a ≤ y
multiples_gap a x y hx hy h =
    omega (arith, div-add-mod x a, div-add-mod y a, mul-add a (x / a) 1, step)
  where
    quotients : x / a < y / a
    quotients = lt_of_mul-lt-mul_left a (omega (arith, div-add-mod x a, div-add-mod y a))

    step : a * (x / a + 1) ≤ a * (y / a)
    step = mul-le-mul_left a (omega (arith, quotients))

-- A multiple of a power of two is one of each smaller power.
pub mod_pow_le : (k j x : ℕ) → k ≤ j → x % 2 ^ j ≡ 0 → x % 2 ^ k ≡ 0
mod_pow_le k j x h e = ap (λ t. t % 2 ^ k) whole ∙ mul-mod_right (2 ^ k) (2 ^ (j - k) * (x / 2 ^ j))
  where
    whole : x ≡ 2 ^ k * (2 ^ (j - k) * (x / 2 ^ j))
    whole = omega (
      arith,
      div-add-mod x (2 ^ j),
      ap (λ t. t * (x / 2 ^ j)) (pow-add k (j - k) j (omega arith)),
      mul_assoc (2 ^ k) (2 ^ (j - k)) (x / 2 ^ j),
    )

-- The larger of two powers of two is a power of two.
max_pow : (k j : ℕ) → max (2 ^ k) (2 ^ j) ≡ 2 ^ max k j
max_pow k j = elim (dec_le k j) [
  | yes h ↦
      max-eq_right (pow-le-pow_right {n = 2} (omega arith) h)
      ∙ ap (λ t. 2 ^ t) (sym (max-eq_right h))
  | no h ↦
      let g : j ≤ k = omega arith in
      max-eq_left (pow-le-pow_right {n = 2} (omega arith) g) ∙ ap (λ t. 2 ^ t) (sym (max-eq_left g))
]

-- A multiple of the larger of two powers of two is one of both.
pub mod_max_pow : (k j x : ℕ) → x % max (2 ^ k) (2 ^ j) ≡ 0 → (x % 2 ^ k ≡ 0) × (x % 2 ^ j ≡ 0)
mod_max_pow k j x e =
    let e' : x % 2 ^ max k j ≡ 0 = ap (λ t. x % t) (sym (max_pow k j)) ∙ e in
    (mod_pow_le k (max k j) x (omega arith) e', mod_pow_le j (max k j) x (omega arith) e')

-- Raising an alignment keeps the size, and gives the larger of the two.
pub align_to-some :
    (l : Layout) (a : ℕ) {l' : Layout}
    → align_to l a ≡ some l'
    → (l'.size ≡ l.size) × (l'.align ≡ max l.align a)
unfolding align_to from_size_align
align_to-some l a h = ground arith

-- Padding to the own alignment does not wrap.
pub pad_to_align-some :
    (l : Layout) {l' : Layout}
    → pad_to_align l ≡ some l'
    → l'.size ≡ wrapping_add usize_mod l.size (padding_needed_for l l.align)
unfolding pad_to_align from_size_align
pad_to_align-some l h = ground arith

pub align_to_total :
    (l : Layout) (j : ℕ)
    → IsLayout l
    → j < 64
    → l.size + max l.align (2 ^ j) ≤ usize_mod
    → align_to l (2 ^ j) ≡ some (record { size = l.size; align = max l.align (2 ^ j) })
unfolding align_to
align_to_total l j v hj h = ground (arith, power, two_pow_pos j)
  where
    power : is_power_of_two (max l.align (2 ^ j)) ≡ true
    power =
        ap (λ t. is_power_of_two (max t (2 ^ j))) v.align_eq
        ∙ ap is_power_of_two (max_pow v.log j)
        ∙ is_power_of_two-pow (max v.log j)
