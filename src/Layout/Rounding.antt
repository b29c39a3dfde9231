-- ===== src/Layout/Rounding.antt =====
-- The functions of `Layout`, and what rounding up to a power of two gives.
use native.Mathlib.Nat.{div-add-mod, mod-lt, mul-mod_right, mul-sub}
use geobacter.Prelude.{
  ℕ, ◌+◌, ◌-◌, ◌*◌, ◌/◌, ◌%◌, ◌^◌, ◌≤◌, ◌<◌, max, bit_and, ◌≡◌, Bool, ◌&&◌, Option, none, some,
  arith, ltb, leb, ◌==◌, if◌then◌else◌, usize_mod, wrapping_add, wrapping_sub, complement,
  bit_and_clear, two_pow_pos, pow-add,
}

pub record Layout : Type 0 where
  pub size : ℕ
  pub align : ℕ

unfoldable pub is_power_of_two : ℕ → Bool
is_power_of_two n = ltb 0 n && bit_and n (n - 1) == 0

-- An alignment is a power of two of at most 63 doublings; a size rounds up without overflow.
pub record IsLayout (l : Layout) : Type 0 where
  pub log : ℕ
  pub log_lt : log < 64
  pub align_eq : l.align ≡ 2 ^ log
  pub rounds : l.size + l.align ≤ usize_mod

unfoldable pub from_size_align : ℕ → ℕ → Option Layout
from_size_align size align =
    if is_power_of_two align && leb size (usize_mod - 1 - (align - 1))
    then some (record { size = size; align = align })
    else none

unfoldable pub align_to : Layout → ℕ → Option Layout
unfolding from_size_align
align_to l align = from_size_align l.size (max l.align align)

-- `(size + align - 1) & !(align - 1)`, all of it wrapping.
unfoldable pub round_up : ℕ → ℕ → ℕ
round_up x align =
    bit_and (wrapping_sub usize_mod (wrapping_add usize_mod x align) 1)
      (complement usize_mod (wrapping_sub usize_mod align 1))

unfoldable pub padding_needed_for : Layout → ℕ → ℕ
padding_needed_for l align = wrapping_sub usize_mod (round_up l.size align) l.size

-- `none` stands for the panic of the `unwrap` in the library.
unfoldable pub pad_to_align : Layout → Option Layout
pad_to_align l = from_size_align (l.size + padding_needed_for l l.align) l.align

unfoldable pub repeat : Layout → ℕ → Option Layout
repeat l n =
    if ltb ((l.size + padding_needed_for l l.align) * n) usize_mod
    then some (record { size = (l.size + padding_needed_for l l.align) * n; align = l.align })
    else none

-- In a word of 64 bits the mask `!(align - 1)` is a multiple of the alignment.
mask-eq : (k : ℕ) → k < 64 → usize_mod - 2 ^ k ≡ 2 ^ k * (2 ^ (64 - k) - 1)
mask-eq k h =
    omega
      (arith, pow-add k (64 - k) 64 (omega arith), mul-sub (2 ^ k) (2 ^ (64 - k)) 1, two_pow_pos k)

pub round_up-eq :
    (k x : ℕ)
    → k < 64
    → x + 2 ^ k ≤ usize_mod
    → round_up x (2 ^ k) ≡ 2 ^ k * ((x + 2 ^ k - 1) / 2 ^ k)
unfolding round_up
round_up-eq k x hk h =
    rw (sum, mask)
      (bit_and_clear k (64 - k) (x + 2 ^ k - 1)
        (omega (arith, pow-add k (64 - k) 64 (omega arith), two_pow_pos k)))
  where
    sum : wrapping_sub usize_mod (wrapping_add usize_mod x (2 ^ k)) 1 ≡ x + 2 ^ k - 1
    sum = omega (arith, two_pow_pos k)

    mask : complement usize_mod (wrapping_sub usize_mod (2 ^ k) 1) ≡ 2 ^ k * (2 ^ (64 - k) - 1)
    mask = omega (arith, mask-eq k hk, two_pow_pos k)

-- Rounding up gives the least multiple that is not below.
pub round_up_bounds :
    (k x : ℕ)
    → k < 64
    → x + 2 ^ k ≤ usize_mod
    → (x ≤ round_up x (2 ^ k)) × (round_up x (2 ^ k) < x + 2 ^ k) × (round_up x (2 ^ k) % 2 ^ k ≡ 0)
round_up_bounds k x hk h = rw (round_up-eq k x hk h) (
  omega (
    arith,
    div-add-mod (x + 2 ^ k - 1) (2 ^ k),
    mod-lt (x + 2 ^ k - 1) (two_pow_pos k),
    two_pow_pos k,
  ),
  omega (
    arith,
    div-add-mod (x + 2 ^ k - 1) (2 ^ k),
    mod-lt (x + 2 ^ k - 1) (two_pow_pos k),
    two_pow_pos k,
  ),
  mul-mod_right (2 ^ k) ((x + 2 ^ k - 1) / 2 ^ k),
)
