-- ===== src/Prelude/Words.antt =====
-- Machine words with overflow checks off, as in a release build: `+`, `-` and `*` wrap. The checked
-- operations of the standard library and of num_traits return `none` instead.
use Prim.Native.Nat.{ℕ, ◌+◌, ◌-◌, ◌*◌, ◌/◌, ◌%◌, ◌^◌, ◌≤◌, ◌<◌}
use mathlib.Core.Path.{◌≡◌, sym, ap, ◌∙◌}
use native.Mathlib.Decide.{dec_lt}
use mathlib.Core.Logic.{◌≢◌}
use native.Mathlib.Nat.{div-add-mod, mul-le-mul_left, mul-add, add-mul-mod_self_left}
use mathlib.Core.Option.{Option, none, some}
use native.Mathlib.Omega.{arith}
use package.geobacter.Prelude.Tests.{ltb, leb, if◌then◌else◌, ◌==◌}

abbrev pub usize_mod : ℕ
usize_mod = 2 ^ 64

abbrev pub u32_mod : ℕ
u32_mod = 2 ^ 32

abbrev pub u16_mod : ℕ
u16_mod = 2 ^ 16

-- The operations on words below `m`.
module _ (m : ℕ) where
  abbrev pub wrapping_add : ℕ → ℕ → ℕ
  wrapping_add a b = (a + b) % m

  abbrev pub wrapping_sub : ℕ → ℕ → ℕ
  wrapping_sub a b = (a + m - b) % m

  abbrev pub wrapping_mul : ℕ → ℕ → ℕ
  wrapping_mul a b = a * b % m

  abbrev pub checked_add : ℕ → ℕ → Option ℕ
  checked_add a b = if ltb (a + b) m then some (a + b) else none

  abbrev pub checked_mul : ℕ → ℕ → Option ℕ
  checked_mul a b = if ltb (a * b) m then some (a * b) else none

  -- `min(a + b, MAX)`.
  abbrev pub saturating_add : ℕ → ℕ → ℕ
  saturating_add a b = if ltb (a + b) m then a + b else m - 1

  -- `TryFrom` between unsigned words.
  abbrev pub try_into : ℕ → Option ℕ
  try_into a = if ltb a m then some a else none

abbrev pub checked_sub : ℕ → ℕ → Option ℕ
checked_sub a b = if leb b a then some (a - b) else none

abbrev pub checked_div : ℕ → ℕ → Option ℕ
checked_div a b = if b == 0 then none else some (a / b)

-- `!a` on a word below `m`.
abbrev pub complement : ℕ → ℕ → ℕ
complement m a = m - 1 - a

-- A product of two numbers below `2^32`, plus one below `2^32`, and the like, for `omega`.
pub mul_mono : (a b c d : ℕ) → a ≤ c → b ≤ d → a * b ≤ c * d
mul_mono a b c d h k = grind arith

pub checked_mul-fits : (m a b : ℕ) → a * b < m → checked_mul m a b ≡ some (a * b)
checked_mul-fits m a b h = ground arith

pub checked_mul-overflows : (m a b : ℕ) → m ≤ a * b → checked_mul m a b ≡ none
checked_mul-overflows m a b h = ground arith

pub mod-mul_left : (m a b : ℕ) → a % m * b % m ≡ a * b % m
mod-mul_left m a b = sym (ap (λ t. t % m) whole ∙ add-mul-mod_self_left (a % m * b) m (a / m * b))
  where
    whole : a * b ≡ a % m * b + m * (a / m * b)
    whole = ap (λ t. t * b) (sym (div-add-mod a m)) ∙ grind arith

-- Two numbers less than `m` apart have different remainders.
pub mod_ne : (m a b : ℕ) → a < b → b < a + m → a % m ≢ b % m
mod_ne m a b h k e = elim (dec_lt (a / m) (b / m)) [
  | yes p ↦
      let step : m * (a / m + 1) ≤ m * (b / m) = mul-le-mul_left m (omega arith) in
      omega (arith, div-add-mod a m, div-add-mod b m, mul-add m (a / m) 1, step)
  | no p ↦
      let step : m * (b / m) ≤ m * (a / m) = mul-le-mul_left m (omega arith) in
      omega (arith, div-add-mod a m, div-add-mod b m, step)
]

-- Two multiples of `m` in one stretch of `m` numbers are one.
pub multiple_unique :
    (m a b s : ℕ) → a % m ≡ 0 → b % m ≡ 0 → s ≤ a → a < s + m → s ≤ b → b < s + m → a ≡ b
multiple_unique m a b s u v low high low' high' = elim (dec_lt a b) [
  | yes h ↦ absurd (mod_ne m a b h (omega arith) (u ∙ sym v))
  | no h ↦ elim (dec_lt b a) [
    | yes k ↦ absurd (mod_ne m b a k (omega arith) (v ∙ sym u))
    | no k ↦ omega arith
  ]
]
