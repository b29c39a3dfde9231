-- ===== src/Prelude/Digits.antt =====
-- The binary digits of a number, by which the operations on words are known.
use Prim.Native.Nat.{ℕ, zero, suc, ◌-◌, ◌*◌, ◌/◌, ◌%◌, ◌^◌, ◌<◌, min, max, bit_and, bit_or}
use mathlib.Core.Path.{◌≡◌, refl, ap, ◌∙◌}
use mathlib.Core.Logic.{◌≢◌, ◌↔◌}
use native.Mathlib.Omega.{arith}
use package.geobacter.Prelude.Bits.{bit_or_step, bit_and_step, bit_and-zero, two_pow_pos}
use package.geobacter.Prelude.Words.{complement}

abbrev pub digit : ℕ → ℕ → ℕ
digit zero x = x % 2
digit (suc k) x = digit k (x / 2)

pub digit_bound : (k x : ℕ) → digit k x < 2
digit_bound zero x = omega arith
digit_bound (suc k) x = digit_bound k (x / 2)

pub digit-zero : (k : ℕ) → digit k 0 ≡ 0
digit-zero zero = omega arith
digit-zero (suc k) = ap (digit k) {x = 0 / 2} {y = 0} (omega arith) ∙ digit-zero k

pub digit-bit_or : (k x y : ℕ) → digit k (bit_or x y) ≡ max (digit k x) (digit k y)
digit-bit_or zero x y = omega (arith, bit_or_step x y)
digit-bit_or (suc k) x y =
    ap (digit k) {x = bit_or x y / 2} {y = bit_or (x / 2) (y / 2)} (omega (arith, bit_or_step x y))
    ∙ digit-bit_or k (x / 2) (y / 2)

pub digit-bit_and : (k x y : ℕ) → digit k (bit_and x y) ≡ min (digit k x) (digit k y)
digit-bit_and zero x y = omega (arith, bit_and_step x y)
digit-bit_and (suc k) x y =
    ap (digit k) {x = bit_and x y / 2} {y = bit_and (x / 2) (y / 2)}
      (omega (arith, bit_and_step x y))
    ∙ digit-bit_and k (x / 2) (y / 2)

half_pow : (k : ℕ) → 2 ^ suc k / 2 ≡ 2 ^ k
half_pow k = omega arith

-- A power of two has one digit that is not zero.
pub digit-pow_self : (k : ℕ) → digit k (2 ^ k) ≡ 1
digit-pow_self zero = omega arith
digit-pow_self (suc k) = ap (digit k) (half_pow k) ∙ digit-pow_self k

pub digit-pow_ne : (j k : ℕ) → j ≢ k → digit j (2 ^ k) ≡ 0
digit-pow_ne zero zero h = absurd (h refl)
digit-pow_ne zero (suc k) h = omega arith
digit-pow_ne (suc j) zero h = ap (digit j) {x = 1 / 2} {y = 0} (omega arith) ∙ digit-zero j
digit-pow_ne (suc j) (suc k) h = ap (digit j) (half_pow k) ∙ digit-pow_ne j k (λ e. h (ap suc e))

-- `!x` in a word of `n` digits.
pub digit-complement :
    (n k x : ℕ) → k < n → x < 2 ^ n → digit k (complement (2 ^ n) x) ≡ 1 - digit k x
digit-complement zero k x h b = elim h [ ]
digit-complement (suc n) zero x h b = omega (arith, two_pow_pos n)
digit-complement (suc n) (suc k) x h b =
    ap (digit k) {x = complement (2 ^ suc n) x / 2} {y = complement (2 ^ n) (x / 2)}
      (omega (arith, two_pow_pos n))
    ∙ digit-complement n k (x / 2) (omega arith) (omega arith)

-- The test of one digit by its power of two.
pub bit_and-pow : (k x : ℕ) → (bit_and x (2 ^ k) ≡ 0) ↔ (digit k x ≡ 0)
bit_and-pow zero x =
    let e : bit_and x 1 ≡ x % 2 = omega (arith, bit_and_step x 1, bit_and-zero (x / 2)) in
    (λ h. omega (arith, e, h), λ h. omega (arith, e, h))
bit_and-pow (suc k) x =
    let e : bit_and x (2 ^ suc k) ≡ bit_and (x / 2) (2 ^ suc k / 2) * 2 =
      omega (arith, bit_and_step x (2 ^ suc k)) in
    let e' : bit_and x (2 ^ suc k) ≡ bit_and (x / 2) (2 ^ k) * 2 =
      e ∙ ap (λ t. bit_and (x / 2) t * 2) (half_pow k) in
    (
      λ h. (bit_and-pow k (x / 2)).0 (omega (arith, e', h)),
      λ h. omega (arith, e', (bit_and-pow k (x / 2)).1 h),
    )
