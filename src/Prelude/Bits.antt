-- ===== src/Prelude/Bits.antt =====
-- Masks with a power of two: `x & (2^k - 1)` and `x & !(2^k - 1)` as remainder and quotient.
use Prim.Native.Nat.{
  ℕ, zero, suc, ◌+◌, ◌-◌, ◌*◌, ◌/◌, ◌%◌, ◌^◌, ◌≤◌, ◌<◌, min, max, bit_and, bit_or, digits,
  bit_and-bitwise, bit_or-bitwise,
}
use mathlib.Core.Path.{◌≡◌, refl, sym, ap, ◌∙◌}
use native.Mathlib.Nat.{
  pow-suc, pow-succ', mod-eq_of_lt, mod-lt, div-div-eq-div-mul, add-mul-mod_self_left, div-add-mod,
  div-one, one-mul, mul_assoc, div-lt_iff_lt-mul, mul_comm,
}
use native.Mathlib.Omega.{arith}

-- Any count of digits to go that covers the first number gives the same digits.
module _ (z : ℕ → ℕ) (f : ℕ → ℕ → ℕ) where
  run_out : (n b : ℕ) → digits z f n 0 b ≡ z b
  run_out zero b = refl
  run_out (suc n) b = refl

  count_free : (m n x y : ℕ) → x ≤ m → x ≤ n → digits z f m x y ≡ digits z f n x y
  count_free m n zero y h k = run_out m y ∙ sym (run_out n y)
  count_free zero n (suc x) y h k = absurd (omega arith)
  count_free (suc m) zero (suc x) y h k = absurd (omega arith)
  count_free (suc m) (suc n) (suc x) y h k =
      ap (λ t. t * 2 + f (suc x % 2) (y % 2))
        (count_free m n (suc x / 2) (y / 2) (omega arith) (omega arith))

  lowest_digit :
      (x y : ℕ)
      → digits z f (suc x) (suc x) y
        ≡ digits z f (suc x / 2) (suc x / 2) (y / 2) * 2 + f (suc x % 2) (y % 2)
  lowest_digit x y =
      ap (λ t. t * 2 + f (suc x % 2) (y % 2))
        (count_free x (suc x / 2) (suc x / 2) (y / 2) (omega arith) (omega arith))

pub zero-bit_or : (b : ℕ) → bit_or 0 b ≡ b
zero-bit_or y = bit_or-bitwise 0 y

pub bit_or_step : (x y : ℕ) → bit_or x y ≡ bit_or (x / 2) (y / 2) * 2 + max (x % 2) (y % 2)
bit_or_step zero y = ground (arith, zero-bit_or y, zero-bit_or (y / 2))
bit_or_step (suc x) y =
    bit_or-bitwise (suc x) y
    ∙ lowest_digit (λ t. t) max x y
    ∙ ap (λ t. t * 2 + max (suc x % 2) (y % 2)) (sym (bit_or-bitwise (suc x / 2) (y / 2)))

pub bit_and_step : (x y : ℕ) → bit_and x y ≡ bit_and (x / 2) (y / 2) * 2 + min (x % 2) (y % 2)
bit_and_step zero y = ground (arith, bit_and-bitwise 0 y, bit_and-bitwise 0 (y / 2))
bit_and_step (suc x) y =
    bit_and-bitwise (suc x) y
    ∙ lowest_digit (λ _. 0) min x y
    ∙ ap (λ t. t * 2 + min (suc x % 2) (y % 2)) (sym (bit_and-bitwise (suc x / 2) (y / 2)))

no_bits : (n x : ℕ) → digits (λ _. 0) min n x 0 ≡ 0
no_bits zero x = refl
no_bits (suc n) zero = refl
no_bits (suc n) (suc x) = ground (arith, no_bits n (suc x / 2))

pub bit_and-zero : (x : ℕ) → bit_and x 0 ≡ 0
bit_and-zero x = bit_and-bitwise x 0 ∙ no_bits x x

pub two_pow_pos : (k : ℕ) → 1 ≤ 2 ^ k
two_pow_pos zero = omega arith
two_pow_pos (suc k) = omega (arith, pow-suc 2 k, two_pow_pos k)

-- Splitting a remainder by `2 * m` at its lowest digit.
mod_double : (x m : ℕ) → 1 ≤ m → x % (2 * m) ≡ x / 2 % m * 2 + x % 2
mod_double x m h =
    ap (λ t. t % (2 * m)) whole
    ∙ add-mul-mod_self_left low (2 * m) (x / 2 / m)
    ∙ mod-eq_of_lt (omega (arith, mod-lt (x / 2) {m = m} (omega arith)))
  where
    low : ℕ
    low = x / 2 % m * 2 + x % 2

    whole : x ≡ low + 2 * m * (x / 2 / m)
    whole = omega (arith, div-add-mod (x / 2) m)

pub bit_and_mask : (k x : ℕ) → bit_and x (2 ^ k - 1) ≡ x % 2 ^ k
bit_and_mask zero x = omega (arith, bit_and-zero x)
bit_and_mask (suc k) x =
    bit_and_step x (2 ^ suc k - 1)
    ∙ rw (half, low, bit_and_mask k (x / 2))
        (sym (ap (λ t. x % t) (pow-succ' 2 k) ∙ mod_double x (2 ^ k) (two_pow_pos k)))
  where
    half : (2 ^ suc k - 1) / 2 ≡ 2 ^ k - 1
    half = omega (arith, pow-suc 2 k, two_pow_pos k)

    low : min (x % 2) ((2 ^ suc k - 1) % 2) ≡ x % 2
    low = omega (arith, pow-suc 2 k, two_pow_pos k)

pow-suc-mul : (k m : ℕ) → 2 ^ suc k * m ≡ 2 * (2 ^ k * m)
pow-suc-mul k m = ap (λ t. t * m) (pow-succ' 2 k) ∙ mul_assoc 2 (2 ^ k) m

pub bit_and_shift : (k x m : ℕ) → bit_and x (2 ^ k * m) ≡ 2 ^ k * bit_and (x / 2 ^ k) m
bit_and_shift zero x m = rw (div-one x, one-mul m) (sym (one-mul _))
bit_and_shift (suc k) x m =
    bit_and_step x (2 ^ suc k * m)
    ∙ rw (half, bit_and_shift k (x / 2) m, div-div-eq-div-mul x 2 (2 ^ k), ← pow-succ' 2 k)
        (omega (arith, low, pow-suc-mul k (bit_and (x / 2 ^ suc k) m)))
  where
    half : 2 ^ suc k * m / 2 ≡ 2 ^ k * m
    half = omega (arith, pow-suc-mul k m)

    low : min (x % 2) (2 ^ suc k * m % 2) ≡ 0
    low = omega (arith, pow-suc-mul k m)

pub pow-add : (k j n : ℕ) → k + j ≡ n → 2 ^ k * 2 ^ j ≡ 2 ^ n
pow-add zero j n h = one-mul (2 ^ j) ∙ ap (λ t. 2 ^ t) (omega arith)
pow-add (suc k) j zero h = absurd (omega arith)
pow-add (suc k) j (suc n) h =
    pow-suc-mul k (2 ^ j) ∙ ap (λ t. 2 * t) (pow-add k j n (omega arith)) ∙ sym (pow-succ' 2 n)

-- `x & !(2^k - 1)` in a word of `k + j` bits rounds down to a multiple of `2^k`.
pub bit_and_clear :
    (k j x : ℕ) → x < 2 ^ k * 2 ^ j → bit_and x (2 ^ k * (2 ^ j - 1)) ≡ 2 ^ k * (x / 2 ^ k)
bit_and_clear k j x h =
    bit_and_shift k x (2 ^ j - 1)
    ∙ ap (λ t. 2 ^ k * t)
        (bit_and_mask j (x / 2 ^ k)
          ∙ mod-eq_of_lt ((div-lt_iff_lt-mul (two_pow_pos k)).1 (rw mul_comm at h)))

-- Fields that share no bits: the lower one fits below the place of the upper one.
pub bit_or_disjoint : (k a m : ℕ) → a < 2 ^ k → bit_or a (2 ^ k * m) ≡ a + 2 ^ k * m
bit_or_disjoint zero a m h =
    ap (λ t. bit_or t (2 ^ 0 * m)) (omega arith) ∙ zero-bit_or (2 ^ 0 * m) ∙ omega arith
bit_or_disjoint (suc k) a m h =
    bit_or_step a (2 ^ suc k * m)
    ∙ rw (half, bit_or_disjoint k (a / 2) m (omega (arith, pow-suc 2 k))) (omega (arith, double))
  where
    double : 2 ^ suc k * m ≡ 2 * (2 ^ k * m)
    double = pow-suc-mul k m

    half : 2 ^ suc k * m / 2 ≡ 2 ^ k * m
    half = omega (arith, double)

-- The second number in the places from `k` on: the low places keep the first number's bits.
pub bit_or_shift : (k a m : ℕ) → bit_or a (2 ^ k * m) ≡ a % 2 ^ k + 2 ^ k * bit_or (a / 2 ^ k) m
bit_or_shift zero a m =
    ap (λ t. bit_or a t) (one-mul m) ∙ ap (λ t. bit_or t m) (sym (div-one a)) ∙ omega arith
bit_or_shift (suc k) a m =
    bit_or_step a (2 ^ suc k * m)
    ∙ rw (half, bit_or_shift k (a / 2) m, div-div-eq-div-mul a 2 (2 ^ k), ← pow-succ' 2 k)
        (omega (
          arith,
          double m,
          double (bit_or (a / 2 ^ suc k) m),
          ap (λ t. a % t) (pow-succ' 2 k),
          mod_double a (2 ^ k) (two_pow_pos k),
        ))
  where
    double : (t : ℕ) → 2 ^ suc k * t ≡ 2 * (2 ^ k * t)
    double t = pow-suc-mul k t

    half : 2 ^ suc k * m / 2 ≡ 2 ^ k * m
    half = omega (arith, double m)
