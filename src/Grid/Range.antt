-- ===== src/Grid/Range.antt =====
-- One axis of a grid: the ranges of `std::ops` that `RequireUpperBounds` admits, their bounds, and the
-- match arms that the macro `grid_impl!` of runtime-amd/src/module/grid.rs writes for every field.
-- The index type is an unsigned word below `m`.
use geobacter.Prelude.{
  ℕ, suc, ◌+◌, ◌-◌, ◌≤◌, ◌<◌, ◌≡◌, refl, ap, ◌∙◌, ◌%◌, checked_add, checked_sub, wrapping_add,
  wrapping_sub, saturating_add, arith, min,
}
use native.Mathlib.Nat.{add-mod_right, mod-eq_of_lt}
use geobacter.Prelude.Results.{Result, ok, err, ok_or, ◌>>=◌}
use geobacter.Errors.{Stop, panic, failed, underflow, overflow}

-- `l..r`, `l..=r`, `..r` and `..=r`. The flag of a `RangeInclusive` that an iteration has used up
-- is left out: no grid is iterated.
pub data Range : Type 0 where
  range : ℕ → ℕ → Range
  range_inclusive : ℕ → ℕ → Range
  range_to : ℕ → Range
  range_to_inclusive : ℕ → Range

pub data Bound : Type 0 where
  included : ℕ → Bound
  excluded : ℕ → Bound
  unbounded : Bound

abbrev pub start_bound : Range → Bound
start_bound (range l r) = included l
start_bound (range_inclusive l r) = included l
start_bound (range_to r) = unbounded
start_bound (range_to_inclusive r) = unbounded

abbrev pub end_bound : Range → Bound
end_bound (range l r) = excluded r
end_bound (range_inclusive l r) = included r
end_bound (range_to r) = excluded r
end_bound (range_to_inclusive r) = included r

start_of : Bound → Result Stop ℕ
start_of (included v) = ok v
start_of (excluded v) = err panic
start_of unbounded = ok 0

unfoldable pub axis_start : Range → Result Stop ℕ
unfolding start_of
axis_start r = start_of (start_bound r)

module _ (m : ℕ) where
  end_of : Bound → Result Stop ℕ
  end_of (included v) = ok (saturating_add m v 1)
  end_of (excluded v) = ok v
  end_of unbounded = err panic

  unfoldable pub axis_end : Range → Result Stop ℕ
  unfolding end_of
  axis_end r = end_of (end_bound r)

  len_of : Bound → Bound → Result Stop ℕ
  len_of (included l) (included r) = ok (wrapping_add m (wrapping_sub m r l) 1)
  len_of (included l) (excluded r) = ok (wrapping_sub m r l)
  len_of unbounded (included r) = ok (wrapping_add m r 1)
  len_of unbounded (excluded r) = ok r
  len_of (excluded l) b = err panic
  len_of (included l) unbounded = err panic
  len_of unbounded unbounded = err panic

  unfoldable pub axis_len : Range → Result Stop ℕ
  unfolding len_of
  axis_len r = len_of (start_bound r) (end_bound r)

  checked_len_of : Bound → Bound → Result Stop ℕ
  checked_len_of (included l) (included r) = do
    let d = (← ok_or (checked_sub r l) (failed underflow))
    ok_or (checked_add m d 1) (failed overflow)
  checked_len_of (included l) (excluded r) = ok_or (checked_sub r l) (failed underflow)
  checked_len_of unbounded (included r) = ok_or (checked_add m r 1) (failed overflow)
  checked_len_of unbounded (excluded r) = ok r
  checked_len_of (excluded l) b = err panic
  checked_len_of (included l) unbounded = err panic
  checked_len_of unbounded unbounded = err panic

  unfoldable pub axis_checked_len : Range → Result Stop ℕ
  unfolding checked_len_of
  axis_checked_len r = checked_len_of (start_bound r) (end_bound r)

-- The least index of a range, and the first index past it, without a word's limits.
unfoldable pub lower : Range → ℕ
lower (range l r) = l
lower (range_inclusive l r) = l
lower (range_to r) = 0
lower (range_to_inclusive r) = 0

unfoldable pub upper : Range → ℕ
upper (range l r) = r
upper (range_inclusive l r) = suc r
upper (range_to r) = r
upper (range_to_inclusive r) = suc r

-- The ends are words.
unfoldable pub InWord : ℕ → Range → Type 0
InWord m (range l r) = (l < m) × (r < m)
InWord m (range_inclusive l r) = (l < m) × (r < m)
InWord m (range_to r) = r < m
InWord m (range_to_inclusive r) = r < m

pub axis_start_lem : (r : Range) → axis_start r ≡ ok (lower r)
unfolding axis_start start_of lower
axis_start_lem (range l r) = refl
axis_start_lem (range_inclusive l r) = refl
axis_start_lem (range_to r) = refl
axis_start_lem (range_to_inclusive r) = refl

pub axis_len-range_to : (m n : ℕ) → axis_len m (range_to n) ≡ ok n
unfolding axis_len len_of
axis_len-range_to m n = refl

-- The end saturates: an inclusive range up to the last word loses that index.
pub axis_end_lem : (m : ℕ) (r : Range) → InWord m r → axis_end m r ≡ ok (min (upper r) (m - 1))
unfolding axis_end end_of upper InWord
axis_end_lem m (range l r) w = ground arith
axis_end_lem m (range_inclusive l r) w = ground arith
axis_end_lem m (range_to r) w = ground arith
axis_end_lem m (range_to_inclusive r) w = ground arith

-- The start is not past the last index, or the one after it for a half-open range.
unfoldable pub Ordered : Range → Type 0
Ordered (range l r) = l ≤ r
Ordered (range_inclusive l r) = l ≤ r
Ordered (range_to r) = Unit
Ordered (range_to_inclusive r) = Unit

-- The checked length on every branch: the number of indices, an overflow where a word cannot hold
-- that number, and an underflow where the start is past the end.
pub axis_checked_len_lem :
    (m : ℕ) (r : Range)
    → InWord m r
    → (Ordered r → upper r - lower r < m → axis_checked_len m r ≡ ok (upper r - lower r))
      × (Ordered r → m ≤ upper r - lower r → axis_checked_len m r ≡ err (failed overflow))
      × (¬ Ordered r → axis_checked_len m r ≡ err (failed underflow))
unfolding axis_checked_len checked_len_of upper lower InWord Ordered
axis_checked_len_lem m (range l r) w = ground arith
axis_checked_len_lem m (range_inclusive l r) w = ground arith
axis_checked_len_lem m (range_to r) w = ground arith
axis_checked_len_lem m (range_to_inclusive r) w = ground arith

-- A difference that does not go below 0 does not wrap.
wrapping_sub_lem : (m l r : ℕ) → l ≤ r → r < m → wrapping_sub m r l ≡ r - l
wrapping_sub_lem m l r h k =
    ap (λ t. t % m) whole ∙ add-mod_right (r - l) m ∙ mod-eq_of_lt (omega arith)
  where
    whole : r + m - l ≡ r - l + m
    whole = omega arith

pub wrapping_add_lem : (m a b : ℕ) → a + b < m → wrapping_add m a b ≡ a + b
wrapping_add_lem m a b h = mod-eq_of_lt h

-- A checked length that is returned counts the indices, fits a word, and is the unchecked length.
pub axis_checked_len-ok :
    (m : ℕ) (r : Range) {n : ℕ}
    → InWord m r
    → axis_checked_len m r ≡ ok n
    → (lower r + n ≡ upper r) × (n < m) × (axis_len m r ≡ ok n)
unfolding axis_checked_len checked_len_of axis_len len_of upper lower InWord
axis_checked_len-ok m (range l r) w h = ground (arith, wrapping_sub_lem m l r)
axis_checked_len-ok m (range_inclusive l r) w h =
    ground (arith, wrapping_sub_lem m l r, wrapping_add_lem m (wrapping_sub m r l) 1)
axis_checked_len-ok m (range_to r) w h = ground arith
axis_checked_len-ok m (range_to_inclusive r) w h = ground (arith, wrapping_add_lem m r 1)
