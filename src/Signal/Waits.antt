-- ===== src/Signal/Waits.antt =====
-- When the waits of the host return, and with what.
use geobacter.Prelude.{
  ℕ, ◌^◌, ◌<◌, ◌≤◌, ◌≡◌, ◌⊎◌, inl, inr, some, List, [], ◌∷◌, ◌++◌, All, arith, usize_mod,
}
use geobacter.Prelude.Results.{ok, err}
use geobacter.Signal.{
  ConditionOrdering, ord_less, less, into_pair, satisfied, wait_for_condition_relaxed,
  wait_for_zero_relaxed,
}

-- A wait that woke up too early: the value is above zero.
pub record Early (w : ConditionOrdering → ℕ → ℕ) : Type 0 where
  pub above : 1 ≤ w ord_less 1
  pub positive : w ord_less 1 < 2 ^ 63

-- One that ends the wait: zero, or a negative value.
abbrev pub Last : (ConditionOrdering → ℕ → ℕ) → Type 0
Last w = (w ord_less 1 ≡ 0) ⊎ ((2 ^ 63 ≤ w ord_less 1) × (w ord_less 1 < usize_mod))

Early-loops :
    (w : ConditionOrdering → ℕ → ℕ)
    → Early w
    → wait_for_condition_relaxed w (less 1) ≡ err (w ord_less 1)
unfolding wait_for_condition_relaxed satisfied into_pair
Early-loops w e = ground arith

ends :
    (w : ConditionOrdering → ℕ → ℕ)
    → Last w
    → wait_for_condition_relaxed w (less 1) ≡ ok (w ord_less 1)
unfolding wait_for_condition_relaxed satisfied into_pair
ends w (inl z) = ground arith
ends w (inr n) = ground arith

-- Whatever the waits return before: the loop ends with the first value that is not above zero, with
-- `Ok` for zero, and with the value as an error for one below it.
pub wait_for_zero_relaxed_lem :
    (early later : List (ConditionOrdering → ℕ → ℕ)) (w : ConditionOrdering → ℕ → ℕ)
    → All Early early
    → Last w
    → ((w ord_less 1 ≡ 0) × (wait_for_zero_relaxed (early ++ w ∷ later) ≡ some (ok tt)))
      ⊎ ((2 ^ 63 ≤ w ord_less 1)
          × (wait_for_zero_relaxed (early ++ w ∷ later) ≡ some (err (w ord_less 1))))
unfolding wait_for_zero_relaxed
wait_for_zero_relaxed_lem [] later w h (inl z) =
    inl (z, rw (wait_for_zero_relaxed, ends w (inl z)) (ground arith))
wait_for_zero_relaxed_lem [] later w h (inr n) =
    inr (n.0, rw (wait_for_zero_relaxed, ends w (inr n)) (ground arith))
wait_for_zero_relaxed_lem (x ∷ early) later w h v =
    rw (wait_for_zero_relaxed, Early-loops x h.0) (wait_for_zero_relaxed_lem early later w h.1 v)
