-- ===== src/Signal/Tests.antt =====
-- A wait that wakes up twice too early, and the reset of a signal that two hold.
use geobacter.Prelude.{
  get_elem?, ℕ, ◌-◌, ◌≤◌, ◌≡◌, ◌⊎◌, ◌^◌, inl, refl, subst, some, [], ◌∷◌, arith, update, ℕ_discrete,
  true,
}
use geobacter.Prelude.Results.{Result, ok, err, ok-injective}
use geobacter.HsaErrors.{HsaError}
use geobacter.Signal.Deref.{global, as_host_consumable, try_get, deref, deref-given}
use geobacter.Signal.{
  ConditionOrdering, ord_less, less, satisfied, Signals, counted, reset_impl, resettable_get_mut,
  wait_for_zero_relaxed, wait_for_zero_timeout_relaxed, wait_for_condition_relaxed, into_pair,
}
use geobacter.Signal.Waits.{wait_for_zero_relaxed_lem}
use geobacter.Signal.Resets.{IsReset, reset_impl_counted}

abbrev answer : ℕ → ConditionOrdering → ℕ → ℕ
answer v c compare = v

negative_is_less : satisfied (less 1) (2 ^ 64 - 3) ≡ true
unfolding satisfied
negative_is_less = refl

timed_out : wait_for_zero_timeout_relaxed (answer 2) ≡ err 2
unfolding wait_for_zero_timeout_relaxed wait_for_condition_relaxed satisfied into_pair
timed_out = refl

wait_for_zero_relaxed_lem_example :
    ((answer 0 ord_less 1 ≡ 0)
      × (wait_for_zero_relaxed (answer 2 ∷ answer 1 ∷ answer 0 ∷ answer 7 ∷ []) ≡ some (ok tt)))
    ⊎ ((2 ^ 63 ≤ answer 0 ord_less 1)
        × (wait_for_zero_relaxed (answer 2 ∷ answer 1 ∷ answer 0 ∷ answer 7 ∷ [])
            ≡ some (err (answer 0 ord_less 1))))
wait_for_zero_relaxed_lem_example =
    wait_for_zero_relaxed_lem (answer 2 ∷ answer 1 ∷ []) (answer 7 ∷ []) (answer 0) (omega arith)
      (inl zero_seen)
  where
    zero_seen : answer 0 ord_less 1 ≡ 0
    zero_seen = omega arith

abbrev two_hold : Signals
two_hold = record { value = update (λ s. 0) 5 3; strong = update (λ s. 0) 5 2 }

abbrev next_signal : Signals → Result HsaError ℕ
next_signal st = ok 6

replaced_by : (st : Signals) × (reset_impl next_signal counted two_hold 5 1 ≡ (ok 6, st))
unfolding reset_impl resettable_get_mut ℕ_discrete
replaced_by = (_, refl)

reset_impl_counted_example : IsReset two_hold replaced_by.0 5 6 1
unfolding ℕ_discrete
reset_impl_counted_example =
    reset_impl_counted next_signal two_hold replaced_by.0 5 1 6 (λ h made. fresh h made)
      (omega arith) replaced_by.1
  where
    fresh : (h : ℕ) → ◌≡◌ {A = Result HsaError ℕ} (ok 6) (ok h) → two_hold.strong h ≡ 0
    fresh h made = subst (λ t. two_hold.strong t ≡ 0) (ok-injective made) refl

deref-given_example :
    (as_host_consumable global ≡ true)
    × ((i : ℕ) × (w : ConditionOrdering → ℕ → ℕ) × (get_elem? (answer 5 ∷ answer 0 ∷ []) i ≡ some w)
        × (w ord_less 1 ≡ 0))
unfolding deref try_get as_host_consumable wait_for_zero_relaxed wait_for_condition_relaxed
    satisfied into_pair
deref-given_example =
    deref-given global (answer 5 ∷ answer 0 ∷ []) (omega arith, (omega arith, tt)) refl
