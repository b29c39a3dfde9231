-- ===== src/Signal.antt =====
-- runtime-amd/src/signal/mod.rs: what the host waits for, and how a signal is set up again. The value
-- of a signal is an `i64`, here as its bit pattern.
pub mod Waits
pub mod Resets
pub mod Deref
mod Tests
use geobacter.Prelude.{
  ℕ, ◌+◌, ◌-◌, ◌^◌, Bool, true, false, not, ◌==◌, ltb, if◌then◌else◌, Option, none, some, List, [],
  ◌∷◌, update, usize_mod, wrapping_add,
}
use geobacter.Prelude.Results.{Result, ok, err}
use geobacter.HsaErrors.{HsaError}

-- `<` of two `i64`.
abbrev pub lt_i64 : ℕ → ℕ → Bool
lt_i64 a b = ltb (wrapping_add usize_mod a (2 ^ 63)) (wrapping_add usize_mod b (2 ^ 63))

pub data ConditionOrdering : Type 0 where
  ord_equal ord_not_equal ord_less ord_greater_equal : ConditionOrdering

pub data WakeCondition : Type 0 where
  equal not_equal less greater_equal : ℕ → WakeCondition

unfoldable pub into_pair : WakeCondition → ConditionOrdering × ℕ
into_pair (equal v) = (ord_equal, v)
into_pair (not_equal v) = (ord_not_equal, v)
into_pair (less v) = (ord_less, v)
into_pair (greater_equal v) = (ord_greater_equal, v)

unfoldable pub satisfied : WakeCondition → ℕ → Bool
satisfied (equal expected) v = v == expected
satisfied (not_equal expected) v = not (v == expected)
satisfied (less expected) v = lt_i64 v expected
satisfied (greater_equal expected) v = not (lt_i64 v expected)

-- `wait_relaxed` is a call of the HSA runtime, which returns some value of the signal: it may wake up
-- early, or at the end of the timeout.
unfoldable pub wait_for_condition_relaxed :
    (wait_relaxed : ConditionOrdering → ℕ → ℕ) → WakeCondition → Result ℕ ℕ
unfolding into_pair satisfied
wait_for_condition_relaxed wait_relaxed cond =
    let (condition, compare) = into_pair cond in
    let val = wait_relaxed condition compare in if satisfied cond val then ok val else err val

-- The end of the functions that wait for zero: an error where the value is below it.
abbrev pub zero_or_less : ℕ → Result ℕ (Unit {0})
zero_or_less got = if lt_i64 got 0 then err got else ok tt

-- The loop over the waits that the HSA runtime returns from; `none` is a loop that waits still.
unfoldable pub wait_for_zero_relaxed :
    List (ConditionOrdering → ℕ → ℕ) → Option (Result ℕ (Unit {0}))
unfolding wait_for_condition_relaxed
wait_for_zero_relaxed [] = none
wait_for_zero_relaxed (w ∷ waits) = elim (wait_for_condition_relaxed w (less 1)) [
  | ok got ↦ some (zero_or_less got)
  | err _ ↦ wait_for_zero_relaxed waits
]

unfoldable pub wait_for_zero_timeout_relaxed : (ConditionOrdering → ℕ → ℕ) → Result ℕ (Unit {0})
unfolding wait_for_condition_relaxed
wait_for_zero_timeout_relaxed w = elim (wait_for_condition_relaxed w (less 1)) [
  | ok got ↦ zero_or_less got
  | err got ↦ err got
]

-- The signals by their handles: their values, and how many counted references each has.
pub record Signals : Type 0 where
  pub value : ℕ → ℕ
  pub strong : ℕ → ℕ

-- `silent_store_relaxed` and `store_relaxed`.
abbrev pub store_value : Signals → ℕ → ℕ → Signals
store_value st signal v = record st { value = update st.value signal v }

-- A signal is held by its own type, or behind `Rc` or `Arc`.
pub data Held : Type 0 where
  owned counted : Held

-- `resettable_get_mut` with the store of `reset_impl`.
unfoldable pub resettable_get_mut : Held → Signals → ℕ → ℕ → Bool × Signals
resettable_get_mut owned st this initial = (true, store_value st this initial)
resettable_get_mut counted st this initial =
    if st.strong this == 1 then (true, store_value st this initial) else (false, st)

-- `*this = T::new(device, initial)?`: `create` is what `hsa_signal_create` returns. The old reference
-- is dropped.
abbrev pub replace : Result HsaError ℕ → Signals → ℕ → ℕ → Result HsaError ℕ × Signals
replace (err e) st this initial = (err e, st)
replace (ok h) st this initial = (
  ok h,
  record {
    value = update st.value h initial;
    strong = update (update st.strong h 1) this (st.strong this - 1);
  },
)

-- `reset_impl`: the signal that `this` holds then.
unfoldable pub reset_impl :
    (create : Signals → Result HsaError ℕ) → Held → Signals → ℕ → ℕ → Result HsaError ℕ × Signals
unfolding resettable_get_mut
reset_impl create held st this initial =
    let (r, st') = resettable_get_mut held st this initial in
    if r then (ok this, st') else replace (create st') st' this initial
