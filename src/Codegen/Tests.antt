-- ===== src/Codegen/Tests.antt =====
-- Runs of the driver and of the codegen thread.
use geobacter.Prelude.{
  ℕ, zero, suc, ◌≡◌, ◌≢◌, refl, Bool, true, false, List, [], ◌∷◌, some, none, ℕ_discrete, subst,
  sym, ◌*◌, inl, inr,
}
use geobacter.Prelude.Results.{ok}
use geobacter.Codegen.Driver.{
  MaybeInProgress, Pc, System, look, claim, store, read, begin_wait, wake, write, compiled, unwind,
  finish, Reach, initial, step, init, compiling, unwound, in_progress, done, cloned,
}
use geobacter.Codegen.Invariant.{put-cases}
use geobacter.Codegen.Once.{one_at_a_time, compiled_once}
use geobacter.Codegen.Waiting.{
  AtRest, over, not_called, AtRest-stuck, idle_stays, pending, no_deadlock, panic_blocks,
}
use geobacter.Codegen.Worker.{
  add_accel, codegen, Received, message, timeout, panicked, thread, run, receive, on_message,
  on_timeout,
}

-- Two threads that call for kernel 5; the errors are numbers, and so are the results.
abbrev Run : Type 0
Run = System ℕ ℕ ℕ

abbrev two : ℕ → Bool
two zero = true
two (suc zero) = true
two (suc (suc i)) = false

abbrev both_called : Run
both_called = init (λ i. 5) two

-- Both find no entry, thread 0 is the first to write, and thread 1 waits for it.
abbrev one_waits : (s : Run) × Reach ℕ_discrete both_called s
unfolding look claim ℕ_discrete
one_waits = (
  _,
  step {i = 1}
      (step {i = 1}
        (step {i = 1}
          (step {i = 0} (step {i = 1} (step {i = 0} initial (read refl)) (read refl)) (write refl))
          (write refl))
        (read refl))
      (begin_wait 0 refl),
)

-- Thread 0 has stored its result.
abbrev zero_done : (s : Run) × Reach ℕ_discrete both_called s
unfolding look claim store ℕ_discrete
zero_done = (_, step {i = 0} (step {i = 0} one_waits.1 (compiled (ok 7) refl)) (finish (ok 7) refl))

uncached : (k : ℕ) → zero_done.0.cache k ≢ some (in_progress 0)
unfolding look claim store ℕ_discrete
uncached k h = elim (put-cases ℕ_discrete one_waits.0.cache 5 (some (done 7)) k) [
  | inl (same, now) ↦ cc (now, h)
  | inr (other, now) ↦
      elim (put-cases {A = MaybeInProgress ℕ} ℕ_discrete (λ _. none) 5 (some (in_progress 0)) k) [
        | inl (same, now') ↦ other same
        | inr (other', now') ↦ cc (now, now', h)
      ]
]

uncloned : (i : ℕ) → zero_done.0.pc i ≢ cloned 0
unfolding look claim store ℕ_discrete
uncloned zero h = cc h
uncloned (suc zero) h = cc h
uncloned (suc (suc i)) h = absurd (cc (idle_stays ℕ_discrete (suc (suc i)) refl zero_done.1, h))

-- Thread 1 wakes and finds the result.
abbrev both_done : (t : Run) × Reach ℕ_discrete zero_done.0 t
unfolding look claim store ℕ_discrete
both_done = (
  _,
  step {i = 1}
      (step {i = 1} initial (wake 0 refl (record { not_cached = uncached; not_cloned = uncloned })))
      (read refl),
)

AtRest-sound : (pc : Pc ℕ ℕ) → AtRest pc → pc ≢ unwound
AtRest-sound pc not_called h = cc h
AtRest-sound pc (over r) h = cc h

-- The two paths, one after the other.
abbrev all_done : Reach ℕ_discrete both_called both_done.0
unfolding look claim store ℕ_discrete
all_done =
    step {i = 1}
      (step {i = 1} zero_done.1
        (wake 0 refl (record { not_cached = uncached; not_cloned = uncloned })))
      (read refl)

both_done-AtRest : (i : ℕ) → AtRest (both_done.0.pc i)
unfolding look claim store ℕ_discrete
both_done-AtRest zero = over (ok 7)
both_done-AtRest (suc zero) = over (ok 7)
both_done-AtRest (suc (suc i)) =
    subst AtRest (sym (idle_stays ℕ_discrete (suc (suc i)) refl all_done)) not_called

no_deadlock_example : AtRest (both_done.0.pc 1)
unfolding look claim store ℕ_discrete
no_deadlock_example =
    no_deadlock ℕ_discrete (λ i. 5) two 1 all_done (λ i. AtRest-sound _ (both_done-AtRest i))
      (λ i t st. AtRest-stuck ℕ_discrete i (both_done-AtRest i) st)

-- The compiler panics for thread 0.
abbrev zero_panics : (s : Run) × Reach ℕ_discrete both_called s
unfolding look claim store ℕ_discrete
zero_panics = (_, step {i = 0} one_waits.1 (unwind refl))

one_at_a_time_example : ◌≡◌ {A = ℕ} 0 0
unfolding look claim store ℕ_discrete
one_at_a_time_example = one_at_a_time ℕ_discrete (λ i. 5) two 0 0 one_waits.1 refl refl refl

compiled_once_example :
    (both_done.0.cache (both_done.0.desc 1) ≡ some (done 7)) × (both_done.0.pc 1 ≢ compiling)
unfolding look claim store ℕ_discrete
compiled_once_example = compiled_once ℕ_discrete (λ i. 5) two 0 1 zero_done.1 refl both_done.1 refl

panic_blocks_example : pending (zero_panics.0.pc 1) ≡ true
unfolding look claim store ℕ_discrete
panic_blocks_example = panic_blocks ℕ_discrete (λ i. 5) two 0 1 zero_panics.1 refl refl refl initial

-- A device that stays, a timeout, and two requests.
abbrev events : List (Received ℕ ℕ)
events = message (codegen 3) ∷ timeout (λ a. true) ∷ message (codegen 4) ∷ []

-- A request before the first device, after a timeout.
panics_test : (thread (λ k. k * 2) (timeout (λ (a : ℕ). false) ∷ events)).status ≡ panicked
unfolding thread run receive on_message on_timeout
panics_test = refl

serves_test : (thread (λ k. k * 2) (message (add_accel 1) ∷ events)).answers ≡ 6 ∷ 8 ∷ []
unfolding thread run receive on_message on_timeout
serves_test = refl
