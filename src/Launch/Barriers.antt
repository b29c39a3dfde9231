-- ===== src/Launch/Barriers.antt =====
-- The barrier packets for the dependencies of a launch: the loop of `_try_unchecked_call_async` in
-- runtime-amd/src/module/mod.rs and `Deps::barrier_impl` of runtime-amd/src/signal/deps.rs. The
-- dependencies are the signals that `iter_arg_deps` or `iter_deps` goes through.
use geobacter.Prelude.{
  ℕ, ◌+◌, List, [], ◌∷◌, ◌++◌, Option, true, false, none, some, length, if◌then◌else◌, ◌==◌,
}
use geobacter.Prelude.Results.{Result, ok, err}
use geobacter.Errors.{Stop, Error, panic, failed, from_queue_error}
use geobacter.Queue.Abi.{HsaAbi}
use geobacter.Queue.Dispatch.{Slot}
use geobacter.Queue.Ring.{Ring, try_enqueue_barrier_and}

abbrev pub Sent : Type 0
Sent = Result Stop (Unit {0}) × Ring Slot

-- `assert_eq!(deps.len(), 0)`.
abbrev assert_drained : List ℕ → Result Stop (Unit {0})
assert_drained [] = ok tt
assert_drained (d ∷ deps) = err panic

module _ (c : HsaAbi) where
  -- A batch of a launch.
  unfoldable pub send_drained : Ring Slot → List ℕ → Sent
  unfolding from_queue_error
  send_drained q deps = elim (try_enqueue_barrier_and c q deps none) [
    | none ↦ (err panic, q)
    | some (err e, q') ↦ (err (failed (from_queue_error e)), q')
    | some (ok rest, q') ↦ (assert_drained rest, q')
  ]

  -- A batch of `barrier_impl`: what is left of the iterator is dropped.
  unfoldable pub send_completing : ℕ → Ring Slot → List ℕ → Sent
  unfolding from_queue_error
  send_completing completion q deps = elim (try_enqueue_barrier_and c q deps (some completion)) [
    | none ↦ (err panic, q)
    | some (err e, q') ↦ (err (failed (from_queue_error e)), q')
    | some (ok rest, q') ↦ (ok tt, q')
  ]

-- `signals` gathers up to five of the dependencies, and what it holds at the end is the last batch.
unfoldable pub enqueue_deps : (Ring Slot → List ℕ → Sent) → Ring Slot → List ℕ → List ℕ → Sent
enqueue_deps send q signals [] = if length signals == 0 then (ok tt, q) else send q signals
enqueue_deps send q signals (d ∷ deps) = elim (length (signals ++ d ∷ []) == 5) [
  | true ↦
      let (sent, q') = send q (signals ++ d ∷ []) in
      elim sent [ ok _ ↦ enqueue_deps send q' [] deps | err e ↦ (err e, q') ]
  | false ↦ enqueue_deps send q (signals ++ d ∷ []) deps
]

-- The count of `barrier_impl`, from `packets` and `count` on.
unfoldable pub count_packets : ℕ → ℕ → List ℕ → ℕ
count_packets packets count [] = if count == 0 then packets else packets + 1
count_packets packets count (d ∷ deps) =
    if count + 1 == 5
    then count_packets (packets + 1) 0 deps
    else count_packets packets (count + 1) deps

-- `completion.reset(dev, packets)` is a call of the signal: the new value of the signal, or an error.
unfoldable pub barrier_impl :
    HsaAbi → (reset : ℕ → Result Error ℕ) → (signal_ref : ℕ) → Ring Slot → List ℕ → Option ℕ × Sent
unfolding count_packets enqueue_deps send_completing
barrier_impl c reset signal_ref q deps =
    let packets = count_packets 0 0 deps in
    elim (reset packets) [
      | err e ↦ (none, (err (failed e), q))
      | ok value ↦
          if packets == 0
          then (some value, (ok tt, q))
          else (some value, enqueue_deps (send_completing c signal_ref) q [] deps)
    ]
