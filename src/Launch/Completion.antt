-- ===== src/Launch/Completion.antt =====
-- `Deps::barrier_impl` of runtime-amd/src/signal/deps.rs: the value that the completion signal is
-- reset to, and the packets that count it down.
use geobacter.Prelude.{
  ℕ, suc, ◌+◌, ◌*◌, ◌≤◌, ◌<◌, ◌≡◌, refl, ap, ◌∙◌, List, [], ◌∷◌, Option, some, length, ◌==◌, arith,
  Bool-cases, inl, inr,
}
use geobacter.Prelude.Results.{Result, ok}
use geobacter.Errors.{Error}
use geobacter.Queue.Abi.{HsaAbi, IsHsaAbi}
use geobacter.Queue.Dispatch.{Slot}
use geobacter.Queue.Ring.{Ring}
use geobacter.Queue.Ring.Enqueue.{IsRing}
use geobacter.Launch.Barriers.{barrier_impl, count_packets, send_completing}
use geobacter.Launch.Batches.{batches, batches-concat, count_packets-batches}
use geobacter.Launch.Sending.{
  Extended, Room, BatchesWritten, enqueue_deps_lem, send_completing-Sends, Extended-refl,
}

pub length-BatchesWritten :
    (completion : Option ℕ) (bs : List (List ℕ)) (ps : List Slot)
    → BatchesWritten completion bs ps
    → length ps ≡ length bs
length-BatchesWritten completion [] [] w = refl
length-BatchesWritten completion (b ∷ bs) [] w = absurd (omega arith)
length-BatchesWritten completion [] (p ∷ ps) w = absurd (omega arith)
length-BatchesWritten completion (b ∷ bs) (p ∷ ps) w =
    ap suc (length-BatchesWritten completion bs ps w.1)

no_batches :
    (completion : Option ℕ) (bs : List (List ℕ)) → length bs ≡ 0 → BatchesWritten completion bs []
no_batches completion [] h = tt
no_batches completion (b ∷ bs) h = absurd (omega arith)

count : (deps : List ℕ) → count_packets 0 0 deps ≡ length (batches [] deps)
count deps = count_packets-batches 0 [] deps (omega arith) ∙ omega arith

-- With room for one packet for every five dependencies, `barrier_impl` resets the completion signal
-- to the number of the packets, and puts that many into the queue: each waits for the next five
-- dependencies and signals the completion, so that the last one brings it to 0. The reset is
-- supposed to succeed.
pub barrier_impl_lem :
    (c : HsaAbi) (reset : ℕ → Result Error ℕ) (signal : ℕ) (q : Ring Slot) (deps : List ℕ)
    {value : ℕ}
    → IsHsaAbi c
    → IsRing q
    → Room q (length (batches [] deps))
    → reset (length (batches [] deps)) ≡ ok value
    → (ps : List Slot) × (q' : Ring Slot) × (barrier_impl c reset signal q deps
        ≡ (some value, (ok tt, q')))
      × Extended q q' ps
      × BatchesWritten (some signal) (batches [] deps) ps
      × (reset (length ps) ≡ ok value)
      × (length deps ≤ 5 * length ps)
      × (5 * length ps < length deps + 5)
unfolding barrier_impl
barrier_impl_lem c reset signal q deps {value} h v room done =
    let (joined, lo, hi) = batches-concat [] deps (omega arith) in
    elim (Bool-cases (length (batches [] deps) == 0)) [
      | inl none_left ↦
          let empty : length (batches [] deps) ≡ 0 = ground arith in
          (
            [],
            q,
            rw (count deps, done, count deps, none_left, barrier_impl) refl,
            Extended-refl q v,
            no_batches (some signal) (batches [] deps) empty,
            rw (← empty) done,
            omega arith,
            omega arith,
          )
      | inr some_left ↦
          let (ps, q', sent, extended, written) =
            enqueue_deps_lem (send_completing c signal) (some signal)
              (send_completing-Sends c h signal) q [] deps v (omega arith) room in
          let as_many = length-BatchesWritten (some signal) (batches [] deps) ps written in
          (
            ps,
            q',
            rw (count deps, done, count deps, some_left, barrier_impl)
                (ap (λ t. (some value, t)) sent),
            extended,
            written,
            rw as_many done,
            omega (arith, lo, as_many),
            omega (arith, hi, as_many),
          )
    ]
