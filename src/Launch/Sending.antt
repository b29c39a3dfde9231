-- ===== src/Launch/Sending.antt =====
-- The barrier packets that the loops of `Launch.Barriers` leave in the ring.
use geobacter.Prelude.{
  ℕ, zero, suc, ◌+◌, ◌-◌, ◌≤◌, ◌<◌, ◌≡◌, refl, ap, sym, subst, ◌∙◌, List, [], ◌∷◌, ◌++◌, map,
  Option, none, some, length, ◌==◌, true, false, usize_mod, arith, drop, length-append, Bool-cases,
  inl, inr,
}
use geobacter.Prelude.Results.{ok}
use geobacter.Queue.Abi.{HsaAbi, IsHsaAbi}
use geobacter.Queue.Dispatch.{Slot}
use geobacter.Queue.Ring.{Ring, try_enqueue_barrier_and, try_enqueue_packet, fill, write_barrier}
use geobacter.Queue.Ring.Enqueue.{IsRing}
use geobacter.Queue.Ring.Fifo.{contents, enqueue_fifo}
use geobacter.Queue.Ring.Packets.{BarrierWritten, write_barrier_lem}
use geobacter.Launch.Barriers.{Sent, send_drained, send_completing, enqueue_deps}
use mathlib.Core.List.{append_assoc, append-nil}
use geobacter.Launch.Batches.{batches-full, batches-few, batches}

-- A queue with its write index `n` further and the packets `ps` behind the old ones.
pub record Extended (q q' : Ring Slot) (ps : List Slot) : Type 0 where
  pub contents_eq : contents q' ≡ contents q ++ map some ps
  pub write_eq : q'.write_index ≡ q.write_index + length ps
  pub read_eq : q'.read_index ≡ q.read_index
  pub size_eq : q'.size ≡ q.size
  pub valid : IsRing q'

-- Room for `n` packets.
pub record Room (q : Ring Slot) (n : ℕ) : Type 0 where
  pub slots : q.write_index - q.read_index + n ≤ q.size
  pub indices : q.write_index + n + 1 < usize_mod

-- One barrier packet for each batch, in order.
abbrev pub BatchesWritten : Option ℕ → List (List ℕ) → List Slot → Type 0
BatchesWritten completion [] [] = Unit
BatchesWritten completion (b ∷ bs) [] = 0 < 0
BatchesWritten completion [] (p ∷ ps) = 0 < 0
BatchesWritten completion (b ∷ bs) (p ∷ ps) =
    ((old : Slot) × BarrierWritten 3 b completion old p) × BatchesWritten completion bs ps

try_enqueue_packet_moves :
    {S : Type 0} (q : Ring Slot) (f : Slot → Slot × S) {s : S} {q' : Ring Slot}
    → IsRing q
    → q.write_index + 2 < usize_mod
    → try_enqueue_packet q f ≡ some (ok s, q')
    → (q'.write_index ≡ q.write_index + 1) × (q'.read_index ≡ q.read_index) × (q'.size ≡ q.size)
unfolding try_enqueue_packet fill
try_enqueue_packet_moves q f v top e = ground arith

drop_all : (n : ℕ) (xs : List ℕ) → length xs ≤ n → drop n xs ≡ []
drop_all zero [] h = refl
drop_all zero (x ∷ xs) h = absurd (omega arith)
drop_all (suc n) [] h = refl
drop_all (suc n) (x ∷ xs) h = drop_all n xs (omega arith)

-- What a batch of at most five signals does to a queue with room for its packet.
abbrev pub Sends : (Ring Slot → List ℕ → Sent) → Option ℕ → Type 0
Sends send completion =
    (q : Ring Slot) (b : List ℕ)
    → IsRing q
    → Room q 1
    → length b ≤ 5
    → (p : Slot) × (q' : Ring Slot) × (send q b ≡ (ok tt, q'))
      × Extended q q' (p ∷ [])
      × ((old : Slot) × BarrierWritten 3 b completion old p)

module _ (c : HsaAbi) (h : IsHsaAbi c) where
  barrier_sent :
      (q : Ring Slot) (b : List ℕ) (completion : Option ℕ)
      → IsRing q
      → Room q 1
      → length b ≤ 5
      → (p : Slot) × (q' : Ring Slot) × (try_enqueue_barrier_and c q b completion
          ≡ some (ok [], q'))
        × Extended q q' (p ∷ [])
        × ((old : Slot) × BarrierWritten 3 b completion old p)
  unfolding try_enqueue_barrier_and
  barrier_sent q b completion v room small =
      let f = write_barrier c c.packet_type_barrier_and b completion in
      let (old, q', found, done, joined, bell, valid) =
        enqueue_fifo q f v (omega (arith, room)) (omega (arith, room)) in
      let (written, rest) =
        write_barrier_lem c c.packet_type_barrier_and b completion old h
          (omega (arith, h.barrier_and_eq)) in
      let moved = try_enqueue_packet_moves q f v (omega (arith, room)) done in
      (
        (f old).0,
        q',
        done ∙ ap (λ t. some (ok t, q')) (rest ∙ drop_all 5 b small),
        record {
          contents_eq = joined;
          write_eq = moved.0;
          read_eq = moved.1;
          size_eq = moved.2;
          valid = valid;
        },
        (old, subst (λ t. BarrierWritten t b completion old (f old).0) h.barrier_and_eq written),
      )

  pub send_drained-Sends : Sends (send_drained c) none
  unfolding send_drained
  send_drained-Sends q b v room small =
      let (p, q', done, extended, written) = barrier_sent q b none v room small in
      (p, q', rw (done, send_drained), extended, written)

  pub send_completing-Sends : (s : ℕ) → Sends (send_completing c s) (some s)
  unfolding send_completing
  send_completing-Sends s q b v room small =
      let (p, q', done, extended, written) = barrier_sent q b (some s) v room small in
      (p, q', rw (done, send_completing), extended, written)

suc_not_zero : (n : ℕ) → suc n == 0 ≡ false
suc_not_zero n = ground arith

pub Extended-refl : (q : Ring Slot) → IsRing q → Extended q q []
Extended-refl q v = record {
  contents_eq = sym (append-nil (contents q));
  write_eq = omega arith;
  read_eq = refl;
  size_eq = refl;
  valid = v;
}

Extended-cons :
    (q q₁ q₂ : Ring Slot) (p : Slot) (ps : List Slot)
    → Extended q q₁ (p ∷ [])
    → Extended q₁ q₂ ps
    → Extended q q₂ (p ∷ ps)
Extended-cons q q₁ q₂ p ps e f = record {
  contents_eq =
      f.contents_eq
      ∙ ap (λ t. t ++ map some ps) e.contents_eq
      ∙ append_assoc (contents q) (some p ∷ []) (map some ps);
  write_eq = omega (arith, f.write_eq, e.write_eq);
  read_eq = f.read_eq ∙ e.read_eq;
  size_eq = f.size_eq ∙ e.size_eq;
  valid = f.valid;
}

module _ (send : Ring Slot → List ℕ → Sent) (completion : Option ℕ)
    (sends : Sends send completion) where
  enqueue_deps-full :
      (q q' : Ring Slot) (signals deps : List ℕ) (d : ℕ)
      → length (signals ++ d ∷ []) == 5 ≡ true
      → send q (signals ++ d ∷ []) ≡ (ok tt, q')
      → enqueue_deps send q signals (d ∷ deps) ≡ enqueue_deps send q' [] deps
  unfolding enqueue_deps
  enqueue_deps-full q q' signals deps d five done =
      rw (five, done, enqueue_deps) (ap (λ t. enqueue_deps send t.1 [] deps) done)

  enqueue_deps-few :
      (q : Ring Slot) (signals deps : List ℕ) (d : ℕ)
      → length (signals ++ d ∷ []) == 5 ≡ false
      → enqueue_deps send q signals (d ∷ deps) ≡ enqueue_deps send q (signals ++ d ∷ []) deps
  unfolding enqueue_deps
  enqueue_deps-few q signals deps d few = rw (few, enqueue_deps)

  pub enqueue_deps_lem :
      (q : Ring Slot) (signals deps : List ℕ)
      → IsRing q
      → length signals < 5
      → Room q (length (batches signals deps))
      → (ps : List Slot) × (q' : Ring Slot) × (enqueue_deps send q signals deps ≡ (ok tt, q'))
        × Extended q q' ps
        × BatchesWritten completion (batches signals deps) ps
  unfolding enqueue_deps batches
  enqueue_deps_lem q [] [] v h room = ([], q, refl, Extended-refl q v, tt)
  enqueue_deps_lem q (s ∷ signals) [] v h room =
      let (p, q', done, extended, written) =
        sends q (s ∷ signals) v (omega (arith, room)) (omega arith) in
      (p ∷ [], q', rw (suc_not_zero (length signals), enqueue_deps) done, extended, (written, tt))
  enqueue_deps_lem q signals (d ∷ deps) v h room =
      let n = length-append signals (d ∷ []) in
      elim (Bool-cases (length (signals ++ d ∷ []) == 5)) [
        | inl five ↦
            let split = batches-full signals d deps five in
            let room' = subst (λ t. Room q (length t)) split room in
            let (p, q₁, done, one, written) =
              sends q (signals ++ d ∷ []) v (omega (arith, room')) (ground arith) in
            let (ps, q₂, rest, more, others) =
              enqueue_deps_lem q₁ [] deps one.valid (omega arith)
                (omega (arith, room', one.write_eq, one.read_eq, one.size_eq)) in
            (
              p ∷ ps,
              q₂,
              enqueue_deps-full q q₁ signals deps d five done ∙ rest,
              Extended-cons q q₁ q₂ p ps one more,
              subst (λ t. BatchesWritten completion t (p ∷ ps)) (sym split) (written, others),
            )
        | inr few ↦
            let split = batches-few signals d deps few in
            let (ps, q', rest, more, others) =
              enqueue_deps_lem q (signals ++ d ∷ []) deps v (ground arith)
                (subst (λ t. Room q (length t)) split room) in
            (
              ps,
              q',
              enqueue_deps-few q signals deps d few ∙ rest,
              more,
              subst (λ t. BatchesWritten completion t ps) (sym split) others,
            )
      ]
