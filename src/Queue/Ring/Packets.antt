-- ===== src/Queue/Ring/Packets.antt =====
-- The packets that the three `try_enqueue_` functions write.
use geobacter.Prelude.{
  ℕ, zero, suc, ◌+◌, ◌-◌, ◌*◌, ◌/◌, ◌%◌, ◌^◌, ◌≤◌, ◌<◌, ◌≡◌, refl, ap, subst, ◌∙◌, Option, none,
  some, List, [], ◌∷◌, ◌++◌, arith, usize_mod, u16_mod, take, drop, replicate,
}
use geobacter.Prelude.Results.{ok, err}
use geobacter.Errors.{QueueError}
use geobacter.Queue.Abi.{FenceScope, HsaAbi, IsHsaAbi}
use geobacter.Queue.Header.{store_word_fields, header_fields, scope_code, flag}
use geobacter.Queue.Dispatch.{
  barrier, kernel_dispatch, Slot, DispatchPacket, check, dimensions, dimensions_lem, unwrap_or_null,
}
use geobacter.Queue.Ring.{
  Ring, packet_store_rel, take_deps, store_completion, is_none, write_barrier, write_dispatch,
  try_enqueue_barrier_and, try_enqueue_kernel_dispatch,
}
use geobacter.Queue.Ring.Enqueue.{IsRing}
use geobacter.Queue.Ring.Fifo.{slot, contents, enqueue_fifo}

-- A barrier takes the next `n` signals in order and fills up with the null signal; the rest of the
-- iterator is what comes after them.
pub take_deps_lem :
    (n m : ℕ) (deps : List ℕ)
    → n ≤ m
    → ((take_deps n deps).0 ≡ take n (deps ++ replicate m 0)) × ((take_deps n deps).1 ≡ drop n deps)
unfolding take_deps
take_deps_lem zero m deps h = (refl, refl)
take_deps_lem (suc n) zero deps h = absurd (omega arith)
take_deps_lem (suc n) (suc m) [] h = (ap (λ t. 0 ∷ t) (take_deps_lem n m [] (omega arith)).0, refl)
take_deps_lem (suc n) (suc m) (d ∷ deps) h =
    let (taken, rest) = take_deps_lem n (suc m) deps (omega arith) in (ap (λ t. d ∷ t) taken, rest)

-- The stored header and setup are read back.
packet_store_rel_fields :
    (p : Slot) (h rest : ℕ)
    → h < u16_mod
    → rest < u16_mod
    → ((packet_store_rel p h rest).header ≡ h) × ((packet_store_rel p h rest).setup ≡ rest)
unfolding packet_store_rel
packet_store_rel_fields p h rest lo hi = store_word_fields h rest lo hi

-- What a finished barrier packet says: its type, no fences, no barrier bit with a completion signal
-- and the bit without one, no setup, and the signals.
pub record BarrierWritten (type : ℕ) (deps : List ℕ) (completion : Option ℕ) (old p : Slot)
    : Type 0 where
  pub type_eq : p.header % 2 ^ 8 ≡ type
  pub ordered_eq : p.header / 2 ^ 8 % 2 ≡ flag (is_none completion)
  pub scacquire_eq : p.header / 2 ^ 9 % 4 ≡ scope_code FenceScope.none
  pub screlease_eq : p.header / 2 ^ 11 % 4 ≡ scope_code FenceScope.none
  pub setup_eq : p.setup ≡ 0
  pub body_eq : p.body ≡ barrier (take 5 (deps ++ replicate 5 0))
  pub completion_eq : p.completion_signal ≡ (store_completion completion old).completion_signal

store_completion-signal :
    (completion : Option ℕ) (p q : Slot)
    → p.completion_signal ≡ q.completion_signal
    → (store_completion completion p).completion_signal
      ≡ (store_completion completion q).completion_signal
store_completion-signal none p q h = h
store_completion-signal (some s) p q h = refl

pub write_barrier_lem :
    (c : HsaAbi) (type : ℕ) (deps : List ℕ) (completion : Option ℕ) (old : Slot)
    → IsHsaAbi c
    → type < 256
    → BarrierWritten type deps completion old (write_barrier c type deps completion old).0
      × ((write_barrier c type deps completion old).1 ≡ drop 5 deps)
unfolding write_barrier
write_barrier_lem c type deps completion old h small =
    let ordered = is_none completion in
    let fields = header_fields c type FenceScope.none FenceScope.none ordered h small in
    let stored = packet_store_rel_fields old _ 0 fields.4 (omega arith) in
    let taken = take_deps_lem 5 5 deps (omega arith) in
    (
      record {
        type_eq = ap (λ t. t % 2 ^ 8) stored.0 ∙ fields.0;
        ordered_eq = ap (λ t. t / 2 ^ 8 % 2) stored.0 ∙ fields.1;
        scacquire_eq = ap (λ t. t / 2 ^ 9 % 4) stored.0 ∙ fields.2;
        screlease_eq = ap (λ t. t / 2 ^ 11 % 4) stored.0 ∙ fields.3;
        setup_eq = stored.1;
        body_eq = ap (λ n. barrier (take_deps n deps).0) h.dep_signals_eq ∙ ap barrier taken.0;
        completion_eq = store_completion-signal completion (packet_store_rel old _ 0) old refl;
      },
      ap (λ n. (take_deps n deps).1) h.dep_signals_eq ∙ taken.1,
    )

-- With room in the ring a barrier packet is written behind what the reader has before it: an AND
-- barrier over the next five signals, with the null signal where there are fewer. The iterator is
-- left at the sixth. Without a completion signal the slot keeps the one that it had.
pub try_enqueue_barrier_and_lem :
    (c : HsaAbi) (q : Ring Slot) (deps : List ℕ) (completion : Option ℕ)
    → IsHsaAbi c
    → IsRing q
    → q.write_index - q.read_index < q.size
    → q.write_index + 2 < usize_mod
    → (old p : Slot) × (q' : Ring Slot) × (slot q.packets q.size q.write_index ≡ some old)
      × (try_enqueue_barrier_and c q deps completion ≡ some (ok (drop 5 deps), q'))
      × (contents q' ≡ contents q ++ some p ∷ [])
      × BarrierWritten 3 deps completion old p
unfolding try_enqueue_barrier_and
try_enqueue_barrier_and_lem c q deps completion h v room top =
    let (old, q', found, done, joined, bell, valid) =
      enqueue_fifo q (write_barrier c c.packet_type_barrier_and deps completion) v room top in
    let (written, rest) =
      write_barrier_lem c c.packet_type_barrier_and deps completion old h
        (omega (arith, h.barrier_and_eq)) in
    (
      old,
      (write_barrier c c.packet_type_barrier_and deps completion old).0,
      q',
      found,
      done ∙ ap (λ t. some (ok t, q')) rest,
      joined,
      subst
          (λ t.
            BarrierWritten t deps completion old
              (write_barrier c c.packet_type_barrier_and deps completion old).0)
          h.barrier_and_eq written,
    )

-- What a finished dispatch packet says: its type and the fences that were asked for, the number of
-- dimensions, the sizes and addresses, and its completion signal or the null one.
pub record DispatchWritten (d : DispatchPacket) (p : Slot) : Type 0 where
  pub type_eq : p.header % 2 ^ 8 ≡ 2
  pub ordered_eq : p.header / 2 ^ 8 % 2 ≡ flag d.ordered
  pub scacquire_eq : p.header / 2 ^ 9 % 4 ≡ scope_code d.scaquire_scope
  pub screlease_eq : p.header / 2 ^ 11 % 4 ≡ scope_code d.screlease_scope
  pub setup_eq : p.setup ≡ dimensions d.grid_size
  pub body_eq :
      p.body
      ≡ kernel_dispatch d.workgroup_size d.grid_size d.private_segment_size d.group_segment_size
          d.kernel_object d.kernel_args
  pub completion_eq : p.completion_signal ≡ unwrap_or_null d.completion_signal

write_dispatch_lem :
    (c : HsaAbi) (d : DispatchPacket) (old : Slot)
    → IsHsaAbi c
    → DispatchWritten d (write_dispatch c d old).0
unfolding write_dispatch
write_dispatch_lem c d old h =
    let fields =
      header_fields c c.packet_type_kernel_dispatch d.scaquire_scope d.screlease_scope d.ordered h
        (omega (arith, h.kernel_dispatch_eq)) in
    let setup : dimensions d.grid_size % 2 ^ 16 * 2 ^ c.setup_dimensions % 2 ^ 16
        ≡ dimensions d.grid_size =
      rw h.dimensions_eq (omega (arith, dimensions_lem d.grid_size)) in
    let stored =
      packet_store_rel_fields old _
        (dimensions d.grid_size % 2 ^ 16 * 2 ^ c.setup_dimensions % 2 ^ 16) fields.4
        (omega arith) in
    record {
      type_eq = ap (λ t. t % 2 ^ 8) stored.0 ∙ fields.0 ∙ h.kernel_dispatch_eq;
      ordered_eq = ap (λ t. t / 2 ^ 8 % 2) stored.0 ∙ fields.1;
      scacquire_eq = ap (λ t. t / 2 ^ 9 % 4) stored.0 ∙ fields.2;
      screlease_eq = ap (λ t. t / 2 ^ 11 % 4) stored.0 ∙ fields.3;
      setup_eq = stored.1 ∙ setup;
      body_eq = refl;
      completion_eq = refl;
    }

-- A dispatch that passes `check` is written behind what the reader has before it, if the ring has
-- room.
pub try_enqueue_kernel_dispatch_lem :
    (c : HsaAbi) (q : Ring Slot) (d : DispatchPacket)
    → IsHsaAbi c
    → IsRing q
    → check d ≡ ok tt
    → q.write_index - q.read_index < q.size
    → q.write_index + 2 < usize_mod
    → (p : Slot) × (q' : Ring Slot) × (try_enqueue_kernel_dispatch c q d ≡ some (ok tt, q'))
      × (contents q' ≡ contents q ++ some p ∷ [])
      × DispatchWritten d p
      × (q'.doorbell ≡ q.write_index)
      × IsRing q'
unfolding try_enqueue_kernel_dispatch
try_enqueue_kernel_dispatch_lem c q d h v passed room top =
    let (old, q', found, done, joined, bell, valid) =
      enqueue_fifo q (write_dispatch c d) v room top in
    (
      (write_dispatch c d old).0,
      q',
      rw (passed, try_enqueue_kernel_dispatch) done,
      joined,
      write_dispatch_lem c d old h,
      bell,
      valid,
    )

-- A dispatch with an empty axis is refused before the ring is touched.
pub try_enqueue_kernel_dispatch_err :
    (c : HsaAbi) (q : Ring Slot) (d : DispatchPacket) {e : QueueError}
    → check d ≡ err e
    → try_enqueue_kernel_dispatch c q d ≡ some (err e, q)
unfolding try_enqueue_kernel_dispatch
try_enqueue_kernel_dispatch_err c q d refused = rw (refused, try_enqueue_kernel_dispatch)
