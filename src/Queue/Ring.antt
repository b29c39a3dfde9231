-- ===== src/Queue/Ring.antt =====
-- The ring of packets and `trait RingQueue`. The hardware or `SoftQueue` is the reader; it moves the
-- read index. A refused packet has a write index all the same.
pub mod Enqueue
pub mod Fifo
pub mod Packets
mod Tests
use geobacter.Prelude.{
  ℕ, ◌+◌, ◌-◌, ◌*◌, ◌%◌, ◌^◌, ◌≤◌, ◌<◌, ◌≡◌, Bool, true, false, Option, none, some, List, [], ◌∷◌,
  zero, suc, ◌/◌, bit_and, ltb, leb, if◌then◌else◌, usize_mod, wrapping_add, wrapping_sub, length,
  get_elem?, set,
}
use geobacter.Prelude.Results.{Result, ok, err}
use geobacter.Errors.{QueueError, full}
use geobacter.Queue.Abi.{FenceScope, HsaAbi}
use geobacter.Queue.Header.{header, store_word}
use geobacter.Queue.Dispatch.{Body, barrier, Slot, DispatchPacket, check, initialize_packet}

-- `hsa_queue_t` with its indices, which the HSA runtime keeps, and the value of its doorbell. The
-- indices are `u64`, and the doorbell holds an index as an `i64` bit pattern.
pub record Ring (P : Type 0) : Type 0 where
  pub size : ℕ
  pub packets : List P
  pub write_index : ℕ
  pub read_index : ℕ
  pub doorbell : ℕ

-- The part of `try_enqueue_packet` behind the test for room. The closure gives the new packet and
-- what it hands out; `none` is the panic of an index out of bounds.
unfoldable pub fill : {P S : Type 0} → Ring P → ℕ → (P → P × S) → Option (S × Ring P)
fill q w f =
    let packet_index = bit_and w (wrapping_sub usize_mod q.size 1) in
    elim (get_elem? q.packets packet_index) [
      | none ↦ none
      | some p ↦
          some ((f p).1, record q { packets = set q.packets packet_index (f p).0; doorbell = w })
    ]

abbrev accepted : {P S : Type 0} → Option (S × Ring P) → Option (Result QueueError S × Ring P)
accepted none = none
accepted (some (s, q)) = some (ok s, q)

unfoldable pub try_enqueue_packet :
    {P S : Type 0} → Ring P → (P → P × S) → Option (Result QueueError S × Ring P)
try_enqueue_packet q f =
    let w = q.write_index in
    let q' = record q { write_index = wrapping_add usize_mod w 1 } in
    if leb q.size (wrapping_sub usize_mod w q.read_index)
    then some (err full, q')
    else accepted (fill q' w f)

-- `packet_store_rel`: the word goes over the header and the setup of the packet.
unfoldable pub packet_store_rel : Slot → ℕ → ℕ → Slot
unfolding store_word
packet_store_rel p h rest = record p {
  header = store_word h rest % 2 ^ 16;
  setup = store_word h rest / 2 ^ 16;
}

-- The loop over `dep_signal`: the signals that are written, null where the iterator has ended, and
-- what is left of the iterator.
unfoldable pub take_deps : ℕ → List ℕ → List ℕ × List ℕ
take_deps zero deps = ([], deps)
take_deps (suc n) [] = (0 ∷ (take_deps n []).0, [])
take_deps (suc n) (d ∷ deps) = (d ∷ (take_deps n deps).0, (take_deps n deps).1)

abbrev store_completion : Option ℕ → Slot → Slot
store_completion none p = p
store_completion (some s) p = record p { completion_signal = s }

abbrev is_none : Option ℕ → Bool
is_none none = true
is_none (some s) = false

module _ (c : HsaAbi) where
  -- The closure of `try_enqueue_barrier_and` and `try_enqueue_barrier_or`, which differ in the type.
  unfoldable pub write_barrier : ℕ → List ℕ → Option ℕ → Slot → Slot × List ℕ
  unfolding packet_store_rel
  write_barrier type deps completion p =
      let ordered = is_none completion in
      let ty = header c type FenceScope.none FenceScope.none ordered in
      let invalid_ty = header c c.packet_type_invalid FenceScope.none FenceScope.none ordered in
      let p₁ = store_completion completion (packet_store_rel p invalid_ty 0) in
      let (signals, rest) = take_deps c.dep_signals deps in
      (packet_store_rel (record p₁ { body = barrier signals }) ty 0, rest)

  unfoldable pub try_enqueue_barrier_and :
      Ring Slot → List ℕ → Option ℕ → Option (Result QueueError (List ℕ) × Ring Slot)
  unfolding write_barrier
  try_enqueue_barrier_and q deps completion =
      try_enqueue_packet q (write_barrier c.packet_type_barrier_and deps completion)

  unfoldable pub try_enqueue_barrier_or :
      Ring Slot → List ℕ → Option ℕ → Option (Result QueueError (List ℕ) × Ring Slot)
  unfolding write_barrier
  try_enqueue_barrier_or q deps completion =
      try_enqueue_packet q (write_barrier c.packet_type_barrier_or deps completion)

  -- The closure of `try_enqueue_kernel_dispatch`.
  unfoldable pub write_dispatch : DispatchPacket → Slot → Slot × Unit {0}
  unfolding packet_store_rel initialize_packet
  write_dispatch d p =
      let ty =
        header c c.packet_type_kernel_dispatch d.scaquire_scope d.screlease_scope d.ordered in
      let invalid_ty = header c c.packet_type_invalid FenceScope.none FenceScope.none true in
      let (p₁, grid_size) = initialize_packet d (packet_store_rel p invalid_ty 0) in
      (packet_store_rel p₁ ty (grid_size % 2 ^ 16 * 2 ^ c.setup_dimensions % 2 ^ 16), tt)

  unfoldable pub try_enqueue_kernel_dispatch :
      Ring Slot → DispatchPacket → Option (Result QueueError (Unit {0}) × Ring Slot)
  unfolding write_dispatch
  try_enqueue_kernel_dispatch q d = elim (check d) [
    | err e ↦ some (err e, q)
    | ok _ ↦ try_enqueue_packet q (write_dispatch d)
  ]
