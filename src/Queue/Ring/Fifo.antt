-- ===== src/Queue/Ring/Fifo.antt =====
-- The ring as a queue: what a reader finds between its index and the write index.
use native.Mathlib.Nat.{mod-lt}
use geobacter.Prelude.{
  ℕ, zero, suc, ◌+◌, ◌-◌, ◌%◌, ◌≤◌, ◌<◌, ◌≡◌, refl, sym, ap, ap₂, ◌∙◌, Option, none, some, List, [],
  ◌∷◌, ◌++◌, arith, usize_mod, length, get_elem?, set, get_elem?-set_self, get_elem?-set_ne, mod_ne,
  length-set,
}
use geobacter.Prelude.Results.{ok}
use geobacter.Queue.Ring.{Ring, try_enqueue_packet}
use geobacter.Queue.Ring.Enqueue.{IsRing, size_pos, try_enqueue_packet_ok, try_enqueue_packet_full}

module _ {P : Type 0} where
  -- The slot of an index in `m` slots, and the `n` slots from index `i` on.
  abbrev pub slot : List P → ℕ → ℕ → Option P
  slot ps m i = get_elem? ps (i % m)

  abbrev pub window : List P → ℕ → ℕ → ℕ → List (Option P)
  window ps m i zero = []
  window ps m i (suc n) = slot ps m i ∷ window ps m (i + 1) n

  -- What the reader has before it.
  abbrev pub contents : Ring P → List (Option P)
  contents q = window q.packets q.size q.read_index (q.write_index - q.read_index)

  pub length-window : (ps : List P) (m i n : ℕ) → length (window ps m i n) ≡ n
  length-window ps m i zero = refl
  length-window ps m i (suc n) = ap suc (length-window ps m (i + 1) n)

  pub window-append :
      (ps : List P) (m i n : ℕ) → window ps m i (suc n) ≡ window ps m i n ++ slot ps m (i + n) ∷ []
  window-append ps m i zero = ap (λ t. slot ps m t ∷ []) (omega arith)
  window-append ps m i (suc n) =
      ap (λ t. slot ps m i ∷ t)
        (window-append ps m (i + 1) n
          ∙ ap (λ t. window ps m (i + 1) n ++ slot ps m t ∷ []) (omega arith))

  -- The contents up to a later write index.
  pub contents_next :
      (ps : List P) (m r w : ℕ)
      → r ≤ w
      → window ps m r (w + 1 - r) ≡ window ps m r (w - r) ++ slot ps m w ∷ []
  contents_next ps m r w h =
      ap (window ps m r) {y = suc (w - r)} (omega arith)
      ∙ window-append ps m r (w - r)
      ∙ ap (λ t. window ps m r (w - r) ++ slot ps m t ∷ []) (omega arith)

  -- A write at index `w` leaves the slots before it alone, as far back as the size reaches.
  pub window-write :
      (ps : List P) (m w i n : ℕ) (p : P)
      → i + n ≤ w
      → w < i + m
      → window (set ps (w % m) p) m i n ≡ window ps m i n
  window-write ps m w i zero p h k = refl
  window-write ps m w i (suc n) p h k =
      ap₂ ◌∷◌ (get_elem?-set_ne ps p (λ e. mod_ne m i w (omega arith) k (sym e)))
        (window-write ps m w (i + 1) n p (omega arith) (omega arith))

  -- With room left, a packet joins the end of what the reader has before it, and nothing else of
  -- that changes; the doorbell has its index, and the queue stays well-formed.
  pub enqueue_fifo :
      {S : Type 0} (q : Ring P) (f : P → P × S)
      → IsRing q
      → q.write_index - q.read_index < q.size
      → q.write_index + 2 < usize_mod
      → (old : P) × (q' : Ring P) × (slot q.packets q.size q.write_index ≡ some old)
        × (try_enqueue_packet q f ≡ some (ok (f old).1, q'))
        × (contents q' ≡ contents q ++ some (f old).0 ∷ [])
        × (q'.doorbell ≡ q.write_index)
        × IsRing q'
  enqueue_fifo q f v room top =
      let (old, found, done) = try_enqueue_packet_ok v f room in
      let at = q.write_index % q.size in
      let written : slot (set q.packets at (f old).0) q.size q.write_index ≡ some (f old).0 =
        get_elem?-set_self q.packets at (f old).0
          (omega (arith, v.slots, mod-lt q.write_index (size_pos v))) in
      (
        old,
        _,
        found,
        done,
        contents_next (set q.packets at (f old).0) q.size q.read_index q.write_index v.ordered
            ∙ ap₂ (λ s t. s ++ t ∷ [])
                (window-write q.packets q.size q.write_index q.read_index _ (f old).0
                  (omega (arith, v.ordered)) (omega (arith, v.ordered)))
                written,
        refl,
        record {
          log = v.log;
          log_lt = v.log_lt;
          size_eq = v.size_eq;
          slots = length-set q.packets at (f old).0 ∙ v.slots;
          ordered = omega (arith, v.ordered);
          no_wrap = omega (arith, top);
        },
      )

  -- A reader that moves on by one takes the first of them away.
  pub advance_fifo :
      (q : Ring P)
      → q.read_index < q.write_index
      → contents q
        ≡ slot q.packets q.size q.read_index ∷ contents (record q { read_index = q.read_index + 1 })
  advance_fifo q h = ap (window q.packets q.size q.read_index) (
      let e : q.write_index - q.read_index ≡ suc (q.write_index - (q.read_index + 1)) =
        omega arith in
      e)

  -- A client that tries `n` packets.
  pub try_times : {S : Type 0} → ℕ → Ring P → (P → P × S) → Option (Ring P)
  try_times zero q f = some q
  try_times (suc n) q f = elim (try_enqueue_packet q f) [
    | none ↦ none
    | some (r, q') ↦ try_times n q' f
  ]

  try_times_full :
      {S : Type 0} (n : ℕ) (q : Ring P) (f : P → P × S)
      → IsRing q
      → q.size ≤ q.write_index - q.read_index
      → q.write_index + n + 1 < usize_mod
      → try_times n q f ≡ some (record q { write_index = q.write_index + n })
  unfolding try_times
  try_times_full zero q f v crowded top =
      ap (λ t. some (record q { write_index = t })) {x = q.write_index} (omega arith)
  try_times_full (suc n) q f v crowded top =
      rw (try_enqueue_packet_full v f crowded, try_times)
        (try_times_full n (record q { write_index = q.write_index + 1 }) f
            (record {
              log = v.log;
              log_lt = v.log_lt;
              size_eq = v.size_eq;
              slots = v.slots;
              ordered = omega (arith, v.ordered);
              no_wrap = omega (arith, top);
            })
            (omega (arith, crowded)) (omega (arith, top))
          ∙ ap (λ t. some (record q { write_index = t })) {y = q.write_index + suc n} (omega arith))

  -- While the ring is full, every refused packet moves the write index on by one for good: after
  -- `n` of them the reader has `n` more packets before it that nobody wrote, and more than the ring
  -- has slots.
  pub refused_packets_stay :
      {S : Type 0} (n : ℕ) (q : Ring P) (f : P → P × S)
      → IsRing q
      → q.size ≤ q.write_index - q.read_index
      → q.write_index + n + 1 < usize_mod
      → (q' : Ring P) × (try_times n q f ≡ some q')
        × (q'.packets ≡ q.packets)
        × (q'.read_index ≡ q.read_index)
        × (length (contents q') ≡ length (contents q) + n)
  refused_packets_stay n q f v crowded top = (
    record q { write_index = q.write_index + n },
    try_times_full n q f v crowded top,
    refl,
    refl,
    omega (
      arith,
      v.ordered,
      length-window q.packets q.size q.read_index (q.write_index + n - q.read_index),
      length-window q.packets q.size q.read_index (q.write_index - q.read_index),
    ),
  )
