-- ===== src/Queue/Ring/Enqueue.antt =====
-- `try_enqueue_packet` on every branch.
use native.Mathlib.Nat.{mod-lt, pow-le-pow_right}
use geobacter.Prelude.{
  ℕ, zero, suc, ◌+◌, ◌-◌, ◌%◌, ◌^◌, ◌≤◌, ◌<◌, ◌≡◌, refl, sym, ap, ◌∙◌, some, List, [], ◌∷◌, arith,
  bit_and, usize_mod, wrapping_sub, length, get_elem?, set, bit_and_mask, two_pow_pos, wrapping_add,
  lt→leb, le→leb,
}
use geobacter.Prelude.Results.{ok, err}
use geobacter.Errors.{full}
use geobacter.Queue.Ring.{Ring, fill, try_enqueue_packet}

-- A queue has a power of two of slots, and its indices do not wrap. The distance of the indices is
-- not bounded by the size: refused packets count.
pub record IsRing {P : Type 0} (q : Ring P) : Type 0 where
  pub log : ℕ
  pub log_lt : log < 64
  pub size_eq : q.size ≡ 2 ^ log
  pub slots : length q.packets ≡ q.size
  pub ordered : q.read_index ≤ q.write_index
  pub no_wrap : q.write_index + 1 < usize_mod

get_elem?_total {ℓ} :
    {A : Type ℓ} (xs : List A) (i : ℕ) → i < length xs → (a : A) × (get_elem? xs i ≡ some a)
get_elem?_total [] i h = absurd (omega arith)
get_elem?_total (x ∷ xs) zero h = (x, refl)
get_elem?_total (x ∷ xs) (suc i) h = get_elem?_total xs i (omega arith)

module _ {P : Type 0} {q : Ring P} (v : IsRing q) where
  pub size_pos : 1 ≤ q.size
  size_pos = omega (arith, v.size_eq, two_pow_pos v.log)

  size_lt : q.size < usize_mod
  size_lt = omega (
    arith,
    v.size_eq,
    pow-le-pow_right {n = 2} (omega arith) {i = v.log} {j = 63} (omega (arith, v.log_lt)),
  )

  -- The mask of the code is a remainder.
  pub packet_index-eq : (w : ℕ) → bit_and w (wrapping_sub usize_mod q.size 1) ≡ w % q.size
  packet_index-eq w =
      ap (λ t. bit_and w t) mask ∙ bit_and_mask v.log w ∙ ap (λ t. w % t) (sym v.size_eq)
    where
      mask : wrapping_sub usize_mod q.size 1 ≡ 2 ^ v.log - 1
      mask = omega (arith, v.size_eq, size_lt, two_pow_pos v.log)

  -- The slot of any index is there.
  pub slot_total : (w : ℕ) → (p : P) × (get_elem? q.packets (w % q.size) ≡ some p)
  slot_total w = get_elem?_total q.packets (w % q.size) (omega (arith, v.slots, mod-lt w size_pos))

  next : wrapping_add usize_mod q.write_index 1 ≡ q.write_index + 1
  next = omega (arith, v.no_wrap)

  distance : wrapping_sub usize_mod q.write_index q.read_index ≡ q.write_index - q.read_index
  distance = omega (arith, v.no_wrap, v.ordered)

  -- With room left the packet goes to the slot of the write index, the index moves by one, and the
  -- doorbell is rung with the old index. There is no access out of bounds.
  pub try_enqueue_packet_ok :
      {S : Type 0} (f : P → P × S)
      → q.write_index - q.read_index < q.size
      → (p : P) × (get_elem? q.packets (q.write_index % q.size) ≡ some p)
        × (try_enqueue_packet q f
            ≡ some (
              ok (f p).1,
              record q {
                packets = set q.packets (q.write_index % q.size) (f p).0;
                write_index = q.write_index + 1;
                doorbell = q.write_index;
              },
            ))
  unfolding try_enqueue_packet fill
  try_enqueue_packet_ok {S} f room =
      let (p, found) = slot_total q.write_index in
      (p, found, rw (next, distance, lt→leb _ _ room, filled found) refl)
    where
      filled :
          {p : P}
          → get_elem? q.packets (q.write_index % q.size) ≡ some p
          → fill (record q { write_index = q.write_index + 1 }) q.write_index f
            ≡ some (
              (f p).1,
              record q {
                packets = set q.packets (q.write_index % q.size) (f p).0;
                write_index = q.write_index + 1;
                doorbell = q.write_index;
              },
            )
      filled e =
          rw (ap (get_elem? q.packets) (packet_index-eq q.write_index) ∙ e, fill)
            (rw (packet_index-eq q.write_index))

  -- With no room left the packet is refused and nothing is written, but the write index has moved.
  pub try_enqueue_packet_full :
      {S : Type 0} (f : P → P × S)
      → q.size ≤ q.write_index - q.read_index
      → try_enqueue_packet q f ≡ some (err full, record q { write_index = q.write_index + 1 })
  unfolding try_enqueue_packet
  try_enqueue_packet_full f crowded = rw (next, distance, le→leb _ _ crowded) refl
