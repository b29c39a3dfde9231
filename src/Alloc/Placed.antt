-- ===== src/Alloc/Placed.antt =====
-- Where `alloc` of a pool puts a block.
use geobacter.Prelude.{
  ==_iff, ℕ, ◌+◌, ◌%◌, ◌^◌, ◌<◌, ◌≤◌, ◌≡◌, ◌≢◌, refl, sym, ap, ◌∙◌, ◌⊎◌, inl, inr, arith,
  Bool-cases, ltb, ◌==◌, usize_mod, wrapping_add, ◌∷◌, some, false,
}
use geobacter.Prelude.Results.{ok, err}
use geobacter.Layout.{Layout, padding_needed_for, round_up, round_up_bounds}
use geobacter.Alloc.Heap.{Heap, Runtime, Failure, pure, hand_out, continue}
use geobacter.Alloc.Pool.{PoolAlloc, Slice, alloc_sized, alloc}
use geobacter.Alloc.Programs.{
  continue-ok, continue-err, ok-pair, ok-not-err, hand_out-ok, hand_out-err,
}

-- The granule is a power of two.
pub record IsPool (a : PoolAlloc) : Type 0 where
  pub log : ℕ
  pub log_lt : log < 64
  pub granule_eq : a.granule ≡ 2 ^ log

-- The layout asks for no more alignment than the pool gives, and its size rounds up to the granule.
pub record Served (a : PoolAlloc) (l : Layout) : Type 0 where
  pub aligned : l.align ≤ a.alignment
  pub rounds : l.size + a.granule ≤ usize_mod

module _ (a : PoolAlloc) (rt : Runtime) where
  -- The bytes that a block of the layout takes.
  abbrev pub block_len : Layout → ℕ
  block_len l = wrapping_add usize_mod l.size (padding_needed_for l a.granule)

  alloc_sized-Served :
      (l : Layout) (h : Heap)
      → Served a l
      → alloc_sized a rt l h
        ≡ continue
            (hand_out (block_len l) h (rt.place h (block_len l)))
            (λ dest. pure (record { ptr = dest; len = l.size }))
  unfolding alloc_sized
  alloc_sized-Served l h s = rw (low) refl
    where
      low : ltb a.alignment l.align ≡ false
      low = ground (arith, s.aligned)

  -- A block in granules, which takes no more than one granule more than was asked for.
  pub block_len_bounds :
      (l : Layout)
      → IsPool a
      → Served a l
      → (l.size ≤ block_len l) × (block_len l < l.size + a.granule) × (block_len l % a.granule ≡ 0)
  unfolding padding_needed_for
  block_len_bounds l v s =
      let e : block_len l ≡ round_up l.size a.granule = omega (arith, bounds, s.rounds) in
      rw (e) bounds
    where
      bounds :
          (l.size ≤ round_up l.size a.granule)
          × (round_up l.size a.granule < l.size + a.granule)
          × (round_up l.size a.granule % a.granule ≡ 0)
      bounds =
          rw (v.granule_eq)
            (round_up_bounds v.log l.size v.log_lt (omega (arith, v.granule_eq, s.rounds)))

  pub alloc-err :
      (l : Layout) (h : Heap) {f : Failure} {h' : Heap}
      → Served a l
      → alloc a rt l h ≡ (err f, h')
      → h' ≡ h
  unfolding alloc
  alloc-err l h served e = elim (Bool-cases (l.size == 0)) [
    | inl none ↦ absurd (ok-not-err (rw (none) at e))
    | inr sized ↦
        let e' = sym (alloc_sized-Served l h served) ∙ rw (sized) at e in
        elim (continue-err (hand_out (block_len l) h (rt.place h (block_len l))) _ e') [
          | inl x ↦ hand_out-err (block_len l) h _ x
          | inr (p, h₁, x, y) ↦ absurd (ok-not-err y)
        ]
  ]

  -- A block that was handed out, or the dangling pointer of a layout without bytes.
  pub alloc-ok :
      (l : Layout) (h : Heap) {s : Slice} {h' : Heap}
      → Served a l
      → alloc a rt l h ≡ (ok s, h')
      → (s.len ≡ l.size)
        × (((l.size ≡ 0) × (h' ≡ h))
            ⊎ ((l.size ≢ 0)
                × (rt.place h (block_len l) ≡ some s.ptr)
                × (h' ≡ record h { live = record { ptr = s.ptr; len = block_len l } ∷ h.live })))
  unfolding alloc
  alloc-ok l h {s} {h'} served e = elim (Bool-cases (l.size == 0)) [
    | inl none ↦
        let (x, y) = ok-pair (rw (none) at e) in
        (
          ap (λ t. t.len) (sym x) ∙ sym ((==_iff l.size 0).0 none),
          inl ((==_iff l.size 0).0 none, sym y),
        )
    | inr sized ↦
        let e' = sym (alloc_sized-Served l h served) ∙ rw (sized) at e in
        let (p, h₁, x, y) =
          continue-ok (hand_out (block_len l) h (rt.place h (block_len l))) _ e' in
        let (q, t) = ok-pair y in
        let (placed, there) = hand_out-ok (block_len l) h _ x in
        let same : p ≡ s.ptr = ap (λ z. z.ptr) q in
        (
          sym (ap (λ z. z.len) q),
          inr (
            λ z. cc ((==_iff l.size 0).1 z, sized),
            placed ∙ ap some same,
            sym t
                ∙ there
                ∙ ap (λ z. record h { live = record { ptr = z; len = block_len l } ∷ h.live }) same,
          ),
        )
  ]
