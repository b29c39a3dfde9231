-- ===== src/Alloc/Room.antt =====
-- The room of a block in a pool, in place and at a new place.
use geobacter.Prelude.{
  ℕ, ◌≤◌, ◌≡◌, ◌≢◌, sym, ap, ap₂, ◌∙◌, inl, inr, arith, some, usize_mod, wrapping_add,
}
use geobacter.Prelude.Results.{ok}
use geobacter.Layout.{
  Layout, align_to, pad_to_align, padding_needed_for, align_to-some, pad_to_align-some,
}
use geobacter.Alloc.Heap.{Heap, Runtime, alloc_error, panicked, Program, ◌>>◌, pure, copy}
use geobacter.Alloc.Pool.{PoolAlloc, Slice, or_fail, alloc, dealloc, settle, in_place, move}
use geobacter.Alloc.Programs.{>>=-ok, >>-ok, ok-pair, or_fail-ok}
use geobacter.Alloc.Placed.{Served, block_len, alloc-ok}

module _ (a : PoolAlloc) (rt : Runtime) where
  -- Where the granule is the larger alignment, the size in place is that of the block.
  pub in_place-room :
      (l : Layout) (h : Heap) {room : ℕ} {h' : Heap}
      → l.align ≤ a.granule
      → in_place a rt l h ≡ (ok room, h')
      → room ≡ block_len a rt l
  unfolding in_place padding_needed_for
  in_place-room l h aligned e =
      let (l₁, h₁, x, e₁) = >>=-ok (or_fail alloc_error (align_to l a.granule)) _ h e in
      let (l₂, h₂, y, e₂) = >>=-ok (or_fail panicked (pad_to_align l₁)) _ h₁ e₁ in
      let (size, align) = align_to-some l a.granule (or_fail-ok alloc_error _ h x).0 in
      let padded = pad_to_align-some l₁ (or_fail-ok panicked _ h₁ y).0 in
      let same : l₁ ≡ record { size = l.size; align = a.granule } =
        ap₂ (λ n m. record { size = n; align = m }) size (align ∙ omega (arith, aligned)) in
      sym (ok-pair e₂).0
      ∙ padded
      ∙ ap (λ t. wrapping_add usize_mod t.size (padding_needed_for t t.align)) same

  pub move-placed :
      (test : Slice → Program (Unit {0})) (p : ℕ) (old new : Layout) (n : ℕ) (h : Heap) {s : Slice}
      {h' : Heap}
      → Served a new
      → new.size ≢ 0
      → move a rt test p old new n h ≡ (ok s, h')
      → rt.place h (block_len a rt new) ≡ some s.ptr
  unfolding move
  move-placed test p old new n h {s} {h'} served some_size e =
      let (s₁, h₁, made, e₁) = >>=-ok (alloc a rt new) _ h e in
      let (h₂, tested, e₂) =
        >>-ok (λ g. settle a rt s₁ new (test s₁ g))
          (copy p s₁.ptr n >> (dealloc a rt p old >> pure s₁)) h₁ e₁ in
      let (h₃, moved, e₃) = >>-ok (copy p s₁.ptr n) (dealloc a rt p old >> pure s₁) h₂ e₂ in
      let (h₄, freed, e₄) = >>-ok (dealloc a rt p old) (pure s₁) h₃ e₃ in
      let (same, last) = ok-pair e₄ in
      elim (alloc-ok a rt new h served made).1 [
        | inl (empty, stays) ↦ absurd (some_size empty)
        | inr (full, placed, grown) ↦ placed ∙ ap (λ t. some t.ptr) same
      ]
