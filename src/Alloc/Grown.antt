-- ===== src/Alloc/Grown.antt =====
-- The move to a new block: what becomes of the old block and of its bytes.
use geobacter.Prelude.{
  ℕ, ◌≡◌, ◌≢◌, sym, ap, ◌∙◌, ◌⊎◌, inl, inr, Bool-cases, ◌==◌, ==_iff, List, some,
}
use geobacter.Prelude.Results.{Result, ok, err}
use geobacter.Layout.{Layout}
use geobacter.Alloc.Heap.{
  Block, Heap, Runtime, IsRuntime, Failure, alloc_error, panicked, Program, ◌>>◌, pure, fail,
  copied, copy,
}
use geobacter.Alloc.Pool.{PoolAlloc, Slice, alloc, dealloc, settle, move}
use geobacter.Alloc.Programs.{
  >>=-ok, >>=-err, >>-ok, >>-err, ok-pair, ok-not-err, take_back-ok, take_back-err,
}
use geobacter.Alloc.Placed.{Served, alloc-ok, alloc-err}

-- A test of a new block that frees nothing, allocates nothing and writes no byte.
pub record Quiet (test : Slice → Program (Unit {0})) : Type 0 where
  pub live_kept : (s : Slice) (h : Heap) → (test s h).1.live ≡ h.live
  pub bytes_kept : (s : Slice) (h : Heap) → (test s h).1.bytes ≡ h.bytes

module _ (a : PoolAlloc) (rt : Runtime) where
  dealloc-ok :
      (p : ℕ) (l : Layout) (h : Heap) {u : Unit {0}} {h' : Heap}
      → dealloc a rt p l h ≡ (ok u, h')
      → ((l.size ≡ 0) × (h' ≡ h))
        ⊎ ((bs : List Block) × (l.size ≢ 0)
            × (rt.free h.live p ≡ some bs)
            × (h' ≡ record h { live = bs }))
  unfolding dealloc
  dealloc-ok p l h e = elim (Bool-cases (l.size == 0)) [
    | inl none ↦ inl ((==_iff l.size 0).0 none, sym (ok-pair (rw (none) at e)).1)
    | inr sized ↦
        let (bs, x, y) = take_back-ok h (rt.free h.live p) (rw (sized) at e) in
        inr (bs, λ z. cc ((==_iff l.size 0).1 z, sized), x, y)
  ]

  dealloc-bytes :
      (p : ℕ) (l : Layout) (h : Heap) {u : Unit {0}} {h' : Heap}
      → dealloc a rt p l h ≡ (ok u, h')
      → h'.bytes ≡ h.bytes
  dealloc-bytes p l h e = elim (dealloc-ok p l h e) [
    | inl (empty, same) ↦ ap (λ t. t.bytes) same
    | inr (bs, full, freed, same) ↦ ap (λ t. t.bytes) same
  ]

  dealloc-err :
      (p : ℕ) (l : Layout) (h : Heap) {h' : Heap} → dealloc a rt p l h ≡ (err alloc_error, h') → ⊥
  unfolding dealloc
  dealloc-err p l h e = elim (Bool-cases (l.size == 0)) [
    | inl none ↦ ok-not-err (rw (none) at e)
    | inr sized ↦ take_back-err h (rt.free h.live p) (rw (sized) at e)
  ]

  settle-ok :
      (s : Slice) (l : Layout) (r : Result Failure (Unit {0}) × Heap) {u : Unit {0}} {h' : Heap}
      → settle a rt s l r ≡ (ok u, h')
      → h' ≡ r.1
  unfolding settle
  settle-ok s l (ok x, h) e = sym (ok-pair e).1
  settle-ok s l (err panicked, h) e = absurd (cc (ap (λ t. t.0) e))
  settle-ok s l (err alloc_error, h) e =
      let (h₁, x, y) = >>-ok (dealloc a rt s.ptr l) (fail alloc_error) h e in
      absurd (cc (ap (λ t. t.0) y))

  settle-err :
      (s : Slice) (l : Layout) (r : Result Failure (Unit {0}) × Heap) {h' : Heap}
      → settle a rt s l r ≡ (err alloc_error, h')
      → dealloc a rt s.ptr l r.1 ≡ (ok tt, h')
  unfolding settle
  settle-err s l (ok x, h) e = absurd (ok-not-err e)
  settle-err s l (err panicked, h) e = absurd (cc (ap (λ t. t.0) e))
  settle-err s l (err alloc_error, h) e =
      elim (>>-err (dealloc a rt s.ptr l) (fail alloc_error) h e) [
        | inl x ↦ absurd (dealloc-err s.ptr l h x)
        | inr (h₁, x, y) ↦ x ∙ ap (λ t. (ok tt, t)) (ap (λ t. t.1) y)
      ]

  alloc-bytes :
      (l : Layout) (h : Heap) {s : Slice} {h' : Heap}
      → Served a l
      → alloc a rt l h ≡ (ok s, h')
      → h'.bytes ≡ h.bytes
  alloc-bytes l h served e = elim (alloc-ok a rt l h served e).1 [
    | inl (empty, same) ↦ ap (λ t. t.bytes) same
    | inr (full, placed, same) ↦ ap (λ t. t.bytes) same
  ]

  -- What was allocated last is freed, and the blocks are those from before.
  undo :
      (l : Layout) (h h₁ h₂ : Heap) {s : Slice} {u : Unit {0}} {h' : Heap}
      → IsRuntime rt
      → Served a l
      → alloc a rt l h ≡ (ok s, h₁)
      → h₂.live ≡ h₁.live
      → dealloc a rt s.ptr l h₂ ≡ (ok u, h')
      → h'.live ≡ h.live
  undo l h h₁ h₂ {s} laws served made kept e = elim (alloc-ok a rt l h served made).1 [
    | inl (empty, same) ↦ elim (dealloc-ok s.ptr l h₂ e) [
      | inl (empty', same') ↦ ap (λ t. t.live) same' ∙ kept ∙ ap (λ t. t.live) same
      | inr (bs, full, freed, same') ↦ absurd (full empty)
    ]
    | inr (full, placed, same) ↦ elim (dealloc-ok s.ptr l h₂ e) [
      | inl (empty', same') ↦ absurd (full empty')
      | inr (bs, full', freed, same') ↦
          let again : rt.free h₂.live s.ptr ≡ some h.live =
            ap (λ t. rt.free t s.ptr) (kept ∙ ap (λ t. t.live) same)
            ∙ laws.freed h.live (record { ptr = s.ptr; len = _ }) in
          ap (λ t. t.live) same' ∙ cc (freed, again)
    ]
  ]

  -- A move that ends: the bytes are copied, and the other memory has not changed.
  pub move-ok :
      (test : Slice → Program (Unit {0})) (p : ℕ) (old new : Layout) (n : ℕ) (h : Heap) {s : Slice}
      {h' : Heap}
      → Quiet test
      → Served a new
      → move a rt test p old new n h ≡ (ok s, h')
      → (s.len ≡ new.size) × (h'.bytes ≡ copied h.bytes p s.ptr n)
  unfolding move
  move-ok test p old new n h {s} {h'} quiet served e =
      let (s₁, h₁, made, e₁) = >>=-ok (alloc a rt new) _ h e in
      let (h₂, tested, e₂) =
        >>-ok (λ g. settle a rt s₁ new (test s₁ g))
          (copy p s₁.ptr n >> (dealloc a rt p old >> pure s₁)) h₁ e₁ in
      let (h₃, moved, e₃) = >>-ok (copy p s₁.ptr n) (dealloc a rt p old >> pure s₁) h₂ e₂ in
      let (h₄, freed, e₄) = >>-ok (dealloc a rt p old) (pure s₁) h₃ e₃ in
      let (same, last) = ok-pair e₄ in
      let before : h₂.bytes ≡ h.bytes =
        ap (λ t. t.bytes) (settle-ok s₁ new (test s₁ h₁) tested)
        ∙ quiet.bytes_kept s₁ h₁
        ∙ alloc-bytes new h served made in
      let after : h'.bytes ≡ h₃.bytes =
        ap (λ t. t.bytes) (sym last) ∙ dealloc-bytes p old h₃ freed in
      let there : h₃.bytes ≡ copied h₂.bytes p s₁.ptr n =
        ap (λ t. t.bytes) (sym (ok-pair moved).1) in
      (
        ap (λ t. t.len) (sym same) ∙ (alloc-ok a rt new h served made).0,
        after
            ∙ there
            ∙ ap (λ t. copied t p s₁.ptr n) before
            ∙ ap (λ t. copied h.bytes p t.ptr n) same,
      )

  pub move-err :
      (test : Slice → Program (Unit {0})) (p : ℕ) (old new : Layout) (n : ℕ) (h : Heap) {h' : Heap}
      → IsRuntime rt
      → Quiet test
      → Served a new
      → move a rt test p old new n h ≡ (err alloc_error, h')
      → (h'.live ≡ h.live) × (h'.bytes ≡ h.bytes)
  unfolding move
  move-err test p old new n h {h'} laws quiet served e = elim (>>=-err (alloc a rt new) _ h e) [
    | inl x ↦
        let same = alloc-err a rt new h served x in (ap (λ t. t.live) same, ap (λ t. t.bytes) same)
    | inr (s₁, h₁, made, e₁) ↦
        elim (>>-err (λ g. settle a rt s₁ new (test s₁ g))
          (copy p s₁.ptr n >> (dealloc a rt p old >> pure s₁)) h₁ e₁) [
            | inl x ↦
                let freed = settle-err s₁ new (test s₁ h₁) x in
                (
                  undo new h h₁ (test s₁ h₁).1 laws served made (quiet.live_kept s₁ h₁) freed,
                  dealloc-bytes s₁.ptr new (test s₁ h₁).1 freed
                      ∙ quiet.bytes_kept s₁ h₁
                      ∙ alloc-bytes new h served made,
                )
            | inr (h₂, tested, e₂) ↦
                elim (>>-err (copy p s₁.ptr n) (dealloc a rt p old >> pure s₁) h₂ e₂) [
                  | inl x ↦ absurd (ok-not-err x)
                  | inr (h₃, moved, e₃) ↦ elim (>>-err (dealloc a rt p old) (pure s₁) h₃ e₃) [
                    | inl x ↦ absurd (dealloc-err p old h₃ x)
                    | inr (h₄, freed, e₄) ↦ absurd (ok-not-err e₄)
                  ]
                ]
          ]
  ]
