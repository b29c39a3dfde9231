-- ===== src/Alloc/Resized.antt =====
-- Growing and shrinking: the bytes that both blocks have stay, a failure leaves the old block.
use geobacter.Prelude.{
  ℕ, ◌+◌, ◌-◌, ◌<◌, ◌≤◌, ◌≡◌, ◌≢◌, ◌⊎◌, some, sym, ap, ◌∙◌, inl, inr, arith, Bool-cases, ltb, leb,
  ◌==◌, ==_iff, if◌then◌else◌, bit_and, complement, usize_mod,
}
use geobacter.Prelude.Results.{ok, err}
use geobacter.Layout.{Layout, align_to, pad_to_align}
use geobacter.Alloc.Heap.{
  Heap, Runtime, IsRuntime, Failure, alloc_error, panicked, Program, ◌>>=◌, ◌>>◌, pure, copied,
  filled, write_bytes,
}
use geobacter.Alloc.Pool.{
  PoolAlloc, Slice, or_fail, refuse_if, in_place, move, grow_checked, try_grow, try_grow_zeroed,
  shrink_checked, try_shrink,
}
use geobacter.Alloc.Programs.{
  if-cases, >>=-ok, >>=-err, >>-ok, >>-err, ok-pair, ok-not-err, refuse_if-ok, refuse_if-err,
  or_fail-ok, or_fail-err,
}
use geobacter.Alloc.Placed.{IsPool, Served, block_len, block_len_bounds}
use geobacter.Alloc.Room.{in_place-room, move-placed}
use geobacter.Alloc.Grown.{Quiet, move-ok, move-err}

copied-inside : (f : ℕ → ℕ) (src dst n i : ℕ) → i < n → copied f src dst n (dst + i) ≡ f (src + i)
copied-inside f src dst n i h =
    let e : dst + i - dst + src ≡ src + i = omega arith in ground (arith, ap f e)

filled-inside : (f : ℕ → ℕ) (dst v n i : ℕ) → i < n → filled f dst v n (dst + i) ≡ v
filled-inside f dst v n i h = ground arith

filled-before : (f : ℕ → ℕ) (dst v n a : ℕ) → a < dst → filled f dst v n a ≡ f a
filled-before f dst v n a h = ground arith

same_heap : {h h' : Heap} → h' ≡ h → (h'.live ≡ h.live) × (h'.bytes ≡ h.bytes)
same_heap e = (ap (λ t. t.live) e, ap (λ t. t.bytes) e)

later :
    {h h₁ : Heap} (h' : Heap)
    → h₁ ≡ h
    → (h'.live ≡ h₁.live) × (h'.bytes ≡ h₁.bytes)
    → (h'.live ≡ h.live) × (h'.bytes ≡ h.bytes)
later h' same (x, y) = (x ∙ ap (λ t. t.live) same, y ∙ ap (λ t. t.bytes) same)

module _ (a : PoolAlloc) (rt : Runtime) (test : Slice → Program (Unit {0})) (p : ℕ)
    (old new : Layout) where
  in_place-heap : (h : Heap) {r : ℕ} {h' : Heap} → in_place a rt old h ≡ (ok r, h') → h' ≡ h
  unfolding in_place
  in_place-heap h e =
      let (l, h₁, x, e₁) = >>=-ok (or_fail alloc_error (align_to old a.granule)) _ h e in
      let (l', h₂, y, e₂) = >>=-ok (or_fail panicked (pad_to_align l)) _ h₁ e₁ in
      sym (ok-pair e₂).1 ∙ (or_fail-ok panicked _ h₁ y).1 ∙ (or_fail-ok alloc_error _ h x).1

  in_place-err : (h : Heap) {f : Failure} {h' : Heap} → in_place a rt old h ≡ (err f, h') → h' ≡ h
  unfolding in_place
  in_place-err h e = elim (>>=-err (or_fail alloc_error (align_to old a.granule)) _ h e) [
    | inl x ↦ or_fail-err alloc_error _ h x
    | inr (l, h₁, x, e₁) ↦
        elim (>>=-err (or_fail panicked (pad_to_align l)) (λ t. pure t.size) h₁ e₁) [
          | inl y ↦ or_fail-err panicked _ h₁ y ∙ (or_fail-ok alloc_error _ h x).1
          | inr (l', h₂, y, e₂) ↦ absurd (ok-not-err e₂)
        ]
  ]

  module _ (quiet : Quiet test) (served : Served a new) where
    moved :
        (n i : ℕ) (h : Heap) {s : Slice} {h' : Heap}
        → i < n
        → move a rt test p old new n h ≡ (ok s, h')
        → (s.len ≡ new.size) × (h'.bytes (s.ptr + i) ≡ h.bytes (p + i))
    moved n i h {s} below e =
        let (len, bytes) = move-ok a rt test p old new n h quiet served e in
        (len, ap (λ f. f (s.ptr + i)) bytes ∙ copied-inside h.bytes p s.ptr n i below)

    -- In place or moved, behind the checks.
    stay : ℕ → Program Slice
    stay room =
        if leb new.size room
        then pure (record { ptr = p; len = new.size })
        else move a rt test p old new old.size

    stay-ok :
        (room i : ℕ) (h : Heap) {s : Slice} {h' : Heap}
        → i < old.size
        → stay room h ≡ (ok s, h')
        → (s.len ≡ new.size) × (h'.bytes (s.ptr + i) ≡ h.bytes (p + i))
    unfolding stay
    stay-ok room i h {s} below e =
        elim (if-cases (leb new.size room) _ (move a rt test p old new old.size) h e) [
          | inl (fits, x) ↦
              let (q, r) = ok-pair x in
              (
                ap (λ t. t.len) (sym q),
                ap (λ t. t.bytes (s.ptr + i)) (sym r) ∙ ap (λ t. h.bytes (t.ptr + i)) (sym q),
              )
          | inr (full, x) ↦ moved old.size i h below x
        ]

    stay-err :
        (room : ℕ) (h : Heap) {h' : Heap}
        → IsRuntime rt
        → stay room h ≡ (err alloc_error, h')
        → (h'.live ≡ h.live) × (h'.bytes ≡ h.bytes)
    unfolding stay
    stay-err room h laws e =
        elim (if-cases (leb new.size room) (pure (record { ptr = p; len = new.size }))
          (move a rt test p old new old.size) h e) [
            | inl (fits, x) ↦ absurd (ok-not-err x)
            | inr (full, x) ↦ move-err a rt test p old new old.size h laws quiet served x
          ]

    try_grow-bytes :
        (i : ℕ) (h : Heap) {s : Slice} {h' : Heap}
        → i < old.size
        → try_grow a rt test p old new h ≡ (ok s, h')
        → (s.len ≡ new.size) × (h'.bytes (s.ptr + i) ≡ h.bytes (p + i))
    unfolding try_grow grow_checked stay
    try_grow-bytes i h {s} {h'} below e =
        let (h₁, x, e₁) = >>-ok (refuse_if (ltb new.size old.size)) _ h e in
        let (h₂, y, e₂) = >>-ok (refuse_if (ltb old.align new.align)) _ h₁ e₁ in
        let same : h₂ ≡ h = (refuse_if-ok _ h₁ y).1 ∙ (refuse_if-ok _ h x).1 in
        elim (if-cases (old.size == 0) (move a rt test p old new old.size)
          (in_place a rt old >>= stay) h₂ e₂) [
            | inl (none, z) ↦ absurd (omega (arith, (==_iff old.size 0).0 none))
            | inr (sized, z) ↦
                let (room, h₃, w, e₃) = >>=-ok (in_place a rt old) stay h₂ z in
                let (len, bytes) = stay-ok room i h₃ below e₃ in
                (len, bytes ∙ ap (λ t. t.bytes (p + i)) (in_place-heap h₂ w ∙ same))
          ]

    stay-room :
        (room : ℕ) (h : Heap) {s : Slice} {h' : Heap}
        → new.size ≢ 0
        → stay room h ≡ (ok s, h')
        → ((new.size ≤ room) × (s.ptr ≡ p))
          ⊎ ((room < new.size) × (rt.place h (block_len a rt new) ≡ some s.ptr))
    unfolding stay
    stay-room room h some_size e =
        elim (if-cases (leb new.size room) _ (move a rt test p old new old.size) h e) [
          | inl (fits, x) ↦ inl (ground (arith, fits), ap (λ t. t.ptr) (sym (ok-pair x).0))
          | inr (full, x) ↦
              inr (
                ground (arith, full),
                move-placed a rt test p old new old.size h served some_size x,
              )
        ]

    -- A block that has grown has all bytes of the old one, and the room for the new layout. It stays
    -- where the old block has the room for it; it moves where the old block is too small, to where the
    -- HSA runtime has placed a block of at least the new size. This is for a new layout of an alignment
    -- that the pool gives and whose size rounds up in a word, for an old one of an alignment of at most
    -- the granule, which is a power of two, and with a test that frees nothing, allocates nothing and
    -- writes no byte.
    pub try_grow_keeps :
        (i : ℕ) (h : Heap) {s : Slice} {h' : Heap}
        → IsPool a
        → old.align ≤ a.granule
        → i < old.size
        → try_grow a rt test p old new h ≡ (ok s, h')
        → (s.len ≡ new.size)
          × (h'.bytes (s.ptr + i) ≡ h.bytes (p + i))
          × (((new.size ≤ block_len a rt old) × (s.ptr ≡ p))
              ⊎ ((block_len a rt old < new.size)
                  × (rt.place h (block_len a rt new) ≡ some s.ptr)
                  × (new.size ≤ block_len a rt new)))
    unfolding try_grow grow_checked stay
    try_grow_keeps i h {s} {h'} pool fits below e =
        let (len, bytes) = try_grow-bytes i h below e in
        let (h₁, x, e₁) = >>-ok (refuse_if (ltb new.size old.size)) _ h e in
        let (h₂, y, e₂) = >>-ok (refuse_if (ltb old.align new.align)) _ h₁ e₁ in
        let larger : old.size ≤ new.size =
          let passed = (refuse_if-ok _ h x).0 in ground (arith, passed) in
        elim (if-cases (old.size == 0) (move a rt test p old new old.size)
          (in_place a rt old >>= stay) h₂ e₂) [
            | inl (none, z) ↦ absurd (omega (arith, (==_iff old.size 0).0 none))
            | inr (sized, z) ↦
                let (room, h₃, w, e₃) = >>=-ok (in_place a rt old) stay h₂ z in
                let same : h₃ ≡ h =
                  in_place-heap h₂ w ∙ (refuse_if-ok _ h₁ y).1 ∙ (refuse_if-ok _ h x).1 in
                let size : room ≡ block_len a rt old = in_place-room a rt old h₂ fits w in
                elim (stay-room room h₃ (λ n. omega (arith, n, larger, below)) e₃) [
                  | inl (in_room, stays) ↦ (len, bytes, inl (omega (arith, in_room, size), stays))
                  | inr (full, placed) ↦ (
                    len,
                    bytes,
                    inr (
                      omega (arith, full, size),
                      ap (λ t. rt.place t (block_len a rt new)) (sym same) ∙ placed,
                      (block_len_bounds a rt new pool served).0,
                    ),
                  )
                ]
          ]

    -- An `AllocError` leaves the blocks and the bytes as they were, the old block with them: for a
    -- new layout of an alignment that the pool gives and whose size rounds up in a word, with a test
    -- that frees nothing, allocates nothing and writes no byte, and where the HSA runtime places
    -- blocks apart and frees the one that it placed last.
    pub try_grow_undone :
        (h : Heap) {h' : Heap}
        → IsRuntime rt
        → try_grow a rt test p old new h ≡ (err alloc_error, h')
        → (h'.live ≡ h.live) × (h'.bytes ≡ h.bytes)
    unfolding try_grow grow_checked stay
    try_grow_undone h {h'} laws e =
        elim (>>-err (refuse_if (ltb new.size old.size))
          (refuse_if (ltb old.align new.align) >> grow_checked a rt test p old new) h e) [
            | inl x ↦ same_heap (refuse_if-err _ h x)
            | inr (h₁, x, e₁) ↦
                elim (>>-err (refuse_if (ltb old.align new.align))
                  (grow_checked a rt test p old new) h₁ e₁) [
                    | inl y ↦ same_heap (refuse_if-err _ h₁ y ∙ (refuse_if-ok _ h x).1)
                    | inr (h₂, y, e₂) ↦
                        let same : h₂ ≡ h = (refuse_if-ok _ h₁ y).1 ∙ (refuse_if-ok _ h x).1 in
                        later h' same
                          (elim (if-cases (old.size == 0) (move a rt test p old new old.size)
                            (in_place a rt old >>= stay) h₂ e₂) [
                              | inl (none, z) ↦
                                  move-err a rt test p old new old.size h₂ laws quiet served z
                              | inr (sized, z) ↦ elim (>>=-err (in_place a rt old) stay h₂ z) [
                                | inl w ↦ same_heap (in_place-err h₂ w)
                                | inr (room, h₃, w, e₃) ↦
                                    later h' (in_place-heap h₂ w) (stay-err room h₃ laws e₃)
                              ]
                            ])
                  ]
          ]

    -- A block that has grown by `grow_zeroed` has the bytes of the old one, and zeroes behind them.
    pub try_grow_zeroed_lem :
        (i : ℕ) (h : Heap) {s : Slice} {h' : Heap}
        → i < new.size
        → try_grow_zeroed a rt test p old new h ≡ (ok s, h')
        → h'.bytes (s.ptr + i) ≡ (if ltb i old.size then h.bytes (p + i) else 0)
    unfolding try_grow_zeroed
    try_grow_zeroed_lem i h {s} {h'} below e =
        let (s₁, h₁, grown, e₁) = >>=-ok (try_grow a rt test p old new) _ h e in
        let (h₂, wrote, e₂) =
          >>-ok (write_bytes (s₁.ptr + old.size) 0 (new.size - old.size)) (pure s₁) h₁ e₁ in
        let (q, r) = ok-pair e₂ in
        let there : h'.bytes (s.ptr + i)
            ≡ filled h₁.bytes (s₁.ptr + old.size) 0 (new.size - old.size) (s₁.ptr + i) =
          ap (λ t. t.bytes (s.ptr + i)) (sym r)
          ∙ ap (λ t. t.bytes (s.ptr + i)) (sym (ok-pair wrote).1)
          ∙ ap (λ t. filled h₁.bytes (s₁.ptr + old.size) 0 (new.size - old.size) (t.ptr + i))
              (sym q) in
        elim (Bool-cases (ltb i old.size)) [
          | inl low ↦
              let inside : i < old.size = ground (arith, low) in
              rw (low) (
                there
                ∙ filled-before h₁.bytes _ 0 _ (s₁.ptr + i) (omega arith)
                ∙ (try_grow-bytes i h inside grown).1)
          | inr high ↦
              let above : old.size ≤ i = ground (arith, high) in
              let at : s₁.ptr + i ≡ s₁.ptr + old.size + (i - old.size) = omega arith in
              rw (high) (
                there
                ∙ ap (filled h₁.bytes _ 0 _) at
                ∙ filled-inside h₁.bytes _ 0 _ (i - old.size) (omega arith))
        ]

    -- A block that has shrunk has the bytes of the old one as far as the new layout goes.
    pub try_shrink_keeps :
        (i : ℕ) (h : Heap) {s : Slice} {h' : Heap}
        → i < new.size
        → try_shrink a rt test p old new h ≡ (ok s, h')
        → (s.len ≡ new.size) × (h'.bytes (s.ptr + i) ≡ h.bytes (p + i))
    unfolding try_shrink shrink_checked
    try_shrink_keeps i h {s} {h'} below e =
        let (h₁, x, e₁) = >>-ok (refuse_if (ltb old.size new.size)) _ h e in
        let (h₂, y, e₂) = >>-ok (refuse_if (ltb old.align new.align)) _ h₁ e₁ in
        let same : h₂ ≡ h = (refuse_if-ok _ h₁ y).1 ∙ (refuse_if-ok _ h x).1 in
        elim (if-cases (new.size == 0) _ shrunk h₂ e₂) [
          | inl (none, z) ↦ absurd (omega (arith, (==_iff new.size 0).0 none))
          | inr (sized, z) ↦
              elim (if-cases (leb (bit_and old.size (complement usize_mod a.granule)) new.size) _
                (move a rt test p old new new.size) h₂ z) [
                  | inl (fits, w) ↦
                      let (q, r) = ok-pair w in
                      (
                        ap (λ t. t.len) (sym q),
                        ap (λ t. t.bytes (s.ptr + i)) (sym r ∙ same)
                            ∙ ap (λ t. h.bytes (t.ptr + i)) (sym q),
                      )
                  | inr (full, w) ↦
                      let (len, bytes) = moved new.size i h₂ below w in
                      (len, bytes ∙ ap (λ t. t.bytes (p + i)) same)
                ]
        ]
      where
        shrunk : Program Slice
        shrunk =
            if leb (bit_and old.size (complement usize_mod a.granule)) new.size
            then pure (record { ptr = p; len = new.size })
            else move a rt test p old new new.size
