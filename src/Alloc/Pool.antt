-- ===== src/Alloc/Pool.antt =====
-- `MemoryPoolAlloc` of hsa-rt/src/ext/amd.rs: allocation in granules, and growing and shrinking with
-- a test of the new block that may refuse it.
use geobacter.Prelude.{
  ℕ, ◌+◌, ◌-◌, Bool, true, false, ◌==◌, Option, none, some, ltb, leb, if◌then◌else◌, usize_mod,
  wrapping_add, bit_and, complement,
}
use geobacter.Prelude.Results.{Result, ok, err}
use geobacter.Layout.{Layout, align_to, pad_to_align, padding_needed_for, round_up}
use geobacter.Alloc.Heap.{
  Heap, Runtime, Failure, alloc_error, panicked, Program, ◌>>=◌, ◌>>◌, pure, fail, copy,
  write_bytes, hsa_allocate, hsa_free,
}

-- The granule and the alignment of the pool or the region.
pub record PoolAlloc : Type 0 where
  pub granule : ℕ
  pub alignment : ℕ

-- A pointer to a slice of bytes.
pub record Slice : Type 0 where
  pub ptr : ℕ
  pub len : ℕ

-- `ok_or(..)?` and `unwrap` on an option.
abbrev pub or_fail : {A : Type 0} → Failure → Option A → Program A
or_fail e none = fail e
or_fail e (some a) = pure a

-- `return Err(AllocError)` under a test.
abbrev pub refuse_if : Bool → Program (Unit {0})
refuse_if true = fail alloc_error
refuse_if false = pure tt

module _ (a : PoolAlloc) where
  abbrev pub padded : Layout → Option Layout
  padded l = if ltb a.alignment l.align then pad_to_align l else some l

  -- The pointer is moved up to an alignment that the pool does not give, under an assertion.
  abbrev pub align_pointer : Layout → ℕ → ℕ → Program ℕ
  align_pointer l len dest =
      let aligned = round_up dest l.align in
      if ltb a.alignment l.align
      then (if leb (wrapping_add usize_mod aligned l.size) len then pure aligned else fail panicked)
      else pure dest

  module _ (rt : Runtime) where
    unfoldable pub alloc_sized : Layout → Program Slice
    alloc_sized l = do
      l' ← or_fail panicked (padded l)
      let len = wrapping_add usize_mod l'.size (padding_needed_for l' a.granule)
      dest ← hsa_allocate rt len
      dest' ← align_pointer l len dest
      pure (record { ptr = dest'; len = l.size })

    -- `AllocRef::alloc`. The dangling pointer of a layout is its alignment.
    unfoldable pub alloc : Layout → Program Slice
    alloc l = if l.size == 0 then pure (record { ptr = l.align; len = 0 }) else alloc_sized l

    -- `AllocRef::dealloc`.
    unfoldable pub dealloc : ℕ → Layout → Program (Unit {0})
    dealloc p l = if l.size == 0 then pure tt else hsa_free rt p

    -- The size that a block of the layout has in place.
    unfoldable pub in_place : Layout → Program ℕ
    in_place l = do
      l' ← or_fail alloc_error (align_to l a.granule)
      l'' ← or_fail panicked (pad_to_align l')
      pure l''.size

    -- The match on what `try` says of the new block.
    unfoldable pub settle :
        Slice → Layout → Result Failure (Unit {0}) × Heap → Result Failure (Unit {0}) × Heap
    unfolding dealloc
    settle new l (ok _, h) = (ok tt, h)
    settle new l (err panicked, h) = (err panicked, h)
    settle new l (err alloc_error, h) = (dealloc new.ptr l >> fail alloc_error) h

    -- The end of a move to a new block: the test, the copy of `n` bytes, and the old block is freed.
    unfoldable pub move : (Slice → Program (Unit {0})) → ℕ → Layout → Layout → ℕ → Program Slice
    unfolding alloc settle dealloc
    move test p old new n = do
      s ← alloc new
      λ h. settle s new (test s h)
      copy p s.ptr n
      dealloc p old
      pure s

    -- The part of `try_grow` behind the checks.
    unfoldable pub grow_checked : (Slice → Program (Unit {0})) → ℕ → Layout → Layout → Program Slice
    unfolding in_place move
    grow_checked test p old new = if old.size == 0 then move test p old new old.size else do
      room ← in_place old
      if leb new.size room
          then pure (record { ptr = p; len = new.size })
          else move test p old new old.size

    -- `try_grow`.
    unfoldable pub try_grow : (Slice → Program (Unit {0})) → ℕ → Layout → Layout → Program Slice
    unfolding grow_checked
    try_grow test p old new = do
      refuse_if (ltb new.size old.size)
      refuse_if (ltb old.align new.align)
      grow_checked test p old new

    -- `try_grow_zeroed`.
    unfoldable pub try_grow_zeroed :
        (Slice → Program (Unit {0})) → ℕ → Layout → Layout → Program Slice
    unfolding try_grow
    try_grow_zeroed test p old new = do
      s ← try_grow test p old new
      write_bytes (s.ptr + old.size) 0 (new.size - old.size)
      pure s

    -- The part of `try_shrink` behind the checks.
    unfoldable pub shrink_checked :
        (Slice → Program (Unit {0})) → ℕ → Layout → Layout → Program Slice
    unfolding move alloc dealloc
    shrink_checked test p old new =
        if new.size == 0
        then (do s ← alloc new; dealloc p old; pure s)
        else if leb (bit_and old.size (complement usize_mod a.granule)) new.size
        then pure (record { ptr = p; len = new.size })
        else move test p old new new.size

    -- `try_shrink`.
    unfoldable pub try_shrink : (Slice → Program (Unit {0})) → ℕ → Layout → Layout → Program Slice
    unfolding shrink_checked
    try_shrink test p old new = do
      refuse_if (ltb old.size new.size)
      refuse_if (ltb old.align new.align)
      shrink_checked test p old new

    -- `grow`, `grow_zeroed` and `shrink` of `AllocRef`.
    abbrev pub accept : Slice → Program (Unit {0})
    accept s = pure tt

    unfoldable pub grow : ℕ → Layout → Layout → Program Slice
    unfolding try_grow
    grow p old new = try_grow accept p old new

    unfoldable pub grow_zeroed : ℕ → Layout → Layout → Program Slice
    unfolding try_grow_zeroed
    grow_zeroed p old new = try_grow_zeroed accept p old new

    unfoldable pub shrink : ℕ → Layout → Layout → Program Slice
    unfolding try_shrink
    shrink p old new = try_shrink accept p old new
