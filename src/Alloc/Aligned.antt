-- ===== src/Alloc/Aligned.antt =====
-- Blocks of more alignment than the pool gives.
use geobacter.Prelude.{
  ℕ, ◌+◌, ◌<◌, ◌≤◌, ◌≡◌, ◌≢◌, refl, arith, some, usize_mod, ltb, leb, lt→ltb, wrapping_add, true,
  false, ◌==◌,
}
use geobacter.Prelude.Results.{err}
use geobacter.Layout.{Layout, IsLayout, padding_needed_for, pad_to_align, round_up, round_up_bounds}
use geobacter.Alloc.Heap.{Heap, Runtime, panicked}
use geobacter.Alloc.Pool.{PoolAlloc, padded, alloc_sized}
use geobacter.Alloc.Pool
use geobacter.Alloc.Region

-- A block of more alignment than the region gives is not to be had: where the HSA runtime places
-- it at or above the length of the allocation, and it ends in the address space, the assertion, which
-- compares its end address with that length, fails.
pub overaligned_panics :
    (a : PoolAlloc) (rt : Runtime) (l l' : Layout) (h : Heap) (p : ℕ)
    → l.size ≢ 0
    → a.alignment < l.align
    → IsLayout l
    → padded a l ≡ some l'
    → rt.place h (wrapping_add usize_mod l'.size (padding_needed_for l' a.granule)) ≡ some p
    → wrapping_add usize_mod l'.size (padding_needed_for l' a.granule) ≤ p
    → p + l.align + l.size ≤ usize_mod
    → (Region.alloc a rt l h).0 ≡ err panicked
unfolding Region.alloc Pool.alloc alloc_sized
overaligned_panics a rt l l' h p sized over v pad placed above top =
    rw (nonzero, high, pad', placed, refused) refl
  where
    nonzero : (l.size == 0) ≡ false
    nonzero = ground (arith, sized)

    high : ltb a.alignment l.align ≡ true
    high = lt→ltb a.alignment l.align over

    pad' : pad_to_align l ≡ some l'
    pad' = rw (high) at pad

    bounds : (p ≤ round_up p l.align) × (round_up p l.align < p + l.align)
    bounds =
        let (low, below, whole) =
          round_up_bounds v.log p v.log_lt (omega (arith, v.align_eq, top)) in
        rw (v.align_eq) (low, below)

    not_leb : (x y : ℕ) → y < x → leb x y ≡ false
    not_leb x y less = ground arith

    refused :
        leb
          (wrapping_add usize_mod (round_up p l.align) l.size)
          (wrapping_add usize_mod l'.size (padding_needed_for l' a.granule))
        ≡ false
    refused = not_leb _ _ (omega (arith, bounds, above, top, sized))
