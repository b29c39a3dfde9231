-- ===== src/Alloc/Region.antt =====
-- `RegionAlloc` of hsa-rt/src/mem/region_alloc.rs, the allocator over a region for kernel arguments.
-- It calls `hsa_memory_allocate` where `MemoryPoolAlloc` calls `hsa_amd_memory_pool_allocate`; which
-- one it is, is left to the runtime that the programs take.
use geobacter.Prelude.{
  ℕ, ◌==◌, Bool, false, not, ◌&&◌, Option, none, some, ltb, leb, if◌then◌else◌, bit_and, complement,
  usize_mod,
}
use geobacter.Prelude.Results.{Result, ok, err}
use geobacter.HsaErrors.{HsaError, invalid_allocation}
use geobacter.Layout.{Layout}
use geobacter.Alloc.Heap.{Runtime, Program, ◌>>◌, pure}
use geobacter.Alloc.Pool.{PoolAlloc, Slice, refuse_if}
use geobacter.Alloc.Pool

-- `GlobalFlags`, as far as they are read here.
pub record GlobalFlags : Type 0 where
  pub kernel_arg : Bool
  pub fine_grained : Bool

-- What the HSA runtime says of a region.
pub record Region : Type 0 where
  pub runtime_alloc_allowed : Result HsaError Bool
  pub global_flags : Result HsaError (Option GlobalFlags)
  pub runtime_alloc_granule : Result HsaError ℕ
  pub runtime_alloc_alignment : Result HsaError ℕ

abbrev pub usable : Option GlobalFlags → Bool
usable none = false
usable (some flags) = flags.kernel_arg && flags.fine_grained

-- `?` on a result.
abbrev pub and_then :
    {A B : Type 0} → Result HsaError A → (A → Result HsaError B) → Result HsaError B
and_then (ok a) f = f a
and_then (err e) f = err e

-- `impl TryFrom<Region> for RegionAlloc`.
unfoldable pub try_from : Region → Result HsaError PoolAlloc
try_from v = and_then v.runtime_alloc_allowed (λ allowed.
    if not allowed
    then err invalid_allocation
    else and_then v.global_flags (λ flags.
      if not (usable flags)
      then err invalid_allocation
      else and_then v.runtime_alloc_granule (λ granule.
        and_then v.runtime_alloc_alignment
          (λ alignment. ok (record { granule = granule; alignment = alignment })))))

module _ (a : PoolAlloc) (rt : Runtime) where
  unfoldable pub alloc : Layout → Program Slice
  unfolding Pool.alloc
  alloc l = Pool.alloc a rt l

  unfoldable pub dealloc : ℕ → Layout → Program (Unit {0})
  unfolding Pool.dealloc
  dealloc p l = Pool.dealloc a rt p l

  -- As `try_grow` of the pool, with no test of the new block.
  unfoldable pub grow : ℕ → Layout → Layout → Program Slice
  unfolding Pool.try_grow
  grow p old new = Pool.try_grow a rt (λ s. pure tt) p old new

  unfoldable pub grow_zeroed : ℕ → Layout → Layout → Program Slice
  unfolding Pool.try_grow_zeroed
  grow_zeroed p old new = Pool.try_grow_zeroed a rt (λ s. pure tt) p old new

  unfoldable pub shrink_checked : ℕ → Layout → Layout → Program Slice
  unfolding dealloc alloc Pool.move
  shrink_checked p old new =
      if new.size == 0
      then dealloc p old >> alloc new
      else if leb (bit_and old.size (complement usize_mod a.granule)) new.size
      then pure (record { ptr = p; len = new.size })
      else Pool.move a rt (λ s. pure tt) p old new new.size

  -- A shrink to nothing frees the block first.
  unfoldable pub shrink : ℕ → Layout → Layout → Program Slice
  unfolding shrink_checked
  shrink p old new = do
    refuse_if (ltb old.size new.size)
    refuse_if (ltb old.align new.align)
    shrink_checked p old new
