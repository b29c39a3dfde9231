-- ===== src/Device/Pools.antt =====
-- The memory pools that `HsaAmdGpuAccel::new` of runtime-amd/src/lib.rs takes, and the size of its queues.
use geobacter.Prelude.{
  ℕ, ◌/◌, ◌≤◌, ◌≡◌, ◌⊎◌, Bool, true, false, ◌&&◌, ltb, if◌then◌else◌, Option, none, some, List, [],
  ◌∷◌, All, get_elem?, max,
}
use geobacter.Prelude.Results.{Result, ok, err}
use geobacter.HsaErrors.{HsaError}

pub record GlobalFlags : Type 0 where
  pub kernel_arg : Bool
  pub fine_grained : Bool
  pub coarse_grained : Bool

-- A pool, with what its attributes are, and its allocator.
pub record MemoryPool : Type 0 where
  pub alloc_allowed : Bool
  pub global_flags : Result HsaError (Option GlobalFlags)
  pub total_size : Result HsaError ℕ
  pub allocator : Result HsaError ℕ

abbrev selected : (GlobalFlags → Bool) → Result HsaError (Option GlobalFlags) → Bool
selected select (err e) = false
selected select (ok none) = false
selected select (ok (some f)) = select f

-- Both filters.
abbrev pub usable : (GlobalFlags → Bool) → MemoryPool → Bool
usable select p = p.alloc_allowed && selected select p.global_flags

abbrev or_zero : Result HsaError ℕ → ℕ
or_zero (err e) = 0
or_zero (ok n) = n

abbrev pub size : MemoryPool → ℕ
size p = or_zero p.total_size

-- `max_by_key`, which returns the last of those that are greatest, over the pools that pass the filters.
abbrev pub greater : MemoryPool → Option MemoryPool → MemoryPool
greater p none = p
greater p (some q) = if ltb (size q) (size p) then p else q

unfoldable pub largest : (GlobalFlags → Bool) → List MemoryPool → Option MemoryPool
largest select [] = none
largest select (p ∷ ps) =
    let rest = largest select ps in if usable select p then some (greater p rest) else rest

abbrev pub allocator_of : Option MemoryPool → Result HsaError (Option ℕ)
allocator_of none = ok none
allocator_of (some p) = elim p.allocator [ ok a ↦ ok (some a) | err e ↦ err e ]

unfoldable pub find_pool_flags : (GlobalFlags → Bool) → List MemoryPool → Result HsaError (Option ℕ)
unfolding largest
find_pool_flags select ps = allocator_of (largest select ps)

unfoldable pub find_fine_pool : List MemoryPool → Result HsaError (Option ℕ)
unfolding find_pool_flags
find_fine_pool ps = find_pool_flags (λ f. f.fine_grained) ps

unfoldable pub find_coarse_pool : List MemoryPool → Result HsaError (Option ℕ)
unfolding find_pool_flags
find_coarse_pool ps = find_pool_flags (λ f. f.coarse_grained) ps

-- The size of a queue, of the range that the agent allows and of the least size that is asked for.
unfoldable pub queue_size : (start end : ℕ) → Option ℕ → ℕ
queue_size start end none = end / 4
queue_size start end (some least) = max start least

-- No larger pool could have been taken.
abbrev pub Largest : (GlobalFlags → Bool) → List MemoryPool → MemoryPool → Type 0
Largest select ps p = All (λ q. (usable select q ≡ false) ⊎ (size q ≤ size p)) ps

-- What `largest` finds.
abbrev pub Chosen : (GlobalFlags → Bool) → List MemoryPool → Option MemoryPool → Type 0
Chosen select ps none = All (λ q. usable select q ≡ false) ps
Chosen select ps (some p) =
    ((i : ℕ) × (get_elem? ps i ≡ some p)) × (usable select p ≡ true) × Largest select ps p
