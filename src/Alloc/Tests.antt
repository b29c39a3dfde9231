-- ===== src/Alloc/Tests.antt =====
-- A pool with granules of 4 KiB, whose blocks are placed above 1 MiB, and one device that can not be
-- granted access.
use geobacter.Prelude.{
  ℕ, ◌+◌, ◌-◌, ◌≤◌, ◌<◌, ◌⊎◌, ◌≡◌, inr, refl, arith, true, false, Option, none, some, List, [], ◌∷◌,
  All, max, ◌==◌, ==_iff, if◌then◌else◌,
}
use geobacter.Prelude.Results.{Result, ok, err}
use geobacter.HsaErrors.{HsaError, general}
use geobacter.Layout.{
  Layout, align_to, pad_to_align, padding_needed_for, round_up, from_size_align, is_power_of_two,
}
use geobacter.Alloc.Heap.{Block, Heap, Runtime, Apart, IsRuntime}
use geobacter.Alloc.Pool.{
  PoolAlloc, try_grow, alloc, alloc_sized, dealloc, in_place, settle, move, grow_checked, accept,
  try_shrink, shrink_checked,
}
use geobacter.Alloc.Placed.{IsPool, Served, block_len}
use geobacter.Alloc.Native.{native_len}
use geobacter.Alloc.Resized.{try_grow_keeps, try_grow_undone}
use geobacter.Alloc.Accessible.{Accessible, get, set, unset, agents}
use geobacter.Alloc.Lap.{
  Device, default_disallowed, default_allowed, grant_access, grant_access_mut, update_access_grants,
}
use geobacter.Alloc.Grants.{grant_access_undone, update_access_grants-Quiet}

-- The first address behind all blocks.
abbrev top : List Block → ℕ
top [] = 1048576
top (b ∷ bs) = max (b.ptr + b.len) (top bs)

abbrev remove : List Block → ℕ → Option (List Block)
remove [] p = none
remove (b ∷ bs) p = let rest = remove bs p in if b.ptr == p then some bs else keep b rest
  where
    keep : Block → Option (List Block) → Option (List Block)
    keep b none = none
    keep b (some bs) = some (b ∷ bs)

-- Agent 13 is refused.
abbrev allow : List ℕ → Result HsaError (Unit {0})
allow [] = ok tt
allow (x ∷ xs) = let rest = allow xs in if x == 13 then err general else rest

abbrev rt : Runtime
rt = record { place = λ h n. some (top h.live); free = remove; allow_access = λ h to p. allow to }

top-Apart : (bs : List Block) (p n : ℕ) → top bs ≤ p → All (Apart (record { ptr = p; len = n })) bs
top-Apart [] p n h = tt
top-Apart (b ∷ bs) p n h = (inr (omega arith), top-Apart bs p n (omega arith))

top_pos : (bs : List Block) → 1 ≤ top bs
top_pos [] = omega arith
top_pos (b ∷ bs) = omega (arith, top_pos bs)

rt-IsRuntime : IsRuntime rt
rt-IsRuntime = record {
  placed = λ h n p e.
      let at : top h.live ≡ p = cc e in
      (omega (arith, top_pos h.live), top-Apart h.live p n (omega (arith, at)));
  freed = λ bs b. rw ((==_iff b.ptr b.ptr).1 refl) refl;
}

abbrev pool : PoolAlloc
pool = record { granule = 4096; alignment = 64 }

-- Two granules for 5000 bytes.
native_two : native_len pool 5000 ≡ 8192
unfolding native_len
native_two = refl

abbrev small : Layout
small = record { size = 4096; align = 64 }

abbrev large : Layout
large = record { size = 8000; align = 64 }

abbrev heap : Heap
heap = record {
  live = record { ptr = 1048576; len = 4096 } ∷ [];
  bytes = λ a. a - 1048576 + 1;
  grants = λ p. [];
}

large-Served : Served pool large
large-Served = record { aligned = omega arith; rounds = omega arith }

abbrev devices : ℕ → Option ℕ
devices id = some (id + 10)

-- Device 2 has access; its agent is 12. Agent 13 is that of device 3.
abbrev second : Accessible
second = record { bits = 4 }

abbrev third : Accessible
third = record { bits = 8 }

pool-IsPool : IsPool pool
pool-IsPool = record { log = 12; log_lt = omega arith; granule_eq = refl }

try_grow_keeps_example :
    (large.size ≡ 8000)
    × ((try_grow pool rt (update_access_grants devices rt second) 1048576 small large heap).1.bytes
          (1052672 + 7)
        ≡ heap.bytes (1048576 + 7))
    × (((large.size ≤ block_len pool rt small) × (◌≡◌ {A = ℕ} 1052672 1048576))
        ⊎ ((block_len pool rt small < large.size)
            × (rt.place heap (block_len pool rt large) ≡ some 1052672)
            × (large.size ≤ block_len pool rt large)))
unfolding try_grow grow_checked in_place move alloc alloc_sized dealloc settle update_access_grants
    agents align_to pad_to_align padding_needed_for round_up from_size_align is_power_of_two
try_grow_keeps_example =
    try_grow_keeps pool rt (update_access_grants devices rt second) 1048576 small large
      (update_access_grants-Quiet devices rt second) large-Served 7 heap
      {s = record { ptr = 1052672; len = 8000 }} pool-IsPool (omega arith) (omega arith) refl

try_grow_undone_example :
    ((try_grow pool rt (update_access_grants devices rt third) 1048576 small large heap).1.live
      ≡ heap.live)
    × ((try_grow pool rt (update_access_grants devices rt third) 1048576 small large heap).1.bytes
        ≡ heap.bytes)
unfolding try_grow grow_checked in_place move alloc alloc_sized dealloc settle update_access_grants
    agents align_to pad_to_align padding_needed_for round_up from_size_align is_power_of_two
try_grow_undone_example =
    try_grow_undone pool rt (update_access_grants devices rt third) 1048576 small large
      (update_access_grants-Quiet devices rt third) large-Served heap rt-IsRuntime refl

-- A page of arguments that is to start on a page.
abbrev page : Layout
page = record { size = 4096; align = 4096 }

abbrev device : Device
device = record { id = 3; agent = 13 }

-- The grant is refused, and device 2 keeps its access.
grant_access_undone_example :
    (get
        (grant_access devices rt
          (λ a. ok default_disallowed)
          device
          (some 1048576)
          second
          second
          heap).accessible
        2
      ≡ get second 2)
    × ((grant_access devices rt
          (λ a. ok default_disallowed)
          device
          (some 1048576)
          second
          second
          heap).heap
        ≡ heap)
unfolding grant_access get set unset agents
grant_access_undone_example =
    grant_access_undone devices rt (λ a. ok default_disallowed) device (some 1048576) second second
      heap 2 refl

-- Where the pool is open to all devices, `&mut LapAlloc` does not note the device and `&LapAlloc` does.
noted_test :
    (get
        (grant_access_mut devices rt (λ a. ok default_allowed) device none second heap).accessible
        3
      ≡ true)
    × (get
          (grant_access devices rt
            (λ a. ok default_allowed)
            device
            none
            second
            second
            heap).accessible
          3
        ≡ false)
unfolding grant_access_mut grant_access get set
noted_test = (refl, refl)

-- Without a pointer, a device that is to have access is not noted either.
early_test :
    get
      (grant_access devices rt
        (λ a. ok default_disallowed)
        device
        none
        second
        second
        heap).accessible
      3
    ≡ true
unfolding grant_access get set
early_test = refl

-- The mask of `shrink` takes one binary digit from the size instead of the part of a granule.
shrink_test :
    ((try_shrink pool rt
        (accept pool rt)
        1048576
        (record { size = 16384; align = 64 })
        (record { size = 16000; align = 64 })
        heap).0
      ≡ ok (record { ptr = 1052672; len = 16000 }))
unfolding try_shrink shrink_checked move alloc alloc_sized dealloc settle padding_needed_for
    round_up
shrink_test = refl
