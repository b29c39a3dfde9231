-- ===== src/ArgsPool.antt =====
-- runtime-amd/src/module/args_pool.rs: a bump allocator for kernel arguments over one block of
-- memory. The pool is a record of addresses; a thread's view of the shared counter is in `Race`.
pub mod Padding
pub mod Grants
pub mod Construct
pub mod Stride
pub mod Race
mod Tests
use geobacter.Prelude.{
  ℕ, zero, suc, ◌+◌, ◌-◌, ◌%◌, ◌<◌, ◌≤◌, max, ◌≡◌, Option, none, some, ltb, if◌then◌else◌,
  usize_mod, wrapping_add, wrapping_sub,
}
use geobacter.Prelude.Results.{Result, ok, err, ok_or, map_err, ◌>>=◌}
use geobacter.Errors.{Error, overflow, alloc, TryReserveError, from_try_reserve_error}
use geobacter.Layout.{Layout, align_to, repeat}

-- The kernel arguments region of the accelerator, as `RegionAlloc` reports it.
pub record Device : Type 0 where
  pub alloc_granule : ℕ
  pub alloc_alignment : ℕ

pub record ArgsPool : Type 0 where
  pub device : Device
  pub base : ℕ
  pub len : ℕ
  pub allocated : ℕ

-- `alloc_wg::vec::Vec` in the region: a buffer of so many bytes, and its turn into a boxed slice.
pub record Arena : Type 0 where
  pub try_with_capacity : ℕ → Result TryReserveError ℕ
  pub try_into_boxed_slice : ℕ → ℕ → Result TryReserveError ℕ

abbrev pub end_byte : ArgsPool → ℕ
end_byte p = wrapping_add usize_mod p.base p.len

-- `max` with the granule, the allocation, and the record that `new` and `new_arena` both end with.
unfoldable pub new_arena : Arena → Device → ℕ → Result Error ArgsPool
unfolding from_try_reserve_error
new_arena arena d bytes = do
  let bytes' = max d.alloc_granule bytes
  ptr ← map_err from_try_reserve_error (arena.try_with_capacity bytes')
  base ← map_err from_try_reserve_error (arena.try_into_boxed_slice ptr bytes')
  ok (record { device = d; base = base; len = bytes'; allocated = ptr })

-- `l` is the layout of `InvocArgs<A>`.
unfoldable pub new : Arena → Device → Layout → ℕ → Result Error ArgsPool
unfolding new_arena
new arena d l count =
    if ltb d.alloc_alignment l.align
    then err (alloc l)
    else (ok_or (repeat l count) overflow >>= λ r. new_arena arena d r.size)

-- `impl Clone`: `none` is the panic of the `expect`.
unfoldable pub clone : Arena → ArgsPool → Option ArgsPool
clone arena p = elim (new_arena arena p.device p.len) [ ok q ↦ some q | err e ↦ none ]

unfoldable pub alignment_padding : ℕ → ℕ → ℕ
alignment_padding size align =
    wrapping_sub usize_mod (align - wrapping_sub usize_mod size 1 % align) 1

-- One round of the loop of `alloc` from the value `start` that was read: the value that the
-- compare-exchange stores, and the address that is returned if it succeeds.
unfoldable pub attempt : ArgsPool → Layout → ℕ → Option (ℕ × ℕ)
unfolding alignment_padding
attempt p l start =
    let padding = alignment_padding start l.align in
    let alloc_size = wrapping_add usize_mod l.size padding in
    if ltb (end_byte p) (wrapping_add usize_mod start alloc_size)
    then none
    else some (wrapping_add usize_mod start alloc_size, wrapping_add usize_mod start padding)

-- `alloc` with no other thread about: the weak compare-exchange may fail `spurious` times, and
-- hands back the value that is there.
alloc_loop : ArgsPool → Layout → ℕ → ℕ → Option ℕ × ArgsPool
alloc_loop p l zero start = elim (attempt p l start) [
  | none ↦ (none, p)
  | some (next, ptr) ↦ (some ptr, record p { allocated = next })
]
alloc_loop p l (suc spurious) start = elim (attempt p l start) [
  | none ↦ (none, p)
  | some _ ↦ alloc_loop p l spurious p.allocated
]

abbrev pub cacheline : ℕ
cacheline = 128

-- `l` is the layout of `A`.
unfoldable pub try_alloc : ArgsPool → Layout → ℕ → Option ℕ × ArgsPool
unfolding alloc_loop
try_alloc p l spurious = elim (align_to l cacheline) [
  | none ↦ (none, p)
  | some l' ↦ alloc_loop p l' spurious p.allocated
]

unfoldable pub wash : ArgsPool → ArgsPool
wash p = record p { allocated = p.base }

pub record IsValid (p : ArgsPool) : Type 0 where
  pub base_pos : 1 ≤ p.base
  pub no_wrap : p.base + p.len < usize_mod
  pub lower : p.base ≤ p.allocated
  pub upper : p.allocated ≤ p.base + p.len
