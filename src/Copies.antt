-- ===== src/Copies.antt =====
-- Copies from the host to a device: `H2DMemcpyObject` and `H2DMemcpyGroup` of runtime-amd/src/mem.rs,
-- `unchecked_async_copy_into` of runtime-amd/src/lib.rs, `RawPoolBox` of runtime-amd/src/boxed.rs.
pub mod Groups
pub mod Account
pub mod Counted
pub mod Ends
mod Tests
use geobacter.Prelude.{
  ℕ, ◌+◌, ◌-◌, Bool, true, false, ◌==◌, ◌||◌, ltb, if◌then◌else◌, Option, none, some, List, [], ◌∷◌,
  ◌++◌, min, max, update, usize_mod, wrapping_add, wrapping_sub, wrapping_mul, checked_mul,
}
use geobacter.Prelude.Results.{Result, ok, err}
use geobacter.HsaErrors.{HsaError, incompatible_arguments, not_initialized, invalid_allocation}
use geobacter.Errors.{Stop, panic, failed, overflow, alloc, from_hsa_error}
use geobacter.Layout.{Layout}
use geobacter.Alloc.Heap.{Heap, Block, Runtime, Failure, alloc_error, panicked}
use geobacter.Alloc.Pool.{PoolAlloc, Slice}
use geobacter.Alloc.Pool
use geobacter.Signal.{Signals, Held, lt_i64, store_value, reset_impl}

-- Bytes in a pool, as `MemoryPoolPtr<[u8]>` and as what `RawPoolBox` owns.
pub record PoolPtr : Type 0 where
  pub ptr : ℕ
  pub len : ℕ

-- The types of the host that can be copied, with their address and the layout of `T`; the numbers are
-- the length and the capacity.
pub data Object : Type 0 where
  lap_box : ℕ → Layout → Object
  lap_slice : ℕ → Layout → ℕ → Object
  lap_vec : ℕ → Layout → ℕ → ℕ → Object

abbrev non_null : ℕ → ℕ → Option PoolPtr
non_null p n = if p == 0 then none else some (record { ptr = p; len = n })

-- `BoxPoolPtr::pool_ptr` of the host's types.
unfoldable pub pool_ptr : Object → Option PoolPtr
pool_ptr (lap_box p l) = if l.size == 0 then none else non_null p l.size
pool_ptr (lap_slice p l n) =
    let bytes = wrapping_mul usize_mod l.size n in if bytes == 0 then none else non_null p bytes
pool_ptr (lap_vec p l n capacity) =
    if (capacity == 0) || (l.size == 0)
    then none
    else non_null p (wrapping_mul usize_mod l.size capacity)

-- `pool_ptr` of `RawPoolBox`.
unfoldable pub raw_pool_ptr : PoolPtr → Option PoolPtr
raw_pool_ptr b = if b.len == 0 then none else some b

-- A copy that was handed to the HSA runtime.
pub record Copy : Type 0 where
  pub into : ℕ
  pub from : ℕ
  pub bytes : ℕ
  pub dst_agent : ℕ
  pub src_agent : ℕ
  pub deps : List ℕ
  pub completion : ℕ

-- The signals, the copies that have not ended, and the memory of the device.
pub record World : Type 0 where
  pub signals : Signals
  pub pending : List Copy
  pub heap : Heap

-- The device: its agents, what the attributes of its pool are, and the allocator over it.
pub record Device : Type 0 where
  pub agent : ℕ
  pub first_host_agent : ℕ
  pub live : Bool
  pub alloc_allowed : Bool
  pub alignment : Result HsaError (Option ℕ)
  pub granule : Result HsaError (Option ℕ)
  pub allocator : Result HsaError PoolAlloc

abbrev unwrap_or_default : Option ℕ → ℕ
unwrap_or_default none = 0
unwrap_or_default (some n) = n

-- What a call returns, with the heap.
abbrev Got : Type 0 → Type 0
Got A = Result Stop A × Heap

-- Both sides of `?` over `HsaError`, in the heap.
abbrev or_return : {A B : Type 0} → Heap → Result HsaError A → (A → Got B) → Got B
or_return h (err e) rest = (err (failed (from_hsa_error e)), h)
or_return h (ok a) rest = rest a

-- Of the HSA runtime: `refusal` is its error where it does not place a block.
module _ (d : Device) (rt : Runtime) (refusal : HsaError) where
  abbrev placed : Heap → ℕ → ℕ → Option ℕ → Got PoolPtr
  placed h size len none = (err (failed (from_hsa_error refusal)), h)
  placed h size len (some p) = (
    ok (record { ptr = p; len = size }),
    record h { live = record { ptr = p; len = len } ∷ h.live },
  )

  -- `MemoryPool::alloc_in_pool`, for a value of `size` bytes.
  unfoldable pub alloc_in_pool : ℕ → Heap → Got PoolPtr
  unfolding from_hsa_error
  alloc_in_pool size h =
      if d.live
      then (if d.alloc_allowed
          then or_return h d.granule
              (λ g. let len = max (unwrap_or_default g) size in placed h size len (rt.place h len))
          else (err (failed (from_hsa_error invalid_allocation)), h))
      else (err (failed (from_hsa_error not_initialized)), h)

  -- `RawPoolBox::new_uninit`.
  unfoldable pub new_uninit : Layout → Heap → Got PoolPtr
  unfolding alloc_in_pool from_hsa_error
  new_uninit l h = or_return h d.alignment λ a.
      if ltb (unwrap_or_default a) l.align
      then (err (failed (from_hsa_error incompatible_arguments)), h)
      else alloc_in_pool l.size h

  abbrev boxed : Layout → Result Failure Slice × Heap → Got PoolPtr
  boxed l (ok s, h) = (ok (record { ptr = s.ptr; len = l.size }), h)
  boxed l (err alloc_error, h) = (err (failed (alloc l)), h)
  boxed l (err panicked, h) = (err panic, h)

  -- `RawPoolBox::new_uninit_slice`, with `Layout::repeat_packed`.
  unfoldable pub new_uninit_slice : PoolAlloc → Layout → ℕ → Heap → Got PoolPtr
  new_uninit_slice a l count h = elim (checked_mul usize_mod l.size count) [
    | none ↦ (err (failed overflow), h)
    | some n ↦
        let packed : Layout = record { size = n; align = l.align } in
        boxed packed (Pool.alloc a rt packed h)
  ]

  -- `H2DMemcpyObject::alloc_for_dev`.
  unfoldable pub alloc_for_dev : Object → Heap → Got PoolPtr
  unfolding new_uninit new_uninit_slice
  alloc_for_dev (lap_box p l) h = new_uninit l h
  alloc_for_dev (lap_slice p l n) h = or_return h d.allocator λ a. new_uninit_slice a l n h
  alloc_for_dev (lap_vec p l n capacity) h = or_return h d.allocator λ a. new_uninit_slice a l n h
