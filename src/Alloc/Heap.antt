-- ===== src/Alloc/Heap.antt =====
-- The memory of one HSA pool or region, as a program of allocator calls sees it.
use geobacter.Prelude.{
  ℕ, ◌+◌, ◌-◌, ◌≤◌, ◌≡◌, ◌⊎◌, ◌&&◌, Option, none, some, List, ◌∷◌, ltb, leb, if◌then◌else◌, All,
}
use geobacter.Prelude.Results.{Result, ok, err}
use geobacter.HsaErrors.{HsaError}

-- A block of the HSA runtime.
pub record Block : Type 0 where
  pub ptr : ℕ
  pub len : ℕ

-- The blocks that are allocated, the bytes at all addresses, and the agents that have been granted
-- access to the block at an address.
pub record Heap : Type 0 where
  pub live : List Block
  pub bytes : ℕ → ℕ
  pub grants : ℕ → List ℕ

-- The functions of the HSA runtime for the pool: where it places a block of so many bytes, if it does
-- (`none` for an error status or a null pointer), the blocks that are left when the one at an address
-- is freed (`none` for an error), and whether it grants agents access to the block at an address.
pub record Runtime : Type 0 where
  pub place : Heap → ℕ → Option ℕ
  pub free : List Block → ℕ → Option (List Block)
  pub allow_access : Heap → List ℕ → ℕ → Result HsaError (Unit {0})

-- Two blocks that share no byte.
abbrev pub Apart : Block → Block → Type 0
Apart a b = (a.ptr + a.len ≤ b.ptr) ⊎ (b.ptr + b.len ≤ a.ptr)

-- What the allocators rely on: a new block shares no byte with the others, and the block that was
-- allocated last can be freed.
pub record IsRuntime (rt : Runtime) : Type 0 where
  pub placed :
      (h : Heap) (len p : ℕ)
      → rt.place h len ≡ some p
      → (1 ≤ p) × All (Apart (record { ptr = p; len = len })) h.live
  pub freed : (bs : List Block) (b : Block) → rt.free (b ∷ bs) b.ptr ≡ some bs

-- How a call ends that does not return `Ok`.
pub data Failure : Type 0 where
  alloc_error panicked : Failure

-- A program over the heap. One that fails hands on the heap as it stands by then.
abbrev pub Program : Type 0 → Type 0
Program A = Heap → Result Failure A × Heap

module _ {B : Type 0} where
  infixl 5 ◌>>=◌ ◌>>◌
  abbrev pub continue :
      {A : Type 0} → Result Failure A × Heap → (A → Program B) → Result Failure B × Heap
  continue (ok a, h) rest = rest a h
  continue (err e, h) rest = (err e, h)

  abbrev pub ◌>>=◌ : {A : Type 0} → Program A → (A → Program B) → Program B
  first >>= rest = λ h. continue (first h) rest

  abbrev pub ◌>>◌ : Program (Unit {0}) → Program B → Program B
  first >> rest = λ h. continue (first h) (λ _. rest)

abbrev pub pure : {A : Type 0} → A → Program A
pure a h = (ok a, h)

abbrev pub fail : {A : Type 0} → Failure → Program A
fail e h = (err e, h)

-- `copy_nonoverlapping`.
abbrev pub copied : (ℕ → ℕ) → ℕ → ℕ → ℕ → ℕ → ℕ
copied bytes src dst n a = if leb dst a && ltb a (dst + n) then bytes (a - dst + src) else bytes a

abbrev pub copy : ℕ → ℕ → ℕ → Program (Unit {0})
copy src dst n h = (ok tt, record h { bytes = copied h.bytes src dst n })

-- `write_bytes`.
abbrev pub filled : (ℕ → ℕ) → ℕ → ℕ → ℕ → ℕ → ℕ
filled bytes dst v n a = if leb dst a && ltb a (dst + n) then v else bytes a

abbrev pub write_bytes : ℕ → ℕ → ℕ → Program (Unit {0})
write_bytes dst v n h = (ok tt, record h { bytes = filled h.bytes dst v n })

-- What the allocators make of the answers of the HSA runtime. An error of a free meets an `expect`.
abbrev pub hand_out : ℕ → Heap → Option ℕ → Result Failure ℕ × Heap
hand_out len h none = (err alloc_error, h)
hand_out len h (some p) = (ok p, record h { live = record { ptr = p; len = len } ∷ h.live })

abbrev pub take_back : Heap → Option (List Block) → Result Failure (Unit {0}) × Heap
take_back h none = (err panicked, h)
take_back h (some bs) = (ok tt, record h { live = bs })

module _ (rt : Runtime) where
  -- `hsa_memory_allocate` and `hsa_amd_memory_pool_allocate`, with the tests behind them.
  abbrev pub hsa_allocate : ℕ → Program ℕ
  hsa_allocate len h = hand_out len h (rt.place h len)

  -- `dealloc_from_pool` and `Region::deallocate` with the `expect` behind them.
  abbrev pub hsa_free : ℕ → Program (Unit {0})
  hsa_free p h = take_back h (rt.free h.live p)
