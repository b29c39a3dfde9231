-- ===== src/Alloc/Native.antt =====
-- `HsaAlloc::native_alloc` of `MemoryPoolAlloc` in hsa-rt/src/ext/amd.rs.
use native.Mathlib.Nat.{div-add-mod, mod-eq_of_lt, mod-lt, mul_comm, mul-mod_right}
use geobacter.Prelude.{
  ℕ, ◌+◌, ◌-◌, ◌*◌, ◌/◌, ◌%◌, ◌<◌, ◌≤◌, ◌≡◌, ◌≢◌, ap, ◌∙◌, arith, ◌==◌, usize_mod, wrapping_add,
  wrapping_mul, if◌then◌else◌, two_pow_pos, mul_mono, multiple_unique,
}
use geobacter.Prelude.Results.{Result, ok, err}
use geobacter.HsaErrors.{HsaError, invalid_allocation}
use geobacter.Layout.{Layout}
use geobacter.Alloc.Heap.{Heap, Runtime, Failure, hsa_allocate}
use geobacter.Alloc.Pool.{PoolAlloc}
use geobacter.Alloc.Placed.{IsPool, Served, block_len, block_len_bounds}

-- `ok_or(Error::InvalidAllocation)?`.
abbrev or_invalid : Result Failure ℕ × Heap → Result HsaError ℕ × Heap
or_invalid (ok p, h) = (ok p, h)
or_invalid (err e, h) = (err invalid_allocation, h)

-- The bytes that are asked for, where there are any.
unfoldable pub native_len : PoolAlloc → ℕ → ℕ
native_len a bytes =
    wrapping_mul usize_mod (wrapping_add usize_mod ((bytes - 1) / a.granule) 1) a.granule

unfoldable native_alloc : PoolAlloc → Runtime → Layout → Heap → Result HsaError ℕ × Heap
unfolding native_len
native_alloc a rt l h =
    if l.size == 0 then (ok l.align, h) else or_invalid (hsa_allocate rt (native_len a l.size) h)

-- `native_alloc` takes as many bytes as `alloc`, although it computes them in another way.
native_len_lem :
    (a : PoolAlloc) (rt : Runtime) (l : Layout)
    → IsPool a
    → Served a l
    → l.size ≢ 0
    → native_len a l.size ≡ block_len a rt l
unfolding native_len
native_len_lem a rt l v s sized =
    ap (λ t. wrapping_mul usize_mod t g) first
    ∙ second
    ∙ multiple_unique g (g * (q + 1)) (block_len a rt l) l.size (mul-mod_right g (q + 1)) whole
        (omega (arith, step, parts, below, some_bytes))
        (omega (arith, step, parts, below, some_bytes)) low high
  where
    g : ℕ
    g = a.granule

    q : ℕ
    q = (l.size - 1) / g

    some_bytes : 1 ≤ l.size
    some_bytes = omega (arith, sized)

    g_pos : 1 ≤ g
    g_pos = omega (arith, v.granule_eq, two_pow_pos v.log)

    step : g * (q + 1) ≡ g * q + g
    step = grind arith

    parts : g * q + (l.size - 1) % g ≡ l.size - 1
    parts = div-add-mod (l.size - 1) g

    below : (l.size - 1) % g < g
    below = mod-lt (l.size - 1) g_pos

    low : l.size ≤ block_len a rt l
    low = (block_len_bounds a rt l v s).0

    high : block_len a rt l < l.size + g
    high = (block_len_bounds a rt l v s).1

    whole : block_len a rt l % g ≡ 0
    whole = (block_len_bounds a rt l v s).2

    fits : g * (q + 1) < usize_mod
    fits = omega (arith, step, parts, below, some_bytes, s.rounds)

    first : wrapping_add usize_mod q 1 ≡ q + 1
    first = omega (arith, fits, mul_mono 1 (q + 1) g (q + 1) g_pos (omega arith))

    second : wrapping_mul usize_mod (q + 1) g ≡ g * (q + 1)
    second = ap (λ t. t % usize_mod) (mul_comm (q + 1) g) ∙ mod-eq_of_lt fits
