-- ===== src/ArgsPool/Stride.antt =====
-- Every block takes a cache line of the pool at least, whatever its layout asks for.
use geobacter.Prelude.{
  ℕ, zero, suc, ◌+◌, ◌*◌, ◌%◌, ◌≤◌, ◌<◌, ◌≡◌, refl, sym, ap, ◌∙◌, inl, inr, Option, none, some,
  arith, Option-cases, subst,
}
use mathlib.Core.Option.{none-ne-some}
use geobacter.Prelude.Results.{ok}
use geobacter.Layout.{Layout, multiples_gap}
use geobacter.ArgsPool.{Arena, Device, ArgsPool, IsValid, new, try_alloc, cacheline}
use geobacter.ArgsPool.Grants.{Request, try_alloc-some}
use geobacter.ArgsPool.Construct.{IsArena, new_lem}

abbrev granted : Option ℕ × ArgsPool → Option ArgsPool
granted (none, q) = none
granted (some ptr, q) = some q

granted-some :
    (r : Option ℕ × ArgsPool) {q : ArgsPool} → granted r ≡ some q → (ptr : ℕ) × (r ≡ (some ptr, q))
granted-some (none, q) h = absurd (cc h)
granted-some (some ptr, q) h = (ptr, ground arith)

-- A client that asks for `k` blocks of one layout, one after the other.
pub alloc_many : ArgsPool → Layout → ℕ → Option ArgsPool
alloc_many p l zero = some p
alloc_many p l (suc k) = elim (alloc_many p l k) [
  | none ↦ none
  | some q ↦ granted (try_alloc q l 0)
]

alloc_many-suc :
    (p : ArgsPool) (l : Layout) (k : ℕ) {q : ArgsPool}
    → alloc_many p l (suc k) ≡ some q
    → (m : ArgsPool) × (ptr : ℕ) × (alloc_many p l k ≡ some m) × (try_alloc m l 0 ≡ (some ptr, q))
unfolding alloc_many
alloc_many-suc p l k {q} e = elim (Option-cases (alloc_many p l k)) [
  | inl a ↦
      let failed : alloc_many p l (suc k) ≡ none = rw (a, alloc_many) in
      absurd (none-ne-some q (sym failed ∙ e))
  | inr (m, a) ↦
      let last : alloc_many p l (suc k) ≡ granted (try_alloc m l 0) = rw (a, alloc_many) in
      let (ptr, g) = granted-some (try_alloc m l 0) (sym last ∙ e) in (m, ptr, a, g)
]

-- The pool after `k + 1` blocks, the last of them at `last`.
record After (p : ArgsPool) (l : Layout) (k : ℕ) (q : ArgsPool) : Type 0 where
  last : ℕ
  on_line : last % cacheline ≡ 0
  far : p.base + cacheline * k ≤ last
  counter : q.allocated ≡ last + l.size
  same_base : q.base ≡ p.base
  same_len : q.len ≡ p.len
  valid : IsValid q

-- One more block from a pool over the same bytes.
next-After :
    {p m q : ArgsPool} {l : Layout} {ptr : ℕ} (k : ℕ)
    → IsValid m
    → Request p l
    → m.base ≡ p.base
    → m.len ≡ p.len
    → ((x : ℕ) → m.allocated ≤ x → x % cacheline ≡ 0 → p.base + cacheline * k ≤ x)
    → try_alloc m l 0 ≡ (some ptr, q)
    → After p l k q
next-After {p} {m} {q} {l} {ptr} k v r base len far a =
    let request : Request m l = record {
      layout = r.layout;
      room = omega (arith, r.room, base, len);
    } in
    let g = try_alloc-some v request 0 a in
    record {
      last = ptr;
      on_line = g.3;
      far = far ptr g.0 g.3;
      counter = ap ArgsPool.allocated g.4;
      same_base = ap ArgsPool.base g.4 ∙ base;
      same_len = ap ArgsPool.len g.4 ∙ len;
      valid = g.5;
    }

alloc_many_zero : (p : ArgsPool) (l : Layout) {m : ArgsPool} → alloc_many p l 0 ≡ some m → p ≡ m
unfolding alloc_many
alloc_many_zero p l e = cc

alloc_many-After :
    (p : ArgsPool) (l : Layout) (k : ℕ) {q : ArgsPool}
    → IsValid p
    → Request p l
    → 1 ≤ l.size
    → alloc_many p l (suc k) ≡ some q
    → After p l k q
alloc_many-After p l zero {q} v r s e =
    let (m, ptr, first, a) = alloc_many-suc p l zero e in
    next-After zero v r refl refl (λ x h c. omega (arith, v))
      (subst (λ t. try_alloc t l 0 ≡ (some ptr, q)) (sym (alloc_many_zero p l first)) a)
alloc_many-After p l (suc k) v r s e =
    let (m, ptr, before, a) = alloc_many-suc p l (suc k) e in
    let ih = alloc_many-After p l k v r s before in
    next-After (suc k) ih.valid r ih.same_base ih.same_len
      (λ x h c.
        omega (
          arith,
          ih.far,
          multiples_gap cacheline ih.last x ih.on_line c (omega (arith, ih.counter)),
        ))
      a

-- `k + 1` blocks of a layout need `k` cache lines and one more block.
pub alloc_many_stride :
    (p : ArgsPool) (l : Layout) (k : ℕ) {q : ArgsPool}
    → IsValid p
    → Request p l
    → 1 ≤ l.size
    → alloc_many p l (suc k) ≡ some q
    → cacheline * k + l.size ≤ p.len
alloc_many_stride p l k v r s e =
    let a = alloc_many-After p l k v r s e in
    omega (arith, a.far, a.counter, a.same_base, a.same_len, a.valid)

-- A pool that `new` made for `k + 1` kernels runs out before the last of them where the arguments
-- are smaller than a cache line and the granule does not make up for it: `new` counts the bytes of
-- the arguments, and `alloc` takes whole cache lines.
pub new_too_small :
    {arena : Arena} (d : Device) (l : Layout) (k : ℕ) {p : ArgsPool}
    → IsArena arena
    → new arena d l (suc k) ≡ ok p
    → Request p l
    → 1 ≤ l.size
    → p.len < cacheline * k + l.size
    → alloc_many p l (suc k) ≡ none
new_too_small d l k {p} laws made r s small = elim (Option-cases (alloc_many p l (suc k))) [
  | inl a ↦ a
  | inr (q, a) ↦
      absurd (omega (arith, small, alloc_many_stride p l k (new_lem d l (suc k) laws made).0 r s a))
]
