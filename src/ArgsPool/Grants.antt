-- ===== src/ArgsPool/Grants.antt =====
-- What `ArgsPool::alloc` grants and when it refuses, with no other thread about.
use geobacter.Prelude.{
  ℕ, zero, suc, ◌+◌, ◌%◌, ◌≤◌, ◌<◌, max, ◌≡◌, refl, ap, ◌∙◌, inl, inr, none, some, arith, ltb,
  if◌then◌else◌, usize_mod, wrapping_add, dec_lt, Option-cases,
}
use geobacter.Layout.{Layout, IsLayout, align_to, align_to_total, multiples_gap, mod_max_pow}
use geobacter.ArgsPool.{
  ArgsPool, IsValid, end_byte, alignment_padding, attempt, alloc_loop, try_alloc, cacheline,
}
use geobacter.ArgsPool.Padding.{alignment_padding_lem}

-- A block with its padding does not pass the end of the address space.
pub record Fits (p : ArgsPool) (l : Layout) : Type 0 where
  pub align_pos : 1 ≤ l.align
  pub room : p.base + p.len + l.size + l.align ≤ usize_mod

-- What a round of the loop from `start` may store and return.
pub record Grant (p : ArgsPool) (l : Layout) (start next ptr : ℕ) : Type 0 where
  pub above : start ≤ ptr
  pub near : ptr < start + l.align
  pub aligned : ptr % l.align ≡ 0
  pub next_eq : next ≡ ptr + l.size
  pub inside : next ≤ p.base + p.len

module _ {p : ArgsPool} {l : Layout} (v : IsValid p) (f : Fits p l) where
  attempt-eq :
      (start : ℕ)
      → p.base ≤ start
      → start ≤ p.base + p.len
      → attempt p l start ≡ (
          let ptr = start + alignment_padding start l.align in
          if ltb (p.base + p.len) (ptr + l.size) then none else some (ptr + l.size, ptr))
  unfolding attempt
  attempt-eq start lo hi =
      let (below, aligned) =
        alignment_padding_lem start l.align (omega arith) (omega arith) f.align_pos (omega arith) in
      let ends : end_byte p ≡ p.base + p.len = omega arith in
      let bytes : wrapping_add usize_mod l.size (alignment_padding start l.align)
          ≡ l.size + alignment_padding start l.align =
        omega arith in
      let next : wrapping_add usize_mod start (l.size + alignment_padding start l.align)
          ≡ start + alignment_padding start l.align + l.size =
        omega arith in
      let ptr : wrapping_add usize_mod start (alignment_padding start l.align)
          ≡ start + alignment_padding start l.align =
        omega arith in
      rw (ends, bytes, next, ptr)

  pub attempt-some :
      (start : ℕ) {next ptr : ℕ}
      → p.base ≤ start
      → start ≤ p.base + p.len
      → attempt p l start ≡ some (next, ptr)
      → Grant p l start next ptr
  attempt-some start lo hi e = ground (
    arith,
    attempt-eq start lo hi,
    alignment_padding_lem start l.align (omega arith) (omega arith) f.align_pos (omega arith),
  )

  pub attempt_none :
      (start x : ℕ)
      → p.base ≤ start
      → start ≤ p.base + p.len
      → attempt p l start ≡ none
      → start ≤ x
      → x % l.align ≡ 0
      → p.base + p.len < x + l.size
  attempt_none start x lo hi e h ax = ground (arith, attempt-eq start lo hi, least)
    where
      padded :
          (alignment_padding start l.align < l.align)
          × ((start + alignment_padding start l.align) % l.align ≡ 0)
      padded =
          alignment_padding_lem start l.align (omega arith) (omega arith) f.align_pos (omega arith)

      -- No aligned address lies between `start` and the padded one.
      least : start + alignment_padding start l.align ≤ x
      least = elim (dec_lt x (start + alignment_padding start l.align)) [
        | no h' ↦ omega arith
        | yes h' ↦ absurd (omega (arith, padded, multiples_gap l.align x _ ax padded.1 h'))
      ]

-- A compare-exchange that fails spuriously only repeats the round.
alloc_loop-eq :
    (p : ArgsPool) (l : Layout) (n : ℕ)
    → alloc_loop p l n p.allocated ≡ alloc_loop p l 0 p.allocated
unfolding alloc_loop
alloc_loop-eq p l zero = refl
alloc_loop-eq p l (suc n) = elim (Option-cases (attempt p l p.allocated)) [
  | inl e ↦ rw (e, alloc_loop)
  | inr (r, e) ↦ rw (e, alloc_loop) (alloc_loop-eq p l n ∙ rw (e, alloc_loop))
]

-- The last round, taken apart.
alloc_loop-some :
    (p : ArgsPool) (l : Layout) {ptr : ℕ} {q : ArgsPool}
    → alloc_loop p l 0 p.allocated ≡ (some ptr, q)
    → (next : ℕ) × (attempt p l p.allocated ≡ some (next, ptr))
      × (q ≡ record p { allocated = next })
unfolding alloc_loop
alloc_loop-some p l e = elim (Option-cases (attempt p l p.allocated)) [
  | inl a ↦ absurd (ground arith)
  | inr ((next, ptr'), a) ↦ (next, ground arith, ground arith)
]

alloc_loop_none :
    (p : ArgsPool) (l : Layout) {q : ArgsPool}
    → alloc_loop p l 0 p.allocated ≡ (none, q)
    → (attempt p l p.allocated ≡ none) × (q ≡ p)
unfolding alloc_loop
alloc_loop_none p l e = ground arith

-- The layout that `alloc` asks for: aligned to a cache line at least.
abbrev pub widened : Layout → Layout
widened l = record { size = l.size; align = max l.align cacheline }

-- A request that `alloc` can be called with: a layout of Rust, which stays below the top of the
-- address space when it is placed in the pool.
pub record Request (p : ArgsPool) (l : Layout) : Type 0 where
  pub layout : IsLayout l
  pub room : p.base + p.len + l.size + max l.align cacheline ≤ usize_mod

module _ {p : ArgsPool} {l : Layout} (v : IsValid p) (r : Request p l) where
  fits : Fits p (widened l)
  fits = omega (arith, r.room)

  try_alloc-eq : (n : ℕ) → try_alloc p l n ≡ alloc_loop p (widened l) 0 p.allocated
  unfolding try_alloc
  try_alloc-eq n =
      let widen : align_to l cacheline ≡ some (widened l) =
        align_to_total l 7 r.layout (omega arith) (omega (arith, r.room)) in
      rw (widen, try_alloc) (alloc_loop-eq p (widened l) n)

  -- A granted block starts in the free part of the pool, aligned to its layout and to a cache line,
  -- with less padding than one alignment; it ends inside the pool, and the counter moves to its end.
  -- The number of spurious failures of the compare-exchange does not matter.
  pub try_alloc-some :
      (n : ℕ) {ptr : ℕ} {q : ArgsPool}
      → try_alloc p l n ≡ (some ptr, q)
      → (p.allocated ≤ ptr)
        × (ptr < p.allocated + max l.align cacheline)
        × (ptr % l.align ≡ 0)
        × (ptr % cacheline ≡ 0)
        × (q ≡ record p { allocated = ptr + l.size })
        × IsValid q
  try_alloc-some n {ptr} {q} e =
      let (next, a, moved) = alloc_loop-some p (widened l) (rw (← try_alloc-eq n) e) in
      let g = attempt-some v fits p.allocated v.lower v.upper a in
      let aligned = mod_max_pow r.layout.log 7 ptr (rw (← r.layout.align_eq) g.aligned) in
      (
        g.above,
        g.near,
        rw r.layout.align_eq aligned.0,
        aligned.1,
        moved ∙ ap (λ t. record p { allocated = t }) g.next_eq,
        rw moved (omega (arith, v, g)),
      )

  -- A refusal leaves the pool as it was, and no aligned block fits into what is left of it.
  pub try_alloc_none :
      (n x : ℕ) {q : ArgsPool}
      → try_alloc p l n ≡ (none, q)
      → p.allocated ≤ x
      → x % max l.align cacheline ≡ 0
      → (q ≡ p) × (p.base + p.len < x + l.size)
  try_alloc_none n x e h ax =
      let (a, same) = alloc_loop_none p (widened l) (rw (← try_alloc-eq n) e) in
      (same, attempt_none v fits p.allocated x v.lower v.upper a h ax)

  -- Where an aligned block fits, `alloc` succeeds, at or below that block.
  pub try_alloc_total :
      (n x : ℕ)
      → p.allocated ≤ x
      → x % max l.align cacheline ≡ 0
      → x + l.size ≤ p.base + p.len
      → (ptr : ℕ) × (try_alloc p l n ≡ (some ptr, record p { allocated = ptr + l.size }))
        × (ptr ≤ x)
  unfolding alloc_loop
  try_alloc_total n x h ax room = elim (Option-cases (attempt p (widened l) p.allocated)) [
    | inl a ↦ absurd (omega (arith, attempt_none v fits p.allocated x v.lower v.upper a h ax))
    | inr ((next, ptr), a) ↦
        let g = attempt-some v fits p.allocated v.lower v.upper a in
        (
          ptr,
          try_alloc-eq n
              ∙ rw (a, alloc_loop) (ap (λ t. (some ptr, record p { allocated = t })) g.next_eq),
          elim (dec_lt x ptr) [
            | no h' ↦ omega arith
            | yes h' ↦ absurd (omega (arith, g, multiples_gap _ x ptr ax g.aligned h'))
          ],
        )
  ]
