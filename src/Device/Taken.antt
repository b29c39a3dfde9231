-- ===== src/Device/Taken.antt =====
-- Which pool is taken.
use geobacter.Prelude.{
  ℕ, suc, ◌≤◌, ◌≡◌, refl, sym, ap, subst, ◌⊎◌, inl, inr, Bool, true, false, Bool-cases, ltb,
  if◌then◌else◌, Option, none, some, List, [], ◌∷◌, All, All-map, get_elem?, arith,
}
use geobacter.Prelude.Results.{ok}
use geobacter.Device.Pools.{
  GlobalFlags, MemoryPool, usable, size, greater, largest, allocator_of, find_pool_flags, Chosen,
}

module _ (select : GlobalFlags → Bool) where
  -- One more pool that passes the filters, before those of which the largest is known.
  passes :
      (p : MemoryPool) (ps : List MemoryPool) (x : Option MemoryPool)
      → usable select p ≡ true
      → Chosen select ps x
      → Chosen select (p ∷ ps) (some (greater p x))
  passes p ps none u h = ((0, refl), u, (inr (omega arith), All-map ps (λ q bad. inl bad) h))
  passes p ps (some q) u h = elim (Bool-cases (ltb (size q) (size p))) [
    | inl more ↦ subst (Chosen select (p ∷ ps)) (sym (ap (λ b. some (if b then p else q)) more)) (
      (0, refl),
      u,
      (
        inr (omega arith),
        All-map ps (λ r c. elim c [ inl bad ↦ inl bad | inr le ↦ inr (ground (arith, more, le)) ])
            h.2,
      ),
    )
    | inr less ↦
        subst (Chosen select (p ∷ ps)) (sym (ap (λ b. some (if b then p else q)) less))
          ((suc h.0.0, h.0.1), h.1, (inr (ground (arith, less)), h.2))
  ]

  left_out :
      (p : MemoryPool) (ps : List MemoryPool) (x : Option MemoryPool)
      → usable select p ≡ false
      → Chosen select ps x
      → Chosen select (p ∷ ps) x
  left_out p ps none u h = (u, h)
  left_out p ps (some q) u h = ((suc h.0.0, h.0.1), h.1, (inl u, h.2))

  largest-Chosen : (ps : List MemoryPool) → Chosen select ps (largest select ps)
  unfolding largest
  largest-Chosen [] = tt
  largest-Chosen (p ∷ ps) = elim (Bool-cases (usable select p)) [
    | inl u ↦ rw (largest, u) (passes p ps (largest select ps) u (largest-Chosen ps))
    | inr u ↦ rw (largest, u) (left_out p ps (largest select ps) u (largest-Chosen ps))
  ]

  -- Either no pool may be used, and none is taken, or the allocator is that of a pool that may be used,
  -- and no pool that may be used is larger; an error is that of making the allocator.
  pub find_pool_flags_lem :
      (ps : List MemoryPool)
      → ((find_pool_flags select ps ≡ ok none) × All (λ q. usable select q ≡ false) ps)
        ⊎ ((p : MemoryPool) × (i : ℕ) × (get_elem? ps i ≡ some p)
            × (usable select p ≡ true)
            × All (λ q. (usable select q ≡ false) ⊎ (size q ≤ size p)) ps
            × (find_pool_flags select ps ≡ allocator_of (some p)))
  unfolding find_pool_flags
  find_pool_flags_lem ps = from (largest select ps) (largest-Chosen ps)
    where
      from :
          (x : Option MemoryPool)
          → Chosen select ps x
          → ((allocator_of x ≡ ok none) × All (λ q. usable select q ≡ false) ps)
            ⊎ ((p : MemoryPool) × (i : ℕ) × (get_elem? ps i ≡ some p)
                × (usable select p ≡ true)
                × All (λ q. (usable select q ≡ false) ⊎ (size q ≤ size p)) ps
                × (allocator_of x ≡ allocator_of (some p)))
      from none h = inl (refl, h)
      from (some p) h = inr (p, h.0.0, h.0.1, h.1, h.2, refl)
