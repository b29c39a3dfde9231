-- ===== src/Lds/Races.antt =====
-- Uses that do disturb each other.
use geobacter.Prelude.{
  ℕ, suc, ◌+◌, ◌≡◌, refl, true, false, some, List, [], ◌∷◌, ◌++◌, get_elem?, length,
}
use geobacter.Lds.{
  Event, barrier, write, read, drop, SliceUse, owned, index, mark_used, enforce_initial_barrier,
  slice_uses, shared_round, Round, with_shared, round, trace, reads, singleton_round,
}
use geobacter.Lds.Phases.{phased}
use geobacter.Lds.Rounds.{indexes}

-- There is no barrier between the write of a `Singleton` by the first workitem and the first use of the
-- reference by another one, however often the two use it.
pub singleton_unordered :
    (n m : ℕ)
    → (get_elem? (phased 0 (singleton_round true n)) 0 ≡ some (1, write 0))
      × (get_elem? (phased 0 (singleton_round false (suc m))) 0 ≡ some (1, read 0))
unfolding singleton_round phased reads
singleton_unordered n m = (refl, refl)

-- The slot is dropped in the phase behind the one barrier.
dropped :
    (own p : ℕ) (us : List SliceUse) (rest : List Event)
    → indexes us ≡ false
    → get_elem?
        (phased p ((slice_uses own false us ++ barrier ∷ drop own ∷ []) ++ rest))
        (length us)
      ≡ some (p + 1, drop own)
unfolding slice_uses phased indexes
dropped own p [] rest h = refl
dropped own p (owned ∷ us) rest h = dropped own p us rest h
dropped own p (index k ∷ us) rest h = absurd (cc h)

-- A workitem that uses the slice of the workgroup has one barrier more than one that does not: it reads
-- the slot of that one in the phase in which it is dropped.
pub unequal_uses :
    (own k : ℕ) (us vs : List SliceUse) (rs ss : List Round)
    → indexes vs ≡ false
    → (get_elem? (phased 0 (trace own false (with_shared (index k ∷ us) ∷ rs))) 1
        ≡ some (1, read k))
      × (get_elem? (phased 0 (trace k false (with_shared vs ∷ ss))) (suc (length vs))
          ≡ some (1, drop k))
unfolding trace round shared_round slice_uses enforce_initial_barrier mark_used phased
unequal_uses own k us vs rs ss h = (refl, dropped k 0 vs (trace k true ss) h)
