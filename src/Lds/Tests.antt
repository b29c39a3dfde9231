-- ===== src/Lds/Tests.antt =====
-- Two workitems of a group of two by three by two.
use geobacter.Prelude.{ℕ, ◌*◌, ◌<◌, ◌≡◌, refl, ap, false, some, List, [], ◌∷◌, get_elem?, arith}
use geobacter.Grid.Dims.{Dim3D}
use geobacter.Lds.{
  write, read, drop, owned, index, deref_mut, mark_used, enforce_initial_barrier, slice_uses,
  shared_round, mut_uses, unique_round, Round, with_shared, with_mut, round, trace,
}
use geobacter.Lds.Phases.{phased, Conflict}
use geobacter.Lds.Rounds.{indexes}
use geobacter.Lds.Races.{unequal_uses}
use geobacter.Lds.Slots.{slot_3d, element, workitems_apart}

abbrev size : Dim3D ℕ
size = record { x = 2; y = 3; z = 2 }

abbrev here : Dim3D ℕ
here = record { x = 1; y = 2; z = 1 }

abbrev there : Dim3D ℕ
there = record { x = 0; y = 0; z = 0 }

abbrev ours : List Round
ours = with_shared (owned ∷ index 0 ∷ []) ∷ with_mut (deref_mut ∷ []) ∷ []

abbrev theirs : List Round
theirs = with_shared (index 11 ∷ []) ∷ with_mut [] ∷ []

-- What the first one does, and in which phases.
our_trace :
    phased 0 (trace 11 false ours)
    ≡ (0, write 11)
      ∷ (0, read 11)
      ∷ (1, read 0)
      ∷ (2, drop 11)
      ∷ (3, write 11)
      ∷ (3, write 11)
      ∷ (3, drop 11)
      ∷ []
unfolding phased trace round shared_round unique_round slice_uses mut_uses mark_used
    enforce_initial_barrier
our_trace = refl

workitems_apart_example : (11 < 2 * 3 * 2) × ¬ Conflict (write 11) (write 0)
unfolding slot_3d element phased trace round shared_round unique_round slice_uses mut_uses mark_used
    enforce_initial_barrier indexes
workitems_apart_example =
    workitems_apart size here there 11 0 ours theirs 0 0 0 (write 11) (write 0)
      (λ z. omega (arith, ap (λ (d : Dim3D ℕ). d.x) z)) refl refl (refl, tt) refl refl

unequal_uses_example :
    (get_elem? (phased 0 (trace 11 false (with_shared (index 0 ∷ []) ∷ []))) 1 ≡ some (1, read 0))
    × (get_elem? (phased 0 (trace 0 false (with_shared (owned ∷ []) ∷ []))) 2 ≡ some (1, drop 0))
unfolding indexes
unequal_uses_example = unequal_uses 11 0 [] (owned ∷ []) [] [] refl
