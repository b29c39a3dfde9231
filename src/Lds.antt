-- ===== src/Lds.antt =====
-- runtime-amd/src/lds.rs: memory that the workitems of a workgroup share. A workitem is the list of what
-- it does to the slots, and of the barriers of the workgroup that it executes.
pub mod Phases
pub mod Rounds
pub mod Safe
pub mod Races
pub mod Slots
mod Tests
use geobacter.Prelude.{ℕ, zero, suc, ◌+◌, Bool, true, false, if◌then◌else◌, List, [], ◌∷◌, ◌++◌}

-- `workgroup_barrier`, and what a workitem does to a slot.
pub data Event : Type 0 where
  barrier : Event
  write read drop : ℕ → Event

-- What a kernel does with a `Slice`, and with a `Mut`.
pub data SliceUse : Type 0 where
  owned : SliceUse
  index : ℕ → SliceUse

pub data MutUse : Type 0 where
  deref deref_mut : MutUse

-- `LdsBorrow::mark_used`, with the flag of the borrow.
unfoldable pub mark_used : Bool → List Event
mark_used used = if used then barrier ∷ [] else []

-- `enforce_initial_barrier`, with `initial_barrier`.
unfoldable pub enforce_initial_barrier : Bool → List Event
enforce_initial_barrier done = if done then [] else barrier ∷ []

-- The methods of `Slice`.
unfoldable pub slice_uses : ℕ → Bool → List SliceUse → List Event
unfolding enforce_initial_barrier
slice_uses own done [] = []
slice_uses own done (owned ∷ us) = read own ∷ slice_uses own done us
slice_uses own done (index k ∷ us) = enforce_initial_barrier done ++ read k ∷ slice_uses own true us

-- `Shared::init_with`, the uses of the slice, and its drop.
unfoldable pub shared_round : ℕ → List SliceUse → List Event
unfolding slice_uses
shared_round own us = write own ∷ slice_uses own false us ++ barrier ∷ drop own ∷ []

unfoldable pub mut_uses : ℕ → List MutUse → List Event
mut_uses own [] = []
mut_uses own (deref ∷ us) = read own ∷ mut_uses own us
mut_uses own (deref_mut ∷ us) = write own ∷ mut_uses own us

-- `Unique::init_with`, the uses of the slot, and its drop.
unfoldable pub unique_round : ℕ → List MutUse → List Event
unfolding mut_uses
unique_round own us = write own ∷ mut_uses own us ++ drop own ∷ []

-- One use of a borrow.
pub data Round : Type 0 where
  with_shared : List SliceUse → Round
  with_mut : List MutUse → Round

unfoldable pub round : ℕ → Round → List Event
unfolding shared_round unique_round
round own (with_shared us) = shared_round own us
round own (with_mut us) = unique_round own us

-- What a workitem does with a borrow, one use after the other.
unfoldable pub trace : ℕ → Bool → List Round → List Event
unfolding mark_used round
trace own used [] = []
trace own used (r ∷ rs) = mark_used used ++ round own r ++ trace own true rs

-- `Singleton::init_with`, `n` uses of the reference, and its drop; the object is slot 0.
unfoldable pub reads : ℕ → List Event
reads zero = []
reads (suc n) = read 0 ∷ reads n

unfoldable pub singleton_round : Bool → ℕ → List Event
unfolding reads
singleton_round wi0 n =
    barrier ∷ (if wi0 then write 0 ∷ [] else [])
    ++ reads n
    ++ barrier ∷ (if wi0 then drop 0 ∷ [] else [])
