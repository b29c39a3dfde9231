-- ===== src/Context/Stash/Tests.antt =====
-- Two threads that fill the cell, and a thread that clears it.
use geobacter.Prelude.{◌≡◌, refl, true, ◌==◌, update, ℕ_discrete, arith, if◌then◌else◌}
use geobacter.Context.Stash.{
  first, looking, returned, faulted, dropping, System, load, clone, compare, make, exchange, Reach,
  initial, step, seen, after_none, check, after_some, create, fill,
}
use geobacter.Context.Stash.Agree.{Fine, start, one_stash}
use geobacter.Context.Stash.Races.{drop_races}

-- Thread 0 runs alone, and thread 1 looks then.
run : (s : System) × Reach (start 4 (λ i. true)) s × (s.pc 0 ≡ returned 1) × (s.pc 1 ≡ returned 1)
unfolding seen after_none check after_some create fill ℕ_discrete
run = (
  _,
  step {i = 1}
      (step {i = 1}
        (step {i = 1}
          (step {i = 0} (step {i = 0} (step {i = 0} initial (load first refl)) (make refl))
            (exchange 1 refl))
          (load first refl))
        (clone first 1 refl (omega arith)))
      (compare first 1 refl),
  refl,
  refl,
)

one_stash_example : Fine run.0.cell run.0.strong (run.0.pc 1)
one_stash_example = one_stash 4 (λ i. true) 1 run.1

abbrev filled : System
filled = record {
  cell = 1;
  strong = update (λ p. 0) 1 1;
  owner = λ p. 4;
  fresh = 2;
  live = λ c. true;
  ctxt = λ i. 4;
  pc = λ i. if i == 0 then looking first else dropping;
}

drop_races_example : (t : System) × Reach filled t × (t.pc 0 ≡ faulted)
unfolding ℕ_discrete
drop_races_example = drop_races filled 0 1 0 (λ e. omega (arith, e)) refl refl refl refl
