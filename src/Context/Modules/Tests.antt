-- ===== src/Context/Modules/Tests.antt =====
-- Two threads that load a kernel for the same accelerator, with different parameters.
use geobacter.Prelude.{ℕ, ◌≡◌, refl, true, ℕ_discrete, some}
use geobacter.Context.Slots.{lookup, resized}
use geobacter.Context.Modules.{
  Entry, returned, System, read_entry, check_entry, load, Step, read, lock, look_again, compiled,
  upgraded, loaded, Reach, initial, step,
}
use geobacter.Context.Modules.Once.{start, one_module}
use geobacter.Context.Modules.Moves.{no_standstill}

abbrev begun : System
begun = start (λ a. 7) (λ i. 3) (λ i. i) (λ i. true) (λ i. true)

-- Both read, thread 0 compiles and loads, and thread 1 finds the module when it has the lock.
run :
    (s : System) × Reach begun s
    × (s.pc 0 ≡ returned 0)
    × (s.pc 1 ≡ returned 0)
    × (s.accel 0 ≡ s.accel 1)
unfolding read_entry check_entry resized load ℕ_discrete
run = (
  _,
  step {i = 1}
      (step {i = 1}
        (step {i = 0}
          (step {i = 0}
            (step {i = 0}
              (step {i = 0}
                (step {i = 0}
                  (step {i = 1} (step {i = 0} initial (read refl (λ j z. absurd (cc z))))
                    (read refl (λ j z. absurd (cc z))))
                  (lock refl refl))
                (look_again refl))
              (compiled refl))
            (upgraded refl))
          (loaded refl))
        (lock refl refl))
      (look_again refl),
  refl,
  refl,
  refl,
)

one_module_example :
    ◌≡◌ {A = ℕ} 0 0
    × (run.0.loads (run.0.accel 0) ≡ 1)
    × ((e : Entry) × (l : ℕ) × (lookup run.0.entries (run.0.accel 0) ≡ some e)
        × (e.value ≡ 0)
        × (e.ty ≡ 7)
        × (run.0.accel l ≡ run.0.accel 0)
        × (e.params ≡ run.0.params l))
one_module_example =
    one_module (λ a. 7) (λ i. 3) (λ i. i) (λ i. true) (λ i. true) 0 1 0 0 run.1 run.2 run.3 run.4

no_standstill_example : (j : ℕ) × (t : System) × Step begun j t
no_standstill_example =
    no_standstill (λ a. 7) (λ i. 3) (λ i. i) (λ i. true) (λ i. true) 5 initial (λ h. h)
