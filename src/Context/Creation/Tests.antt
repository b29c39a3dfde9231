-- ===== src/Context/Creation/Tests.antt =====
-- Two threads that ask for the context, and one that asks when it has ended.
use geobacter.Prelude.{
  ℕ, ◌≡◌, ◌≢◌, refl, true, false, some, update, update_self, update_other, sym, ap, ◌∙◌, List, [],
  ◌∷◌, ℕ_discrete, arith,
}
use geobacter.Context.Creation.{
  Pc, idle, looking, locking, locked, looking_again, installing, building, returned, failed, System,
  global, build, call, look, lock, unlock, look_again, build_pool, set_ctx, let_go, end_context,
  Reach, initial, step,
}
use geobacter.Context.Creation.Once.{start, one_context}
use geobacter.Context.Creation.Races.{new_races}

-- Thread 0 creates the context, and thread 1 finds it.
run : (s : System) × Reach start s × (s.pc 0 ≡ returned 0) × (s.pc 1 ≡ returned 0)
unfolding global build ℕ_discrete
run = (
  _,
  step
      (step
        (step
          (step
            (step
              (step (step (step (step initial (call 0 refl)) (look 0 refl)) (lock 0 refl refl))
                (unlock 0 refl))
              (look_again 0 refl))
            (build_pool 0 refl))
          (set_ctx 0 refl))
        (call 1 refl))
      (look 1 refl),
  refl,
  refl,
)

one_context_example : ◌≡◌ {A = ℕ} 0 0 × (run.0.live 0 ≡ true) × (run.0.ctx ≡ some 0)
one_context_example = one_context 0 1 0 0 run.1 run.2 run.3

new_races_example :
    (t : System) × Reach start t
    × (t.pc 0 ≡ returned 0)
    × (t.live 0 ≡ true)
    × (t.pc 1 ≡ building)
    × ((build t 1).pc 1 ≡ failed)
new_races_example = new_races 0 1 (λ e. omega (arith, e))

-- Where the threads are when thread 0 was at these places, the last first.
abbrev moves : List Pc → ℕ → Pc
moves [] = λ i. idle
moves (p ∷ ps) = update (moves ps) 0 p

moves-idle : (ps : List Pc) (i : ℕ) → 0 ≢ i → moves ps i ≡ idle
moves-idle [] i apart = refl
moves-idle (p ∷ ps) i apart = update_other (moves ps) p apart ∙ moves-idle ps i apart

abbrev way : List Pc
way = returned 0 ∷ installing ∷ building ∷ looking_again ∷ locked ∷ locking ∷ looking ∷ []

-- Thread 0 creates the context and lets go of it, and it ends.
ended : (s : System) × Reach start s × (s.ctx ≡ some 0) × (s.live 0 ≡ false)
unfolding global build ℕ_discrete
ended = (
  _,
  step
      (step
        (step
          (step
            (step
              (step (step (step (step initial (call 0 refl)) (look 0 refl)) (lock 0 refl refl))
                (unlock 0 refl))
              (look_again 0 refl))
            (build_pool 0 refl))
          (set_ctx 0 refl))
        (let_go 0 0 refl))
      (end_context 0 free),
  refl,
  refl,
)
  where
    free : (i : ℕ) → moves (idle ∷ way) i ≢ returned 0
    free i e = elim (ℕ_discrete 0 i) [
      | yes same ↦ cc (sym (update_self (moves way) 0 idle), ap (moves (idle ∷ way)) same, e)
      | no apart ↦ cc (sym (moves-idle (idle ∷ way) i apart), e)
    ]
