-- ===== src/Context/Accels/Tests.antt =====
-- Two devices of one target, and one that fails.
use geobacter.Prelude.{ℕ, ◌+◌, ◌≡◌, ◌≢◌, refl, true, Option, none, some, ℕ_discrete}
use geobacter.Prelude.Results.{ok, err}
use geobacter.Context.Slots.{resized}
use geobacter.Context.Accels.{Accel, ContextData, new_context, initialize_accel, get_accel_ref}
use geobacter.Context.Accels.Shared.{Calls, nothing, initialize, shared_codegen}

abbrev card : ℕ → Accel
card i = record { id = i; target = 9; desc = 100 + i; codegen = none }

-- Device 1 gets the code generator and the description of device 0.
run :
    (s : ContextData) × Calls ℕ new_context s
    × (get_accel_ref s 0 ≡ some (record { id = 0; target = 9; desc = 100; codegen = some 5 }))
    × (get_accel_ref s 1 ≡ some (record { id = 1; target = 9; desc = 100; codegen = some 5 }))
unfolding initialize_accel resized ℕ_discrete
run = (
  _,
  initialize (λ g. true) (err 3) (card 1)
      (initialize (λ g. true) (ok 5) (card 0) nothing (λ i a g h e. refl)) (λ i a g h e. refl),
  refl,
  refl,
)

shared_codegen_example :
    ◌≡◌ {A = Option ℕ} (some 5) (some 5) × ◌≡◌ {A = ℕ} 100 100 × ◌≢◌ {A = Option ℕ} (some 5) none
shared_codegen_example =
    shared_codegen 0 1 (record { id = 0; target = 9; desc = 100; codegen = some 5 })
      (record { id = 1; target = 9; desc = 100; codegen = some 5 }) run.1 run.2 run.3 refl
