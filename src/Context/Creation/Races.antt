-- ===== src/Context/Creation/Races.antt =====
-- Two threads that create the context at once.
use geobacter.Prelude.{
  ℕ, ◌≡◌, ◌≢◌, refl, sym, ap, ◌∙◌, subst, true, false, none, if◌then◌else◌, update_self,
  update_other,
}
use geobacter.Context.Creation.{
  idle, looking, locking, locked, looking_again, building, installing, failed, returned, System, at,
  global, or_go_on, upgrade, build, install, Step, call, look, lock, unlock, look_again, build_pool,
  set_ctx, Reach, initial, step,
}
use geobacter.Context.Creation.Once.{start}

Reach-trans : {s t u : System} → Reach s t → Reach t u → Reach s u
Reach-trans path initial = path
Reach-trans path (step later st) = step (Reach-trans path later) st

-- A thread that finds no context comes to where it builds the pool, with the lock in between; the lock
-- is free before and after.
to_building :
    (s : System) (i : ℕ)
    → s.ctx ≡ none
    → s.init ≡ false
    → s.pc i ≡ idle
    → (t : System) × Reach s t
      × (t.pc i ≡ building)
      × ((j : ℕ) → i ≢ j → t.pc j ≡ s.pc j)
      × (t.ctx ≡ none)
      × (t.init ≡ false)
      × (t.built ≡ s.built)
      × (t.fresh ≡ s.fresh)
unfolding global
to_building s i empty free here = (
  s₅,
  step
      (step
        (step (step (step initial (call i here)) looks) (lock i (update_self s₁.pc i locking) free))
        (unlock i (update_self s₂.pc i locked)))
      looks_again,
  update_self s₄.pc i building,
  λ j apart.
      update_other s₄.pc building apart
      ∙ update_other s₃.pc looking_again apart
      ∙ update_other s₂.pc locked apart
      ∙ update_other s₁.pc locking apart
      ∙ update_other s.pc looking apart,
  empty,
  refl,
  refl,
  refl,
)
  where
    s₁ : System
    s₁ = at s i looking

    s₂ : System
    s₂ = at s₁ i locking

    s₃ : System
    s₃ = record (at s₂ i locked) { init = true }

    s₄ : System
    s₄ = record (at s₃ i looking_again) { init = false }

    s₅ : System
    s₅ = at s₄ i building

    looks : Step s₁ s₂
    looks =
        subst (Step s₁) (ap (λ x. at s₁ i (or_go_on locking (upgrade s.live x))) empty)
          (look i (update_self s.pc i looking))

    looks_again : Step s₄ s₅
    looks_again =
        subst (Step s₄) (ap (λ x. at s₄ i (or_go_on building (upgrade s.live x))) empty)
          (look_again i (update_self s₃.pc i looking_again))

-- Both threads are about to build the pool.
building_races :
    (s : System) (i j : ℕ)
    → i ≢ j
    → s.pc i ≡ building
    → s.pc j ≡ building
    → s.built ≡ false
    → (t : System) × Reach s t
      × (t.pc i ≡ returned s.fresh)
      × (t.live s.fresh ≡ true)
      × (t.pc j ≡ building)
      × (t.built ≡ true)
unfolding build
building_races s i j apart here there fresh_pool = (
  install s₁ i,
  step (step initial build_step) (set_ctx i (update_self s.pc i installing)),
  update_self s₁.pc i (returned s.fresh),
  update_self s.live s.fresh true,
  update_other s₁.pc (returned s.fresh) apart ∙ update_other s.pc installing apart ∙ there,
  refl,
)
  where
    s₁ : System
    s₁ = record (at s i installing) { built = true }

    build_step : Step s s₁
    build_step = subst (Step s) (rw (fresh_pool, build)) (build_pool i here)

build-failed : (s : System) (j : ℕ) → s.built ≡ true → (build s j).pc j ≡ failed
unfolding build
build-failed s j done =
    ap (λ b. (if b then at s j failed else record (at s j installing) { built = true }).pc j) done
    ∙ update_self s.pc j failed

-- Any two threads of a process that has no context yet can come to where one of them has created the
-- context and holds it, while the other, which has looked a second time before, is about to build the
-- pool, and fails in that: the lock does not keep them apart, since it is given back before the second
-- look.
pub new_races :
    (i j : ℕ)
    → i ≢ j
    → (t : System) × Reach start t
      × (t.pc i ≡ returned 0)
      × (t.live 0 ≡ true)
      × (t.pc j ≡ building)
      × ((build t j).pc j ≡ failed)
new_races i j apart =
    let (t₁, path₁, at₁, others₁, empty₁, free₁, built₁, fresh₁) =
      to_building start i refl refl refl in
    let (t₂, path₂, at₂, others₂, empty₂, free₂, built₂, fresh₂) =
      to_building t₁ j empty₁ free₁ (others₁ j apart) in
    let (t, path, holds, live, waits, done) =
      building_races t₂ i j apart (others₂ i (λ z. apart (sym z)) ∙ at₁) at₂ (built₂ ∙ built₁) in
    let first = fresh₂ ∙ fresh₁ in
    (
      t,
      Reach-trans (Reach-trans path₁ path₂) path,
      holds ∙ ap returned first,
      subst (λ c. t.live c ≡ true) first live,
      waits,
      build-failed t j done,
    )
