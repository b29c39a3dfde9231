-- ===== src/Context/Accels/Found.antt =====
-- What is found among the devices of a context, and when.
use geobacter.Prelude.{
  ℕ, ◌≡◌, ◌≢◌, refl, sym, ap, ◌∙◌, ◌⊎◌, inl, inr, Bool, Bool-cases, Option, none, some, List, [],
  ◌∷◌,
}
use geobacter.Prelude.Results.{Result, ok, err}
use geobacter.Context.Slots.{lookup}
use geobacter.Context.Accels.{
  Accel, Translator, ContextData, installed, set_target_codegen, created, initialize_with,
  initialize_accel, get_accel_ref, find_accel, filter_accels,
}
use geobacter.Context.Accels.Shared.{installed_self, installed_other}

-- How `initialize_accel` ends, with what the slots have then.
pub record Initialized (s s' : ContextData) (a b : Accel) : Type 0 where
  pub found : get_accel_ref s' a.id ≡ some b
  pub others : (i : ℕ) → a.id ≢ i → get_accel_ref s' i ≡ get_accel_ref s i
  pub same_id : b.id ≡ a.id
  pub same_target : b.target ≡ a.target

-- Both ends of `initialize_accel`.
abbrev Ended : (E : Type 0) → ContextData → Accel → Result E Accel × ContextData → Type 0
Ended E s a x =
    ((e : E) × (x ≡ (err e, s)))
    ⊎ ((b : Accel) × (s' : ContextData) × (x ≡ (ok b, s'))
        × Initialized s s' a b
        × (b.codegen ≢ none))

module _ (E : Type 0) (alive : ℕ → Bool) (s : ContextData) where
  installed-Ended :
      (s' : ContextData) (a b : Accel) (g : ℕ)
      → s'.accelerators ≡ s.accelerators
      → b.id ≡ a.id
      → b.target ≡ a.target
      → b.codegen ≡ some g
      → Ended E s a (ok b, installed s' b)
  installed-Ended s' a b g same same_id same_target has = inr (
    b,
    installed s' b,
    refl,
    record {
      found = ap (get_accel_ref (installed s' b)) (sym same_id) ∙ installed_self s' b;
      others = λ i apart.
          installed_other s' b i (λ z. apart (sym same_id ∙ z)) ∙ ap (λ xs. lookup xs i) same;
      same_id = same_id;
      same_target = same_target;
    },
    λ z. cc (z, has),
  )

  created-Ended :
      (a b : Accel) (key : ℕ) (made : Result E ℕ)
      → b.id ≡ a.id
      → b.target ≡ a.target
      → Ended E s a (created s b key made)
  created-Ended a b key (err e) same_id same_target = inl (e, refl)
  created-Ended a b key (ok g) same_id same_target =
      installed-Ended _ a (set_target_codegen b g) g refl same_id same_target refl

  initialize_with-Ended :
      (create : Result E ℕ) (a : Accel) (x : Option Translator)
      → Ended E s a (initialize_with alive create s a x)
  initialize_with-Ended create a none = created-Ended a a a.desc create refl refl
  initialize_with-Ended create a (some o) = elim (Bool-cases (alive o.codegen)) [
    | inl yes_alive ↦ rw (yes_alive) (
        installed-Ended s a (set_target_codegen (record a { desc = o.key }) o.codegen) o.codegen
          refl refl refl refl)
    | inr dropped ↦
        rw (dropped) (created-Ended a (record a { desc = o.key }) o.key create refl refl)
  ]

-- A call of `initialize_accel` fails and leaves the context as it was, or the device is what is found
-- under its number from then on, with a code generator; the other slots stay. There is room for any
-- number.
pub initialize_accel_lem :
    (E : Type 0) (alive : ℕ → Bool) (create : Result E ℕ) (s : ContextData) (a : Accel)
    → ((e : E) × (initialize_accel alive create s a ≡ (err e, s)))
      ⊎ ((b : Accel) × (s' : ContextData) × (initialize_accel alive create s a ≡ (ok b, s'))
          × Initialized s s' a b
          × (b.codegen ≢ none))
unfolding initialize_accel
initialize_accel_lem E alive create s a =
    initialize_with-Ended E alive s create a (s.translators a.target)

-- The first of the devices that are filtered.
abbrev first? : List Accel → Option Accel
first? [] = none
first? (a ∷ as') = some a

-- `find_accel` returns the first of what `filter_accels` returns, and nothing where that is empty.
pub find_accel-filter :
    (f : Accel → Bool) (xs : List (Option Accel)) → find_accel f xs ≡ first? (filter_accels f xs)
unfolding find_accel filter_accels
find_accel-filter f [] = refl
find_accel-filter f (none ∷ xs) = find_accel-filter f xs
find_accel-filter f (some a ∷ xs) = elim (Bool-cases (f a)) [
  | inl yes_found ↦ rw (find_accel, filter_accels, yes_found)
  | inr other ↦ rw (find_accel, filter_accels, other) (find_accel-filter f xs)
]
