-- ===== src/Context/Slots.antt =====
-- `IndexVec<AcceleratorId, Option<T>>` of runtime-core/src/context.rs: slots for the accelerators.
use geobacter.Prelude.{
  ℕ, zero, suc, ◌+◌, ◌-◌, ◌<◌, ◌≡◌, ◌≢◌, refl, inl, inr, leb, Bool-cases, Option, none, some, List,
  [], ◌∷◌, ◌++◌, length, length-append, length-replicate, get_elem?, set, get_elem?-set_self,
  get_elem?-set_ne, replicate, arith, if◌then◌else◌,
}

abbrev join : {A : Type 0} → Option (Option A) → Option A
join none = none
join (some x) = x

-- `get(accel_id).and_then(|v| v.as_ref())`.
abbrev pub lookup : {A : Type 0} → List (Option A) → ℕ → Option A
lookup xs a = join (get_elem? xs a)

-- `len() <= accel_id.index()`, and `resize`.
unfoldable pub resized : {A : Type 0} → List (Option A) → ℕ → List (Option A)
resized xs a = if leb (length xs) a then xs ++ replicate (a + 1 - length xs) none else xs

module _ {A : Type 0} where
  lookup-replicate : (n a : ℕ) → lookup {A = A} (replicate n none) a ≡ none
  lookup-replicate zero a = refl
  lookup-replicate (suc n) zero = refl
  lookup-replicate (suc n) (suc a) = lookup-replicate n a

  lookup-padded : (xs : List (Option A)) (n a : ℕ) → lookup (xs ++ replicate n none) a ≡ lookup xs a
  lookup-padded [] n a = lookup-replicate n a
  lookup-padded (x ∷ xs) n zero = refl
  lookup-padded (x ∷ xs) n (suc a) = lookup-padded xs n a

  -- New slots are empty.
  pub lookup-resized : (xs : List (Option A)) (b a : ℕ) → lookup (resized xs b) a ≡ lookup xs a
  unfolding resized
  lookup-resized xs b a = elim (Bool-cases (leb (length xs) b)) [
    | inl short ↦ rw (short, resized) (lookup-padded xs (b + 1 - length xs) a)
    | inr long ↦ rw (long, resized)
  ]

  -- There is a slot then.
  pub length-resized : (xs : List (Option A)) (a : ℕ) → a < length (resized xs a)
  unfolding resized
  length-resized xs a = elim (Bool-cases (leb (length xs) a)) [
    | inl short ↦
        rw
          (
            short,
            resized,
            length-append xs (replicate (a + 1 - length xs) none),
            length-replicate {A = Option A} (a + 1 - length xs) none,
          )
          (ground (arith, short))
    | inr long ↦ rw (long, resized) (ground (arith, long))
  ]

  pub lookup-set_self :
      (xs : List (Option A)) (a : ℕ) (e : A) → a < length xs → lookup (set xs a (some e)) a ≡ some e
  lookup-set_self xs a e h = rw (get_elem?-set_self xs a (some e) h)

  pub lookup-set_ne :
      (xs : List (Option A)) {a b : ℕ} (x : Option A) → a ≢ b → lookup (set xs a x) b ≡ lookup xs b
  lookup-set_ne xs x h = rw (get_elem?-set_ne xs x h)
