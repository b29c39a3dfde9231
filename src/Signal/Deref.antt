-- ===== src/Signal/Deref.antt =====
-- `SignaledDeref` of runtime-amd/src/signal/mod.rs, and which signals the host and devices can wait for.
use geobacter.Prelude.{
  ℕ, ◌≡◌, refl, ap, ◌∙◌, inl, inr, Bool, true, false, Bool-cases, ◌==◌, if◌then◌else◌, Option, none,
  some, List, [], ◌∷◌, get_elem?, suc, ◌<◌, All, arith, usize_mod,
}
use geobacter.Prelude.Results.{Result, ok, err, Result-cases}
use geobacter.Signal.{
  ConditionOrdering, ord_less, less, lt_i64, into_pair, satisfied, wait_for_condition_relaxed,
  zero_or_less, wait_for_zero_relaxed,
}

pub data SignalKind : Type 0 where
  host global : SignalKind
  device : ℕ → SignalKind

-- Whether `as_host_consumable` is `Some`.
unfoldable pub as_host_consumable : SignalKind → Bool
as_host_consumable host = true
as_host_consumable global = true
as_host_consumable (device id) = false

-- `usable_on_device`, of the signals that have it.
unfoldable pub usable_on_device : SignalKind → ℕ → Option Bool
usable_on_device host id = none
usable_on_device global id = some true
usable_on_device (device own) id = some (own == id)

-- How `try_get_ref`, `try_get_mut` and `try_unwrap` end.
pub data Access : Type 0 where
  panicked waiting given : Access
  refused : ℕ → Access

abbrev waited : Option (Result ℕ (Unit {0})) → Access
waited none = waiting
waited (some (ok _)) = given
waited (some (err v)) = refused v

unfoldable pub try_get : (is_host : Bool) → SignalKind → List (ConditionOrdering → ℕ → ℕ) → Access
unfolding as_host_consumable wait_for_zero_relaxed
try_get is_host k waits =
    if is_host
    then (if as_host_consumable k then waited (wait_for_zero_relaxed waits) else panicked)
    else given

-- `deref`, `deref_mut` and `unwrap`, with the `expect`.
abbrev expect_given : Access → Access
expect_given (refused v) = panicked
expect_given a = a

unfoldable pub deref : (is_host : Bool) → SignalKind → List (ConditionOrdering → ℕ → ℕ) → Access
unfolding try_get
deref is_host k waits = if is_host then expect_given (try_get true k waits) else given

-- A value that is below one and not below zero.
only_zero : (v : ℕ) → v < usize_mod → lt_i64 v 1 ≡ true → lt_i64 v 0 ≡ false → v ≡ 0
only_zero v h below above = ground (arith, h, below, above)

-- A wait that ends the loop with `Ok` has seen zero.
zero_seen :
    (w : ConditionOrdering → ℕ → ℕ) (got : ℕ)
    → w ord_less 1 < usize_mod
    → wait_for_condition_relaxed w (less 1) ≡ ok got
    → zero_or_less got ≡ ok tt
    → w ord_less 1 ≡ 0
unfolding wait_for_condition_relaxed satisfied into_pair
zero_seen w got word e z = elim (Bool-cases (lt_i64 (w ord_less 1) 1)) [
  | inr above ↦
      let eq : ◌≡◌ {A = Result ℕ ℕ} (err (w ord_less 1)) (ok got) =
        rw (wait_for_condition_relaxed, above) at e in
      absurd (cc eq)
  | inl below ↦
      let eq : ◌≡◌ {A = Result ℕ ℕ} (ok (w ord_less 1)) (ok got) =
        rw (wait_for_condition_relaxed, below) at e in
      let same : w ord_less 1 ≡ got = cc eq in
      elim (Bool-cases (lt_i64 got 0)) [
        | inl negative ↦
            let bad : ◌≡◌ {A = Result ℕ (Unit {0})} (err got) (ok tt) = rw (negative) at z in
            absurd (cc bad)
        | inr not_negative ↦
            only_zero (w ord_less 1) word below (ap (λ v. lt_i64 v 0) same ∙ not_negative)
      ]
]

loop_seen :
    (waits : List (ConditionOrdering → ℕ → ℕ))
    → All (λ w. w ord_less 1 < usize_mod) waits
    → wait_for_zero_relaxed waits ≡ some (ok tt)
    → (i : ℕ) × (w : ConditionOrdering → ℕ → ℕ) × (get_elem? waits i ≡ some w) × (w ord_less 1 ≡ 0)
unfolding wait_for_zero_relaxed
loop_seen [] words e = absurd (cc e)
loop_seen (w ∷ waits) words e = elim (Result-cases (wait_for_condition_relaxed w (less 1))) [
  | inl (got, ends) ↦
      let eq : ◌≡◌ {A = Option (Result ℕ (Unit {0}))} (some (zero_or_less got)) (some (ok tt)) =
        rw (wait_for_zero_relaxed, ends) at e in
      (0, w, refl, zero_seen w got words.0 ends (cc eq))
  | inr (v, again) ↦
      let (i, w', there, zero_is) =
        loop_seen waits words.1 (rw (wait_for_zero_relaxed, again) at e) in
      (suc i, w', there, zero_is)
]

waited-given :
    (x : Option (Result ℕ (Unit {0}))) → expect_given (waited x) ≡ given → x ≡ some (ok tt)
waited-given none e = absurd (cc e)
waited-given (some (ok tt)) e = refl
waited-given (some (err v)) e = absurd (cc e)

-- On the host, `deref` gives the value out only for a signal that the host can wait for, and when one of
-- its waits has returned zero.
pub deref-given :
    (k : SignalKind) (waits : List (ConditionOrdering → ℕ → ℕ))
    → All (λ w. w ord_less 1 < usize_mod) waits
    → deref true k waits ≡ given
    → (as_host_consumable k ≡ true)
      × ((i : ℕ) × (w : ConditionOrdering → ℕ → ℕ) × (get_elem? waits i ≡ some w)
          × (w ord_less 1 ≡ 0))
unfolding deref try_get
deref-given k waits words e = elim (Bool-cases (as_host_consumable k)) [
  | inl yes_host ↦ (
    yes_host,
    loop_seen waits words
        (waited-given (wait_for_zero_relaxed waits) (rw (deref, try_get, yes_host) at e)),
  )
  | inr not_host ↦
      let bad : panicked ≡ given = rw (deref, try_get, not_host) at e in absurd (cc bad)
]
