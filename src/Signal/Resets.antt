-- ===== src/Signal/Resets.antt =====
-- Whose signals `reset` changes.
use geobacter.Prelude.{
  ℕ, ◌-◌, ◌≤◌, ◌≡◌, ◌≢◌, refl, sym, ap, ◌∙◌, subst, ◌⊎◌, inl, inr, false, arith, ◌==◌, ==_iff,
  ℕ_discrete, update, update-cases, update_self, update_other,
}
use geobacter.Prelude.Results.{Result, ok, err, Result-cases, ok-injective}
use geobacter.HsaErrors.{HsaError}
use geobacter.Signal.{Signals, counted, store_value, replace, resettable_get_mut, reset_impl}

-- The handle `h` holds the new value, and nobody else holds it; every other signal that somebody holds
-- has kept its value. It is the old one if nobody else held that, or one that nobody held.
pub record IsReset (st st' : Signals) (this h initial : ℕ) : Type 0 where
  pub set_up : st'.value h ≡ initial
  pub source : ((h ≡ this) × (st.strong this ≡ 1)) ⊎ (st.strong h ≡ 0)
  pub sole : st'.strong h ≡ 1
  pub others : (j : ℕ) → j ≢ h → 1 ≤ st'.strong j → (st'.value j ≡ st.value j) × (1 ≤ st.strong j)

stored :
    (st : Signals) (this initial : ℕ)
    → st.strong this ≡ 1
    → IsReset st (store_value st this initial) this this initial
stored st this initial one = record {
  set_up = update_self st.value this initial;
  source = inl (refl, one);
  sole = one;
  others = λ j apart held. (update_other st.value initial (λ e. apart (sym e)), held);
}

replaced :
    (st : Signals) (this initial h : ℕ)
    → 2 ≤ st.strong this
    → st.strong h ≡ 0
    → IsReset st (replace (ok h) st this initial).1 this h initial
replaced st this initial h many fresh = record {
  set_up = update_self st.value h initial;
  source = inr fresh;
  sole = update_other (update st.strong h 1) _ new ∙ update_self st.strong h 1;
  others = λ j apart held. (
    update_other st.value initial (λ e. apart (sym e)),
    elim (update-cases (update st.strong h 1) this (st.strong this - 1) j) [
      | inl (e, now) ↦ subst (λ t. 1 ≤ st.strong t) e (omega (arith, many))
      | inr (e, now) ↦ subst (λ t. 1 ≤ t) (now ∙ update_other st.strong 1 (λ x. apart (sym x))) held
    ],
  );
}
  where
    new : this ≢ h
    new e = omega (arith, many, fresh, ap st.strong e)

-- A counted signal that is reset holds the new value, and nobody else holds it; every other signal
-- that somebody holds keeps its value, the old one too where there are other references to it. It is
-- the old signal only if there are none. The HSA runtime is supposed to create signals that nobody
-- holds.
pub reset_impl_counted :
    (create : Signals → Result HsaError ℕ) (st st' : Signals) (this initial h : ℕ)
    → ((h : ℕ) → create st ≡ ok h → st.strong h ≡ 0)
    → 1 ≤ st.strong this
    → reset_impl create counted st this initial ≡ (ok h, st')
    → IsReset st st' this h initial
unfolding reset_impl resettable_get_mut
reset_impl_counted create st st' this initial h fresh held e =
    elim (ℕ_discrete (st.strong this) 1) [
      | yes one ↦
          let e' : ◌≡◌ {A = Result HsaError ℕ × Signals} (ok this, store_value st this initial)
              (ok h, st') =
            rw (reset_impl, (==_iff (st.strong this) 1).1 one) at e in
          to (ok this, store_value st this initial) e' this refl (stored st this initial one)
      | no many ↦
          let shared : (st.strong this == 1) ≡ false = ground (arith, many) in
          elim (Result-cases (create st)) [
            | inl (k, made) ↦
                to _ (rw (reset_impl, shared, made) at e) k refl
                  (replaced st this initial k (omega (arith, many, held)) (fresh k made))
            | inr (x, failed) ↦
                let x' : ◌≡◌ {A = Result HsaError ℕ × Signals} (err x, st) (ok h, st') =
                  rw (reset_impl, shared, failed) at e in
                absurd (cc (ap (λ (t : Result HsaError ℕ × Signals). t.0) x'))
          ]
    ]
  where
    to :
        (r : Result HsaError ℕ × Signals)
        → r ≡ (ok h, st')
        → (k : ℕ) → r.0 ≡ ok k
        → IsReset st r.1 this k initial
        → IsReset st st' this h initial
    to r e k x v =
        subst (λ t. IsReset st t this h initial) (ap (λ t. t.1) e)
          (subst (λ t. IsReset st r.1 this t initial) (ok-injective (sym x ∙ ap (λ t. t.0) e)) v)
