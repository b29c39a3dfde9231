-- ===== src/Codegen/Steps.antt =====
-- Every step of the driver keeps what `Invariant` says.
use geobacter.Prelude.{
  ℕ, ◌+◌, ◌≡◌, ◌≢◌, refl, sym, ap, ◌∙◌, subst, Bool, true, false, if◌then◌else◌, Option, none, some,
  update, update-cases, inl, inr, arith, Option-cases,
}
use geobacter.Prelude.Results.{ok, err}
use geobacter.Codegen.Driver.{
  MaybeInProgress, in_progress, done, Pc, idle, reading, writing, compiling, unwound, cloned,
  blocked, storing, returned, System, at, look, put, claim, store, Step, read, begin_wait, wake,
  write, compiled, unwind, finish, Reach, initial, step, init,
}
use geobacter.Codegen.Invariant.{
  owns, Sound, Inv, move-Inv, put-cases, put-Sound, put_self, owner-Held, owns-update,
}

module _ {K R E : Type 0} (desc_eq : (a b : K) → Dec (a ≡ b)) where
  -- A thread takes a free entry.
  claim-Inv :
      {s : System K R E} (i : ℕ)
      → owns (s.pc i) ≡ false
      → s.cache (s.desc i) ≡ none
      → Inv s
      → Inv (record {
        cache = put desc_eq s.cache (s.desc i) (some (in_progress s.next_group));
        next_group = s.next_group + 1;
        desc = s.desc;
        pc = update s.pc i compiling;
      })
  claim-Inv {s} i free empty inv = record {
    sound = λ j. elim (update-cases s.pc i compiling j) [
      | inl (e, now) ↦
          subst (Sound c' n' (s.desc j)) (sym now)
            (n, ap (λ t. c' (s.desc t)) (sym e) ∙ put_self desc_eq c k entry)
      | inr (e, now) ↦ subst (Sound c' n' (s.desc j)) (sym now) (
          put-Sound desc_eq c n n' k entry (omega arith) (λ g h. omega (arith, group g h))
            (s.desc j) (s.pc j) (λ o. vacant j o) (λ r. λ h. cc (h, empty)) (inv.sound j))
    ];
    unique = λ j l p q d. elim (owns-update s.pc i compiling j p) [
      | inl (e, o) ↦ elim (owns-update s.pc i compiling l q) [
        | inl (e', o') ↦ sym e ∙ e'
        | inr (e', o') ↦ absurd (vacant l o' (ap s.desc e ∙ d))
      ]
      | inr (e, o) ↦ elim (owns-update s.pc i compiling l q) [
        | inl (e', o') ↦ absurd (vacant j o (ap s.desc e' ∙ sym d))
        | inr (e', o') ↦ inv.unique j l o o' d
      ]
    ];
    fresh = λ l g h. elim (put-cases desc_eq c k entry l) [
      | inl (same, now) ↦ omega (arith, group g (sym now ∙ h))
      | inr (other, now) ↦ omega (arith, inv.fresh l g (sym now ∙ h))
    ];
    distinct = λ l l' g h h'. elim (put-cases desc_eq c k entry l) [
      | inl (same, now) ↦ elim (put-cases desc_eq c k entry l') [
        | inl (same', now') ↦ sym same ∙ same'
        | inr (other', now') ↦
            absurd (omega (arith, group g (sym now ∙ h), inv.fresh l' g (sym now' ∙ h')))
      ]
      | inr (other, now) ↦ elim (put-cases desc_eq c k entry l') [
        | inl (same', now') ↦
            absurd (omega (arith, group g (sym now' ∙ h'), inv.fresh l g (sym now ∙ h)))
        | inr (other', now') ↦ inv.distinct l l' g (sym now ∙ h) (sym now' ∙ h')
      ]
    ];
    owned = λ l g h. elim (put-cases desc_eq c k entry l) [
      | inl (same, now) ↦ (
        i,
        same,
        elim (update-cases s.pc i compiling i) [
          | inl (e, new) ↦ ap owns new
          | inr (e, new) ↦ absurd (e refl)
        ],
      )
      | inr (other, now) ↦
          let (j, d, o) = inv.owned l g (sym now ∙ h) in
          (
            j,
            d,
            elim (update-cases s.pc i compiling j) [
              | inl (e, new) ↦ ap owns new
              | inr (e, new) ↦ ap owns new ∙ o
            ],
          )
    ];
  }
    where
      c : K → Option (MaybeInProgress R)
      c = s.cache

      n : ℕ
      n = s.next_group

      n' : ℕ
      n' = s.next_group + 1

      k : K
      k = s.desc i

      entry : Option (MaybeInProgress R)
      entry = some (in_progress s.next_group)

      c' : K → Option (MaybeInProgress R)
      c' = put desc_eq s.cache (s.desc i) (some (in_progress s.next_group))

      group : (g : ℕ) → entry ≡ some (in_progress g) → n ≡ g
      group g h = cc h

      vacant : (j : ℕ) → owns (s.pc j) ≡ true → s.desc i ≢ s.desc j
      vacant j o d =
          let (g, held) = owner-Held c n (s.desc j) (s.pc j) o (inv.sound j) in cc (d, held, empty)

  -- The owner of an entry gives it up.
  settle-Inv :
      {s : System K R E} (i : ℕ) (e : Option (MaybeInProgress R)) (pc' : Pc R E)
      → owns (s.pc i) ≡ true
      → owns pc' ≡ false
      → ((g : ℕ) → e ≢ some (in_progress g))
      → Sound (put desc_eq s.cache (s.desc i) e) s.next_group (s.desc i) pc'
      → Inv s
      → Inv (record s { cache = put desc_eq s.cache (s.desc i) e; pc = update s.pc i pc' })
  settle-Inv {s} i e pc' owner leaves closed here inv = record {
    sound = λ j. elim (update-cases s.pc i pc' j) [
      | inl (same, now) ↦
          subst (Sound c' n (s.desc j)) (sym now) (subst (λ t. Sound c' n (s.desc t) pc') same here)
      | inr (other, now) ↦ subst (Sound c' n (s.desc j)) (sym now) (
          put-Sound desc_eq c n n k e (omega arith) (λ g h. absurd (closed g h)) (s.desc j) (s.pc j)
            (λ o d. other (inv.unique i j owner o d)) running (inv.sound j))
    ];
    unique = λ j l p q d. elim (owns-update s.pc i pc' j p) [
      | inl (same, o) ↦ absurd (cc (o, leaves))
      | inr (other, o) ↦ elim (owns-update s.pc i pc' l q) [
        | inl (same', o') ↦ absurd (cc (o', leaves))
        | inr (other', o') ↦ inv.unique j l o o' d
      ]
    ];
    fresh = λ l g h. inv.fresh l g (before l g h).1;
    distinct = λ l l' g h h'. inv.distinct l l' g (before l g h).1 (before l' g h').1;
    owned = λ l g h.
        let (apart, held) = before l g h in
        let (j, d, o) = inv.owned l g held in
        (
          j,
          d,
          elim (update-cases s.pc i pc' j) [
            | inl (same, new) ↦ absurd (apart (ap s.desc same ∙ d))
            | inr (other, new) ↦ ap owns new ∙ o
          ],
        );
  }
    where
      c : K → Option (MaybeInProgress R)
      c = s.cache

      n : ℕ
      n = s.next_group

      k : K
      k = s.desc i

      c' : K → Option (MaybeInProgress R)
      c' = put desc_eq s.cache (s.desc i) e

      running : (r : R) → s.cache (s.desc i) ≢ some (done r)
      running r h = let (g, held) = owner-Held c n k (s.pc i) owner (inv.sound i) in cc (h, held)

      before :
          (l : K) (g : ℕ)
          → c' l ≡ some (in_progress g)
          → (s.desc i ≢ l) × (s.cache l ≡ some (in_progress g))
      before l g h = elim (put-cases desc_eq s.cache (s.desc i) e l) [
        | inl (same, now) ↦ absurd (closed g (sym now ∙ h))
        | inr (other, now) ↦ (other, sym now ∙ h)
      ]

  look-Inv :
      {s : System K R E} (i : ℕ)
      → s.pc i ≡ reading
      → Inv s
      → Inv (at s i (look (s.cache (s.desc i))))
  unfolding look
  look-Inv {s} i at_top inv = elim (Option-cases (s.cache (s.desc i))) [
    | inl empty ↦
        subst (λ t. Inv (at s i (look t))) (sym empty)
          (move-Inv i writing tt (ap owns (sym at_top)) inv)
    | inr (in_progress g, found) ↦
        subst (λ t. Inv (at s i (look t))) (sym found)
          (move-Inv i (cloned g)
            (inv.fresh (s.desc i) g found, λ k' held. inv.distinct k' (s.desc i) g held found)
            (ap owns (sym at_top)) inv)
    | inr (done r, found) ↦
        subst (λ t. Inv (at s i (look t))) (sym found)
          (move-Inv i (returned (ok r)) found (ap owns (sym at_top)) inv)
  ]

  -- Every step of every thread keeps the invariant.
  pub Step-Inv : {s : System K R E} {i : ℕ} {t : System K R E} → Step desc_eq s i t → Inv s → Inv t
  unfolding claim store
  Step-Inv {i} (read e) inv = look-Inv i e inv
  Step-Inv {s} {i} (begin_wait g e) inv =
      move-Inv i (blocked g) (subst (Sound s.cache s.next_group (s.desc i)) e (inv.sound i))
        (ap owns (sym e)) inv
  Step-Inv {i} (wake g e free) inv = move-Inv i reading tt (ap owns (sym e)) inv
  Step-Inv {s} {i} (write e) inv = elim (Option-cases (s.cache (s.desc i))) [
    | inl empty ↦ subst Inv (rw (empty, claim) refl) (claim-Inv i (ap owns e) empty inv)
    | inr (entry, found) ↦
        subst Inv (rw (found, claim) refl) (move-Inv i reading tt (ap owns (sym e)) inv)
  ]
  Step-Inv {s} {i} (compiled r e) inv =
      move-Inv i (storing r) (subst (Sound s.cache s.next_group (s.desc i)) e (inv.sound i))
        (ap owns (sym e)) inv
  Step-Inv {s} {i} (unwind e) inv =
      move-Inv i unwound (subst (Sound s.cache s.next_group (s.desc i)) e (inv.sound i))
        (ap owns (sym e)) inv
  Step-Inv {s} {i} (finish (err x) e) inv =
      settle-Inv i none (returned (err x)) (ap owns e) refl (λ g h. cc h) tt inv
  Step-Inv {s} {i} (finish (ok r) e) inv =
      let (g, held) = subst (Sound s.cache s.next_group (s.desc i)) e (inv.sound i) in
      subst Inv (rw (held, store) refl) (
        settle-Inv i (some (done r)) (returned (ok r)) (ap owns e) refl (λ g' h. cc h)
          (put_self desc_eq s.cache (s.desc i) (some (done r))) inv)

  pub Reach-Inv :
      (desc : ℕ → K) (called : ℕ → Bool) {s : System K R E}
      → Reach desc_eq (init desc called) s
      → Inv s
  Reach-Inv desc called initial = record {
    sound = λ i. start_sound (called i) (desc i);
    unique = λ i j p q d. absurd (free (called i) p);
    fresh = λ k g h. absurd (cc h);
    distinct = λ k k' g h h'. absurd (cc h);
    owned = λ k g h. absurd (cc h);
  }
    where
      start_sound :
          (b : Bool) (k : K)
          → Sound {K = K} {R = R} {E = E} (λ _. none) 0 k (if b then reading else idle)
      start_sound true k = tt
      start_sound false k = tt

      free : (b : Bool) → owns {R = R} {E = E} (if b then reading else idle) ≡ true → ⊥
      free true h = absurd (cc h)
      free false h = absurd (cc h)
  Reach-Inv desc called (step r st) = Step-Inv st (Reach-Inv desc called r)
