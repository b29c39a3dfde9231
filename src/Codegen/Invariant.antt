-- ===== src/Codegen/Invariant.antt =====
-- What holds of the cache and of every thread after any steps of `codegen_kernel`.
use geobacter.Prelude.{
  ℕ, ◌<◌, ◌≤◌, ◌≡◌, ◌≢◌, refl, sym, ap, ◌∙◌, subst, Bool, true, false, Option, some, ite, update,
  update-cases, ◌⊎◌, inl, inr, arith,
}
use geobacter.Prelude.Results.{ok, err}
use geobacter.Codegen.Driver.{
  MaybeInProgress, in_progress, done, Pc, idle, reading, writing, compiling, unwound, unwrapped,
  cloned, blocked, storing, returned, System, at, put,
}

-- The threads that an entry in progress belongs to.
abbrev pub owns : {R E : Type 0} → Pc R E → Bool
owns compiling = true
owns (storing r) = true
owns unwound = true
owns _ = false

-- No other entry holds the group that a thread waits for than the one of its kernel.
abbrev pub Waiting : {K R : Type 0} → (K → Option (MaybeInProgress R)) → ℕ → K → ℕ → Type 0
Waiting {K} c n k g = (g < n) × ((k' : K) → c k' ≡ some (in_progress g) → k' ≡ k)

abbrev pub Held : {K R : Type 0} → (K → Option (MaybeInProgress R)) → K → Type 0
Held c k = (g : ℕ) × (c k ≡ some (in_progress g))

-- What a thread may rely on.
abbrev pub Sound : {K R E : Type 0} → (K → Option (MaybeInProgress R)) → ℕ → K → Pc R E → Type 0
Sound c n k idle = Unit
Sound c n k reading = Unit
Sound c n k writing = Unit
Sound c n k (cloned g) = Waiting c n k g
Sound c n k (blocked g) = Waiting c n k g
Sound c n k compiling = Held c k
Sound c n k (storing r) = Held c k
Sound c n k unwound = Held c k
Sound c n k unwrapped = ⊥
Sound c n k (returned (ok r)) = c k ≡ some (done r)
Sound c n k (returned (err e)) = Unit

module _ {K R E : Type 0} where
  pub record Inv (s : System K R E) : Type 0 where
    pub sound : (i : ℕ) → Sound s.cache s.next_group (s.desc i) (s.pc i)
    pub unique :
        (i j : ℕ) → owns (s.pc i) ≡ true → owns (s.pc j) ≡ true → s.desc i ≡ s.desc j → i ≡ j
    pub fresh : (k : K) (g : ℕ) → s.cache k ≡ some (in_progress g) → g < s.next_group
    pub distinct :
        (k k' : K) (g : ℕ)
        → s.cache k ≡ some (in_progress g)
        → s.cache k' ≡ some (in_progress g)
        → k ≡ k'
    pub owned :
        (k : K) (g : ℕ)
        → s.cache k ≡ some (in_progress g)
        → (i : ℕ) × (s.desc i ≡ k) × (owns (s.pc i) ≡ true)

  -- A thread moves, and the cache stays.
  pub move-Inv :
      {s : System K R E} (i : ℕ) (pc' : Pc R E)
      → Sound s.cache s.next_group (s.desc i) pc'
      → owns pc' ≡ owns (s.pc i)
      → Inv s
      → Inv (at s i pc')
  move-Inv {s} i pc' here same inv = record {
    sound = λ j. elim (update-cases s.pc i pc' j) [
      | inl (e, now) ↦
          subst (Sound s.cache s.next_group (s.desc j)) (sym now)
            (subst (λ t. Sound s.cache s.next_group (s.desc t) pc') e here)
      | inr (e, now) ↦ subst (Sound s.cache s.next_group (s.desc j)) (sym now) (inv.sound j)
    ];
    unique = λ j l p q. inv.unique j l (sym (owner j) ∙ p) (sym (owner l) ∙ q);
    fresh = inv.fresh;
    distinct = inv.distinct;
    owned = λ k g e. let (j, d, o) = inv.owned k g e in (j, d, owner j ∙ o);
  }
    where
      owner : (j : ℕ) → owns (update s.pc i pc' j) ≡ owns (s.pc j)
      owner j = elim (update-cases s.pc i pc' j) [
        | inl (e, now) ↦ ap owns now ∙ same ∙ ap (λ t. owns (s.pc t)) e
        | inr (e, now) ↦ ap owns now
      ]

pub put-cases :
    {K A : Type 0} (desc_eq : (a b : K) → Dec (a ≡ b)) (c : K → Option A) (k : K) (e : Option A)
    (k' : K)
    → ((k ≡ k') × (put desc_eq c k e k' ≡ e)) ⊎ ((k ≢ k') × (put desc_eq c k e k' ≡ c k'))
put-cases desc_eq c k e k' =
    elim (desc_eq k k')
      as (λ d. ((k ≡ k') × (ite d e (c k') ≡ e)) ⊎ ((k ≢ k') × (ite d e (c k') ≡ c k'))) [
        | yes h ↦ inl (h, refl)
        | no h ↦ inr (h, refl)
      ]

-- An entry changes that no thread relies on: it was not `done`, and a group in it is a new one.
module _ {K R : Type 0} (desc_eq : (a b : K) → Dec (a ≡ b)) (c : K → Option (MaybeInProgress R))
    (n n' : ℕ) (k : K) (e : Option (MaybeInProgress R)) (grow : n ≤ n')
    (group : (g : ℕ) → e ≡ some (in_progress g) → n ≤ g) where
  pub put-Waiting : (k' : K) (g : ℕ) → Waiting c n k' g → Waiting (put desc_eq c k e) n' k' g
  put-Waiting k' g (low, only) = (
    omega (arith, low, grow),
    λ l held. elim (put-cases desc_eq c k e l) [
      | inl (same, now) ↦ absurd (omega (arith, low, group g (sym now ∙ held)))
      | inr (other, now) ↦ only l (sym now ∙ held)
    ],
  )

  pub put_elsewhere :
      (k' : K) {x : Option (MaybeInProgress R)} → k ≢ k' → c k' ≡ x → put desc_eq c k e k' ≡ x
  put_elsewhere k' apart h = elim (put-cases desc_eq c k e k') [
    | inl (same, now) ↦ absurd (apart same)
    | inr (other, now) ↦ now ∙ h
  ]

  pub put-Sound :
      {E : Type 0} (k' : K) (pc : Pc R E)
      → (owns pc ≡ true → k ≢ k')
      → ((r : R) → c k ≢ some (done r))
      → Sound c n k' pc
      → Sound (put desc_eq c k e) n' k' pc
  put-Sound k' idle apart live h = tt
  put-Sound k' reading apart live h = tt
  put-Sound k' writing apart live h = tt
  put-Sound k' (cloned g) apart live h = put-Waiting k' g h
  put-Sound k' (blocked g) apart live h = put-Waiting k' g h
  put-Sound k' compiling apart live (g, h) = (g, put_elsewhere k' (apart refl) h)
  put-Sound k' (storing r) apart live (g, h) = (g, put_elsewhere k' (apart refl) h)
  put-Sound k' unwound apart live (g, h) = (g, put_elsewhere k' (apart refl) h)
  put-Sound k' unwrapped apart live h = h
  put-Sound k' (returned (ok r)) apart live h = put_elsewhere k' (λ same. live r (ap c same ∙ h)) h
  put-Sound k' (returned (err x)) apart live h = tt

pub put_self :
    {K A : Type 0} (desc_eq : (a b : K) → Dec (a ≡ b)) (c : K → Option A) (k : K) (e : Option A)
    → put desc_eq c k e k ≡ e
put_self desc_eq c k e = elim (put-cases desc_eq c k e k) [
  | inl (same, now) ↦ now
  | inr (other, now) ↦ absurd (other refl)
]

-- An owner's entry is there.
pub owner-Held :
    {K R E : Type 0} (c : K → Option (MaybeInProgress R)) (n : ℕ) (k : K) (pc : Pc R E)
    → owns pc ≡ true
    → Sound c n k pc
    → Held c k
owner-Held c n k idle o h = absurd (cc o)
owner-Held c n k reading o h = absurd (cc o)
owner-Held c n k writing o h = absurd (cc o)
owner-Held c n k (cloned g) o h = absurd (cc o)
owner-Held c n k (blocked g) o h = absurd (cc o)
owner-Held c n k compiling o h = h
owner-Held c n k (storing r) o h = h
owner-Held c n k unwound o h = h
owner-Held c n k unwrapped o h = absurd h
owner-Held c n k (returned r) o h = absurd (cc o)

-- Of two threads, of which one has moved, the other is an owner as before.
pub owns-update :
    {R E : Type 0} (f : ℕ → Pc R E) (i : ℕ) (pc' : Pc R E) (j : ℕ)
    → owns (update f i pc' j) ≡ true
    → ((i ≡ j) × (owns pc' ≡ true)) ⊎ ((i ≢ j) × (owns (f j) ≡ true))
owns-update f i pc' j h = elim (update-cases f i pc' j) [
  | inl (e, now) ↦ inl (e, ap owns (sym now) ∙ h)
  | inr (e, now) ↦ inr (e, ap owns (sym now) ∙ h)
]
