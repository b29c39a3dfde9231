-- ===== src/Codegen/Waiting.antt =====
-- Who waits for whom in `codegen_kernel`.
use geobacter.Prelude.{
  ℕ, ◌≡◌, ◌≢◌, refl, sym, ap, ◌∙◌, subst, ℕ_discrete, update_self, update_other, Option-cases, Bool,
  true, false, Option, none, some, inl, inr, ◌⊎◌,
}
use geobacter.Prelude.Results.{Result, ok, err}
use geobacter.Codegen.Driver.{
  MaybeInProgress, in_progress, done, Pc, idle, reading, writing, compiling, unwound, unwrapped,
  cloned, blocked, storing, returned, System, look, claim, store, Step, read, begin_wait, wake,
  write, compiled, unwind, finish, Reach, initial, step, init,
}
use geobacter.Codegen.Steps.{Step-Inv, Reach-Inv}
use geobacter.Codegen.Invariant.{owns, Held, owner-Held, Sound, Inv}
use geobacter.Codegen.Once.{Step-desc}

-- The calls that have not returned, of threads that own no entry.
abbrev pub pending : {R E : Type 0} → Pc R E → Bool
pending reading = true
pending writing = true
pending (cloned g) = true
pending (blocked g) = true
pending _ = false

-- The calls that are over, and those that were not made.
pub data AtRest {R E : Type 0} : Pc R E → Type 0 where
  not_called : AtRest idle
  over : (r : Result E R) → AtRest (returned r)

entry-cases :
    {R : Type 0} (e : Option (MaybeInProgress R)) (g : ℕ)
    → (e ≡ some (in_progress g)) ⊎ (e ≢ some (in_progress g))
entry-cases none g = inr (λ h. cc h)
entry-cases (some (done r)) g = inr (λ h. cc h)
entry-cases (some (in_progress g')) g = elim (ℕ_discrete g' g) [
  | yes h ↦ inl (ap (λ t. some (in_progress t)) h)
  | no h ↦ inr (λ e. h (cc e))
]

abbrev still : {R E : Type 0} → Pc R E → Bool
still idle = true
still (returned r) = true
still _ = false

AtRest-still : {R E : Type 0} {pc : Pc R E} → AtRest pc → still pc ≡ true
AtRest-still not_called = refl
AtRest-still (over r) = refl

module _ {K R E : Type 0} (desc_eq : (a b : K) → Dec (a ≡ b)) where
  -- A thread that owns an entry, and has not panicked, can move.
  owner-moves :
      {s : System K R E} (i : ℕ) (pc : Pc R E)
      → s.pc i ≡ pc
      → owns pc ≡ true
      → pc ≢ unwound
      → (t : System K R E) × Step desc_eq s i t
  owner-moves i idle e o alive = absurd (cc o)
  owner-moves i reading e o alive = absurd (cc o)
  owner-moves i writing e o alive = absurd (cc o)
  owner-moves i (cloned g) e o alive = absurd (cc o)
  owner-moves i (blocked g) e o alive = absurd (cc o)
  owner-moves i compiling e o alive = (_, unwind e)
  owner-moves i (storing r) e o alive = (_, finish r e)
  owner-moves i unwound e o alive = absurd (alive refl)
  owner-moves i unwrapped e o alive = absurd (cc o)
  owner-moves i (returned r) e o alive = absurd (cc o)

  module _ {s : System K R E} (inv : Inv s) (alive : (i : ℕ) → s.pc i ≢ unwound)
      (stuck : (i : ℕ) (t : System K R E) → Step desc_eq s i t → ⊥) where
    nobody_blocked : (i g : ℕ) → s.pc i ≡ blocked g → ⊥
    nobody_blocked i g e = elim (entry-cases (s.cache (s.desc i)) g) [
      | inl held ↦
          let (j, d, o) = inv.owned (s.desc i) g held in
          let (t, st) = owner-moves j (s.pc j) refl o (alive j) in stuck j t st
      | inr gone ↦
          let (low, only) = subst (Sound s.cache s.next_group (s.desc i)) e (inv.sound i) in
          stuck i _ (
            wake g e (record {
              not_cached = λ k h. gone (ap s.cache (sym (only k h)) ∙ h);
              not_cloned = λ j c. stuck j _ (begin_wait g c);
            }))
    ]

    all_rest : (i : ℕ) (pc : Pc R E) → s.pc i ≡ pc → AtRest pc
    all_rest i idle e = not_called
    all_rest i reading e = absurd (stuck i _ (read e))
    all_rest i writing e = absurd (stuck i _ (write e))
    all_rest i (cloned g) e = absurd (stuck i _ (begin_wait g e))
    all_rest i (blocked g) e = absurd (nobody_blocked i g e)
    all_rest i compiling e = absurd (stuck i _ (unwind e))
    all_rest i (storing r) e = absurd (stuck i _ (finish r e))
    all_rest i unwound e = absurd (alive i e)
    all_rest i unwrapped e = absurd (subst (Sound s.cache s.next_group (s.desc i)) e (inv.sound i))
    all_rest i (returned r) e = over r

  -- No deadlock: where the compiler has not panicked, a state in which no thread can take a step is
  -- one in which every call has returned.
  pub no_deadlock :
      (desc : ℕ → K) (called : ℕ → Bool) {s : System K R E} (i : ℕ)
      → Reach desc_eq (init desc called) s
      → ((i : ℕ) → s.pc i ≢ unwound)
      → ((i : ℕ) (t : System K R E) → Step desc_eq s i t → ⊥)
      → AtRest (s.pc i)
  no_deadlock desc called {s} i path alive stuck =
      all_rest (Reach-Inv desc_eq desc called path) alive stuck i (s.pc i) refl

  -- A thread at rest takes no step.
  pub AtRest-stuck :
      {s : System K R E} (i : ℕ) {t : System K R E} → AtRest (s.pc i) → Step desc_eq s i t → ⊥
  AtRest-stuck i rest (read e) = cc (AtRest-still rest, ap still e)
  AtRest-stuck i rest (begin_wait g e) = cc (AtRest-still rest, ap still e)
  AtRest-stuck i rest (wake g e free) = cc (AtRest-still rest, ap still e)
  AtRest-stuck i rest (write e) = cc (AtRest-still rest, ap still e)
  AtRest-stuck i rest (compiled x e) = cc (AtRest-still rest, ap still e)
  AtRest-stuck i rest (unwind e) = cc (AtRest-still rest, ap still e)
  AtRest-stuck i rest (finish x e) = cc (AtRest-still rest, ap still e)

  -- Only the thread that takes a step moves.
  Step-other :
      {s : System K R E} {i : ℕ} {t : System K R E} (j : ℕ)
      → Step desc_eq s i t
      → i ≢ j
      → t.pc j ≡ s.pc j
  unfolding claim store
  Step-other {s} {i} j (read e) other = update_other s.pc _ other
  Step-other {s} {i} j (begin_wait g e) other = update_other s.pc _ other
  Step-other {s} {i} j (wake g e free) other = update_other s.pc _ other
  Step-other {s} {i} j (write e) other = elim (Option-cases (s.cache (s.desc i))) [
    | inl empty ↦ rw (empty, claim) (update_other s.pc compiling other)
    | inr (entry, found) ↦ rw (found, claim) (update_other s.pc reading other)
  ]
  Step-other {s} {i} j (compiled r e) other = update_other s.pc _ other
  Step-other {s} {i} j (unwind e) other = update_other s.pc _ other
  Step-other {s} {i} j (finish (err x) e) other = update_other s.pc _ other
  Step-other {s} {i} j (finish (ok r) e) other = elim (Option-cases (s.cache (s.desc i))) [
    | inl empty ↦ rw (empty, store) (update_other s.pc _ other)
    | inr (entry, found) ↦ rw (found, store) (update_other s.pc _ other)
  ]

  -- A thread that has not called stays so.
  pub idle_stays : {s t : System K R E} (i : ℕ) → s.pc i ≡ idle → Reach desc_eq s t → t.pc i ≡ idle
  idle_stays i e initial = e
  idle_stays i e (step {t = u} {i = j} path st) =
      let before : u.pc i ≡ idle = idle_stays i e path in
      Step-other i st
        (λ same. AtRest-stuck j (subst AtRest (sym (ap u.pc same ∙ before)) not_called) st)
      ∙ before

  Step-live : {s : System K R E} {i : ℕ} {t : System K R E} → Step desc_eq s i t → s.pc i ≢ unwound
  Step-live (read e) gone = cc (e, gone)
  Step-live (begin_wait g e) gone = cc (e, gone)
  Step-live (wake g e free) gone = cc (e, gone)
  Step-live (write e) gone = cc (e, gone)
  Step-live (compiled r e) gone = cc (e, gone)
  Step-live (unwind e) gone = cc (e, gone)
  Step-live (finish r e) gone = cc (e, gone)

  Step-unwound :
      {s : System K R E} {i : ℕ} {t : System K R E} (j : ℕ)
      → Step desc_eq s i t
      → s.pc j ≡ unwound
      → t.pc j ≡ unwound
  Step-unwound {s} {i} {t} j st gone =
      Step-other j st (λ same. Step-live st (ap s.pc same ∙ gone)) ∙ gone

  -- A thread that waits for a kernel whose entry stays in progress waits on.
  Step-pending :
      {s : System K R E} {i : ℕ} {t : System K R E}
      → Step desc_eq s i t
      → Held s.cache (s.desc i)
      → pending (s.pc i) ≡ true
      → pending (t.pc i) ≡ true
  unfolding look claim
  Step-pending {s} {i} (read e) (g, held) p =
      rw (held, look) (ap pending (update_self s.pc i (cloned g)))
  Step-pending {s} {i} (begin_wait g e) held p = ap pending (update_self s.pc i (blocked g))
  Step-pending {s} {i} (wake g e free) held p = ap pending (update_self s.pc i reading)
  Step-pending {s} {i} (write e) (g, held) p =
      rw (held, claim) (ap pending (update_self s.pc i reading))
  Step-pending (compiled r e) held p = absurd (cc (p, ap pending e))
  Step-pending (unwind e) held p = absurd (cc (p, ap pending e))
  Step-pending (finish r e) held p = absurd (cc (p, ap pending e))

  Reach-pending :
      {s t : System K R E} (i j : ℕ)
      → Inv s
      → s.pc i ≡ unwound
      → s.desc j ≡ s.desc i
      → pending (s.pc j) ≡ true
      → Reach desc_eq s t
      → Inv t × (t.pc i ≡ unwound) × (t.desc j ≡ t.desc i) × (pending (t.pc j) ≡ true)
  Reach-pending i j inv gone same p initial = (inv, gone, same, p)
  Reach-pending {s} {t} i j inv gone same p (step {t = u} {i = l} path st) =
      let (inv', gone', same', p') = Reach-pending i j inv gone same p path in
      let d = Step-desc desc_eq st in
      let (g, held) =
        owner-Held u.cache u.next_group (u.desc i) (u.pc i) (ap owns gone') (inv'.sound i) in
      (
        Step-Inv desc_eq st inv',
        Step-unwound i st gone',
        ap (λ x. x j) d ∙ same' ∙ ap (λ x. x i) (sym d),
        elim (ℕ_discrete l j) [
          | yes e ↦
              ap (λ x. pending (t.pc x)) (sym e)
              ∙ Step-pending st (g, ap u.cache (ap u.desc e ∙ same') ∙ held)
                  (ap (λ x. pending (u.pc x)) e ∙ p')
          | no e ↦ ap pending (Step-other j st e) ∙ p'
        ],
      )

  -- After a panic of the compiler, no call for the same kernel returns that has not returned by
  -- then: in every later state it reads, waits, or is about to write.
  pub panic_blocks :
      (desc : ℕ → K) (called : ℕ → Bool) {s t : System K R E} (i j : ℕ)
      → Reach desc_eq (init desc called) s
      → s.pc i ≡ unwound
      → s.desc j ≡ s.desc i
      → pending (s.pc j) ≡ true
      → Reach desc_eq s t
      → pending (t.pc j) ≡ true
  panic_blocks desc called i j before gone same p after =
      (Reach-pending i j (Reach-Inv desc_eq desc called before) gone same p after).3
