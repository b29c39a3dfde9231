-- ===== src/Codegen/Once.antt =====
-- A kernel is compiled by one thread at a time, and its results are kept for good.
use geobacter.Prelude.{
  ℕ, ◌≡◌, ◌≢◌, refl, ap, ◌∙◌, subst, Bool, true, Option, none, some, inl, inr, Option-cases,
}
use geobacter.Prelude.Results.{ok, err}
use geobacter.Codegen.Driver.{
  MaybeInProgress, done, compiling, unwrapped, returned, System, put, claim, store, Step, read,
  begin_wait, wake, write, compiled, unwind, finish, Reach, initial, step, init,
}
use geobacter.Codegen.Steps.{Step-Inv, Reach-Inv}
use geobacter.Codegen.Invariant.{owns, Sound, Inv, owner-Held, put-cases}

-- A write to an entry that is not `done` keeps the entries that are.
put-done :
    {K R : Type 0} (desc_eq : (a b : K) → Dec (a ≡ b)) (c : K → Option (MaybeInProgress R)) (k : K)
    (e : Option (MaybeInProgress R)) (k' : K) {r : R}
    → ((r : R) → c k ≢ some (done r))
    → c k' ≡ some (done r)
    → put desc_eq c k e k' ≡ some (done r)
put-done desc_eq c k e k' {r} running h = elim (put-cases desc_eq c k e k') [
  | inl (same, now) ↦ absurd (running r (ap c same ∙ h))
  | inr (other, now) ↦ now ∙ h
]

module _ {K R E : Type 0} (desc_eq : (a b : K) → Dec (a ≡ b)) where
  -- The calls of a kernel do not change.
  pub Step-desc :
      {s : System K R E} {i : ℕ} {t : System K R E} → Step desc_eq s i t → t.desc ≡ s.desc
  unfolding claim store
  Step-desc (read e) = refl
  Step-desc (begin_wait g e) = refl
  Step-desc (wake g e free) = refl
  Step-desc {s} {i} (write e) = elim (Option-cases (s.cache (s.desc i))) [
    | inl empty ↦ rw (empty, claim) refl
    | inr (entry, found) ↦ rw (found, claim) refl
  ]
  Step-desc (compiled r e) = refl
  Step-desc (unwind e) = refl
  Step-desc (finish (err x) e) = refl
  Step-desc {s} {i} (finish (ok r) e) = elim (Option-cases (s.cache (s.desc i))) [
    | inl empty ↦ rw (empty, store) refl
    | inr (entry, found) ↦ rw (found, store) refl
  ]

  Step-done :
      {s : System K R E} {i : ℕ} {t : System K R E} (k : K) {r : R}
      → Step desc_eq s i t
      → Inv s
      → s.cache k ≡ some (done r)
      → t.cache k ≡ some (done r)
  unfolding claim store
  Step-done k (read e) inv h = h
  Step-done k (begin_wait g e) inv h = h
  Step-done k (wake g e free) inv h = h
  Step-done {s} {i} k (write e) inv h = elim (Option-cases (s.cache (s.desc i))) [
    | inl empty ↦
        rw (empty, claim) (put-done desc_eq s.cache (s.desc i) _ k (λ r x. cc (x, empty)) h)
    | inr (entry, found) ↦ rw (found, claim) h
  ]
  Step-done k (compiled r e) inv h = h
  Step-done k (unwind e) inv h = h
  Step-done {s} {i} k (finish (err x) e) inv h =
      let (g, held) =
        owner-Held s.cache s.next_group (s.desc i) (s.pc i) (ap owns e) (inv.sound i) in
      put-done desc_eq s.cache (s.desc i) none k (λ r y. cc (y, held)) h
  Step-done {s} {i} k (finish (ok r) e) inv h =
      let (g, held) =
        owner-Held s.cache s.next_group (s.desc i) (s.pc i) (ap owns e) (inv.sound i) in
      rw (held, store) (put-done desc_eq s.cache (s.desc i) _ k (λ r y. cc (y, held)) h)

  Reach-keeps :
      {s t : System K R E} (k : K) {r : R}
      → Inv s
      → Reach desc_eq s t
      → Inv t × (t.desc ≡ s.desc) × (s.cache k ≡ some (done r) → t.cache k ≡ some (done r))
  Reach-keeps k inv initial = (inv, refl, λ h. h)
  Reach-keeps k inv (step path st) =
      let (inv', same, kept) = Reach-keeps k inv path in
      (Step-Inv desc_eq st inv', Step-desc st ∙ same, λ h. Step-done k st inv' (kept h))

  -- In every interleaving, no two threads are in the compiler for one kernel, or about to store its
  -- results, at the same time.
  pub one_at_a_time :
      (desc : ℕ → K) (called : ℕ → Bool) {s : System K R E} (i j : ℕ)
      → Reach desc_eq (init desc called) s
      → owns (s.pc i) ≡ true
      → owns (s.pc j) ≡ true
      → s.desc i ≡ s.desc j
      → i ≡ j
  one_at_a_time desc called i j path = (Reach-Inv desc_eq desc called path).unique i j

  -- Once a call has returned the results of a kernel, the cache has them in every later state, and no
  -- thread that calls for that kernel is in the compiler.
  pub compiled_once :
      (desc : ℕ → K) (called : ℕ → Bool) {s t : System K R E} (i j : ℕ) {r : R}
      → Reach desc_eq (init desc called) s
      → s.pc i ≡ returned (ok r)
      → Reach desc_eq s t
      → t.desc j ≡ s.desc i
      → (t.cache (t.desc j) ≡ some (done r)) × (t.pc j ≢ compiling)
  compiled_once desc called {s} {t} i j {r} before fin after same =
      let inv = Reach-Inv desc_eq desc called before in
      let kept = Reach-keeps (s.desc i) inv after in
      let found : t.cache (t.desc j) ≡ some (done r) =
        ap t.cache same
        ∙ kept.2 (subst (Sound s.cache s.next_group (s.desc i)) fin (inv.sound i)) in
      (
        found,
        λ busy.
            let (g, held) = subst (Sound t.cache t.next_group (t.desc j)) busy (kept.0.sound j) in
            cc (held, found),
      )

  -- All calls for a kernel that return results return the same.
  one_result :
      (desc : ℕ → K) (called : ℕ → Bool) {s t : System K R E} (i j : ℕ) {r r' : R}
      → Reach desc_eq (init desc called) s
      → s.pc i ≡ returned (ok r)
      → Reach desc_eq s t
      → t.desc j ≡ s.desc i
      → t.pc j ≡ returned (ok r')
      → r' ≡ r
  one_result desc called {s} {t} i j {r} {r'} before fin after same over =
      let (found, free) = compiled_once desc called i j before fin after same in
      let inv = (Reach-keeps (s.desc i) {r = r} (Reach-Inv desc_eq desc called before) after).0 in
      let there : t.cache (t.desc j) ≡ some (done r') =
        subst (Sound t.cache t.next_group (t.desc j)) over (inv.sound j) in
      cc (there, found)

  -- The `unwrap` that stores the results never panics, whatever the other threads do.
  unwrap_safe :
      (desc : ℕ → K) (called : ℕ → Bool) {s : System K R E} (i : ℕ)
      → Reach desc_eq (init desc called) s
      → s.pc i ≢ unwrapped
  unwrap_safe desc called {s} i path at_end =
      let inv = Reach-Inv desc_eq desc called path in
      subst (Sound s.cache s.next_group (s.desc i)) at_end (inv.sound i)
