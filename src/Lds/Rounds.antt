-- ===== src/Lds/Rounds.antt =====
-- What a workitem does in one use of a borrow, and in which phases.
use geobacter.Prelude.{
  ℕ, ◌+◌, ◌≤◌, ◌<◌, ◌≡◌, ◌≢◌, ◌⊎◌, inl, inr, refl, sym, ◌∙◌, subst, Bool, true, false,
  if◌then◌else◌, List, [], ◌∷◌, All, arith,
}
use geobacter.Lds.{
  Event, barrier, write, read, drop, SliceUse, owned, index, MutUse, deref, deref_mut,
  enforce_initial_barrier, slice_uses, shared_round, mut_uses, unique_round, Round, with_shared,
  with_mut, round,
}
use geobacter.Lds.Phases.{phased, after, phased-append, after-append, Conflict, InOrder, All-append}

-- An event of the workitem that owns `own`, in a use that begins in phase `p` and ends in `q`: it
-- writes its own slot in the first phase and drops it in the last, and reads the others between.
abbrev pub Does : ℕ → ℕ → ℕ → Event → ℕ → Type 0
Does own p q barrier n = ⊥
Does own p q (write s) n = (s ≡ own) × (n ≡ p)
Does own p q (read s) n = (s ≡ own) ⊎ ((p < n) × (n < q))
Does own p q (drop s) n = (s ≡ own) × (n ≡ q)

pub record Within (own p q : ℕ) (x : ℕ × Event) : Type 0 where
  pub does : Does own p q x.1 x.0
  pub late : p ≤ x.0
  pub early : x.0 ≤ q

-- Whether the kernel uses the slice of the whole workgroup.
unfoldable pub indexes : List SliceUse → Bool
indexes [] = false
indexes (owned ∷ us) = indexes us
indexes (index k ∷ us) = true

-- The last phase of a use.
unfoldable pub last_phase : ℕ → Round → ℕ
unfolding indexes
last_phase p (with_shared us) = if indexes us then p + 2 else p + 1
last_phase p (with_mut us) = p

shared_later : (p : ℕ) (us : List SliceUse) → p < last_phase p (with_shared us)
unfolding last_phase indexes
shared_later p [] = omega arith
shared_later p (owned ∷ us) = shared_later p us
shared_later p (index k ∷ us) = omega arith

-- After the first barrier.
barred :
    (own p q n : ℕ) (us : List SliceUse)
    → p < n
    → n < q
    → All (Within own p q) (phased n (slice_uses own true us))
      × (after n (slice_uses own true us) ≡ n)
unfolding slice_uses enforce_initial_barrier phased after
barred own p q n [] h k = (tt, refl)
barred own p q n (owned ∷ us) h k =
    let (rest, end) = barred own p q n us h k in
    ((record { does = inl refl; late = omega arith; early = omega arith }, rest), end)
barred own p q n (index s ∷ us) h k =
    let (rest, end) = barred own p q n us h k in
    ((record { does = inr (h, k); late = omega arith; early = omega arith }, rest), end)

-- Before it.
unbarred :
    (own p : ℕ) (us : List SliceUse)
    → All (Within own p (last_phase p (with_shared us))) (phased p (slice_uses own false us))
      × (after p (slice_uses own false us) + 1 ≡ last_phase p (with_shared us))
unfolding slice_uses enforce_initial_barrier phased after last_phase indexes
unbarred own p [] = (tt, refl)
unbarred own p (owned ∷ us) =
    let (rest, end) = unbarred own p us in
    (
      (
        record { does = inl refl; late = omega arith; early = omega (arith, shared_later p us) },
        rest,
      ),
      end,
    )
unbarred own p (index s ∷ us) =
    let (rest, end) = barred own p (p + 2) (p + 1) us (omega arith) (omega arith) in
    (
      (
        record { does = inr (omega arith, omega arith); late = omega arith; early = omega arith },
        rest,
      ),
      omega (arith, end),
    )

shared-Within :
    (own p : ℕ) (us : List SliceUse)
    → All (Within own p (last_phase p (with_shared us))) (phased p (shared_round own us))
      × (after p (shared_round own us) ≡ last_phase p (with_shared us))
unfolding shared_round phased after
shared-Within own p us =
    let q = last_phase p (with_shared us) in
    let uses = slice_uses own false us in
    let (inner, end) = unbarred own p us in
    let ending : List Event = barrier ∷ drop own ∷ [] in
    let dropped : ℕ × Event = (after p uses + 1, drop own) in
    (
      (
        record {
          does = (refl, refl);
          late = omega arith;
          early = omega (arith, shared_later p us);
        },
        subst (All (Within own p q)) (sym (phased-append p uses ending)) (
            All-append (Within own p q) (phased p uses) (dropped ∷ []) inner (
              record {
                does = (refl, end);
                late = omega (arith, end, shared_later p us);
                early = omega (arith, end);
              },
              tt,
            )),
      ),
      after-append p uses ending ∙ end,
    )

muts-Within :
    (own p : ℕ) (us : List MutUse)
    → All (Within own p p) (phased p (mut_uses own us)) × (after p (mut_uses own us) ≡ p)
unfolding mut_uses phased after
muts-Within own p [] = (tt, refl)
muts-Within own p (deref ∷ us) =
    let (rest, end) = muts-Within own p us in
    ((record { does = inl refl; late = omega arith; early = omega arith }, rest), end)
muts-Within own p (deref_mut ∷ us) =
    let (rest, end) = muts-Within own p us in
    ((record { does = (refl, refl); late = omega arith; early = omega arith }, rest), end)

unique-Within :
    (own p : ℕ) (us : List MutUse)
    → All (Within own p p) (phased p (unique_round own us)) × (after p (unique_round own us) ≡ p)
unfolding unique_round phased after
unique-Within own p us =
    let uses = mut_uses own us in
    let (inner, end) = muts-Within own p us in
    let dropped : ℕ × Event = (after p uses, drop own) in
    (
      (
        record { does = (refl, refl); late = omega arith; early = omega arith },
        subst (All (Within own p p)) (sym (phased-append p uses (drop own ∷ []))) (
            All-append (Within own p p) (phased p uses) (dropped ∷ []) inner (
              record { does = (refl, end); late = omega (arith, end); early = omega (arith, end) },
              tt,
            )),
      ),
      after-append p uses (drop own ∷ []) ∙ end,
    )

-- The events of a use, and the phase that it ends in.
pub round-Within :
    (own p : ℕ) (r : Round)
    → All (Within own p (last_phase p r)) (phased p (round own r))
      × (after p (round own r) ≡ last_phase p r)
unfolding round last_phase
round-Within own p (with_shared us) = shared-Within own p us
round-Within own p (with_mut us) = unique-Within own p us

-- Two workitems with different slots, in uses that begin and end together.
pub Within-InOrder :
    {o o' p q : ℕ} (x y : ℕ × Event) → o ≢ o' → Within o p q x → Within o' p q y → InOrder x y
Within-InOrder {o} {o'} {p} {q} (n, e) (m, f) apart h k same = clash e f n m h.does k.does same
  where
    clash : (e f : Event) (n m : ℕ) → Does o p q e n → Does o' p q f m → n ≡ m → ¬ Conflict e f
    clash barrier f n m a b s z = a
    clash (write s) barrier n m a b t z = b
    clash (read s) barrier n m a b t z = b
    clash (drop s) barrier n m a b t z = b
    clash (read s) (read t) n m a b eq z = z
    clash (write s) (write t) n m a b eq z = apart (sym a.0 ∙ z ∙ b.0)
    clash (write s) (drop t) n m a b eq z = apart (sym a.0 ∙ z ∙ b.0)
    clash (drop s) (write t) n m a b eq z = apart (sym a.0 ∙ z ∙ b.0)
    clash (drop s) (drop t) n m a b eq z = apart (sym a.0 ∙ z ∙ b.0)
    clash (write s) (read t) n m a (inl b) eq z = apart (sym a.0 ∙ z ∙ b)
    clash (write s) (read t) n m a (inr b) eq z = absurd (omega (arith, a.1, b.0, eq))
    clash (drop s) (read t) n m a (inl b) eq z = apart (sym a.0 ∙ z ∙ b)
    clash (drop s) (read t) n m a (inr b) eq z = absurd (omega (arith, a.1, b.1, eq))
    clash (read s) (write t) n m (inl a) b eq z = apart (sym a ∙ z ∙ b.0)
    clash (read s) (write t) n m (inr a) b eq z = absurd (omega (arith, a.0, b.1, eq))
    clash (read s) (drop t) n m (inl a) b eq z = apart (sym a ∙ z ∙ b.0)
    clash (read s) (drop t) n m (inr a) b eq z = absurd (omega (arith, a.1, b.1, eq))

pub last_phase_later : (p : ℕ) (r : Round) → p ≤ last_phase p r
unfolding last_phase
last_phase_later p (with_shared us) = omega (arith, shared_later p us)
last_phase_later p (with_mut us) = omega arith
