-- ===== src/Lds/Safe.antt =====
-- Workitems that use a borrow in the same way do not disturb each other.
use geobacter.Prelude.{
  ℕ, ◌+◌, ◌≤◌, ◌≡◌, ◌≢◌, refl, sym, ap, ◌∙◌, subst, Bool, true, false, if◌then◌else◌, some, List,
  [], ◌∷◌, ◌++◌, get_elem?, All, All-map, arith,
}
use geobacter.Lds.{Event, mark_used, Round, with_shared, with_mut, round, trace}
use geobacter.Lds.Phases.{
  phased, phased-append, Conflict, InOrder, AllInOrder, All-append, All-get, AllInOrder-append,
  AllInOrder-early, AllInOrder-late, UpTo, From,
}
use geobacter.Lds.Rounds.{
  Within, indexes, last_phase, last_phase_later, round-Within, Within-InOrder,
}

-- The uses go together: the kinds are the same, and in each both use the slice of the workgroup, or
-- neither does.
abbrev pub Same : List Round → List Round → Type 0
Same [] [] = Unit
Same (with_shared us ∷ rs) (with_shared vs ∷ ss) = (indexes us ≡ indexes vs) × Same rs ss
Same (with_mut us ∷ rs) (with_mut vs ∷ ss) = Same rs ss
Same _ _ = ⊥

split :
    (own p : ℕ) (r : Round) (rs : List Round)
    → phased p (round own r ++ trace own true rs)
      ≡ phased p (round own r) ++ phased (last_phase p r) (trace own true rs)
split own p r rs =
    phased-append p (round own r) (trace own true rs)
    ∙ ap (λ n. phased p (round own r) ++ phased n (trace own true rs)) (round-Within own p r).1

-- The next use begins after a barrier.
trace-From : (own q : ℕ) (rs : List Round) → From (q + 1) (phased q (trace own true rs))
unfolding trace mark_used phased
trace-From own q [] = tt
trace-From own q (r ∷ rs) = subst (From (q + 1)) (sym (split own (q + 1) r rs)) (
    All-append (λ x. q + 1 ≤ x.0) (phased (q + 1) (round own r)) (phased end (trace own true rs))
      (All-map (phased (q + 1) (round own r)) (λ x w. w.late) (round-Within own (q + 1) r).0)
      (All-map (phased end (trace own true rs)) (λ x w. omega (arith, w, later))
        (trace-From own end rs)))
  where
    end : ℕ
    end = last_phase (q + 1) r

    later : q + 1 ≤ end
    later = last_phase_later (q + 1) r

module _ {own own' : ℕ} (apart : own ≢ own') where
  rounds :
      (p q : ℕ) (r r' : Round)
      → last_phase p r ≡ q
      → last_phase p r' ≡ q
      → AllInOrder (phased p (round own r)) (phased p (round own' r'))
  rounds p q r r' e f =
      All-map (phased p (round own r))
        (λ x w. All-map (phased p (round own' r')) (λ y v. Within-InOrder x y apart w v) theirs)
        ours
    where
      ours : All (Within own p q) (phased p (round own r))
      ours = subst (λ n. All (Within own p n) (phased p (round own r))) e (round-Within own p r).0

      theirs : All (Within own' p q) (phased p (round own' r'))
      theirs =
          subst (λ n. All (Within own' p n) (phased p (round own' r'))) f (round-Within own' p r').0

  -- A use, and the later ones.
  with_rest :
      (p q : ℕ) (r r' : Round) (rs ss : List Round)
      → last_phase p r ≡ q
      → last_phase p r' ≡ q
      → AllInOrder (phased q (trace own true rs)) (phased q (trace own' true ss))
      → AllInOrder
          (phased p (round own r ++ trace own true rs))
          (phased p (round own' r' ++ trace own' true ss))
  with_rest p q r r' rs ss e f rest =
      subst (λ xs. AllInOrder xs (phased p (round own' r' ++ trace own' true ss))) (sym ours)
        (subst (λ ys. AllInOrder (phased p (round own r) ++ phased q (trace own true rs)) ys)
          (sym theirs)
          (AllInOrder-append (phased p (round own r)) (phased q (trace own true rs))
            (phased p (round own' r')) (phased q (trace own' true ss)) (rounds p q r r' e f)
            (AllInOrder-early q _ _ (up_to own r e) (trace-From own' q ss))
            (AllInOrder-late q _ _ (trace-From own q rs) (up_to own' r' f)) rest))
    where
      up_to : (o : ℕ) (t : Round) → last_phase p t ≡ q → UpTo q (phased p (round o t))
      up_to o t h =
          All-map (phased p (round o t)) (λ x w. omega (arith, w.early, h)) (round-Within o p t).0

      ours :
          phased p (round own r ++ trace own true rs)
          ≡ phased p (round own r) ++ phased q (trace own true rs)
      ours = split own p r rs ∙ ap (λ n. phased p (round own r) ++ phased n (trace own true rs)) e

      theirs :
          phased p (round own' r' ++ trace own' true ss)
          ≡ phased p (round own' r') ++ phased q (trace own' true ss)
      theirs =
          split own' p r' ss ∙ ap (λ n. phased p (round own' r') ++ phased n (trace own' true ss)) f

  traces :
      (used : Bool) (p : ℕ) (rs ss : List Round)
      → Same rs ss
      → AllInOrder (phased p (trace own used rs)) (phased p (trace own' used ss))
  unfolding trace mark_used phased last_phase
  traces used p [] ss h = tt
  traces true p (with_shared us ∷ rs) (with_shared vs ∷ ss) h =
      with_rest (p + 1) (last_phase (p + 1) (with_shared vs)) (with_shared us) (with_shared vs) rs
        ss (ap (λ b. if b then p + 1 + 2 else p + 1 + 1) h.0) refl (traces true _ rs ss h.1)
  traces false p (with_shared us ∷ rs) (with_shared vs ∷ ss) h =
      with_rest p (last_phase p (with_shared vs)) (with_shared us) (with_shared vs) rs ss
        (ap (λ b. if b then p + 2 else p + 1) h.0) refl (traces true _ rs ss h.1)
  traces true p (with_mut us ∷ rs) (with_mut vs ∷ ss) h =
      with_rest (p + 1) (p + 1) (with_mut us) (with_mut vs) rs ss refl refl
        (traces true (p + 1) rs ss h)
  traces false p (with_mut us ∷ rs) (with_mut vs ∷ ss) h =
      with_rest p p (with_mut us) (with_mut vs) rs ss refl refl (traces true p rs ss h)
  traces used p (with_shared us ∷ rs) (with_mut vs ∷ ss) h = absurd h
  traces used p (with_mut us ∷ rs) (with_shared vs ∷ ss) h = absurd h
  traces used p (with_shared us ∷ rs) [] h = absurd h
  traces used p (with_mut us ∷ rs) [] h = absurd h

-- Two workitems of a workgroup that own different slots, and use a borrow in the same way, never do two
-- things to one slot between the same barriers, unless both only read it.
pub no-Conflict :
    (own own' : ℕ) (rs ss : List Round) (i j p : ℕ) (e f : Event)
    → own ≢ own'
    → Same rs ss
    → get_elem? (phased 0 (trace own false rs)) i ≡ some (p, e)
    → get_elem? (phased 0 (trace own' false ss)) j ≡ some (p, f)
    → ¬ Conflict e f
no-Conflict own own' rs ss i j p e f apart same here there =
    All-get (λ y. InOrder (p, e) y) (phased 0 (trace own' false ss)) j
      (All-get (λ x. All (λ y. InOrder x y) (phased 0 (trace own' false ss)))
        (phased 0 (trace own false rs)) i (traces apart false 0 rs ss same) here)
      there refl
