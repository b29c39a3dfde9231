-- ===== src/Context/Stash/Steps.antt =====
-- No step of a thread that fills the cell breaks what the threads rely on.
use geobacter.Prelude.{
  ℕ, zero, suc, ◌+◌, ◌-◌, ◌≤◌, ◌≡◌, ◌≢◌, refl, sym, ap, ◌∙◌, subst, inl, inr, true, ◌==◌, ==_iff,
  Bool-cases, none, some, arith, update, update_self, update_other,
}
use geobacter.Context.Stash.{
  Why, first, second, third, Pc, creating, looking, loaded, cloned, trying, returned, System, at,
  release, after_none, seen, after_some, check, create, fill,
}
use geobacter.Context.Stash.Invariant.{
  mine, Memory, memory, Made, Looks, Sound, Inv, Grows, step_to, mine-Made, Grows-Sound,
}

module _ {k : ℕ} {s : System} (i : ℕ) (inv : Inv k s) where
  unmoved : (p : Pc) → Grows k (memory s) (memory s) p
  unmoved p = record { cell_kept = λ z. refl; made_kept = λ n e h. h }

  -- What the thread has made stays its own.
  still_mine :
      (pc' : Pc)
      → mine pc' ≡ mine (s.pc i)
      → (n : ℕ) → mine pc' ≡ some n
      → (j : ℕ) → i ≢ j
      → mine (s.pc j) ≢ some n
  still_mine pc' same n e j apart f = apart (inv.unique i j n (sym same ∙ e) f)

  no_longer :
      (pc' : Pc)
      → mine pc' ≡ none
      → (n : ℕ) → mine pc' ≡ some n
      → (j : ℕ) → i ≢ j
      → mine (s.pc j) ≢ some n
  no_longer pc' gone n e j apart f = absurd (cc (gone, e))

  moved : (pc' : Pc) → Sound k (memory s) pc' → mine pc' ≡ mine (s.pc i) → Inv k (at s i pc')
  moved pc' here same =
      step_to i (memory s) pc' inv inv.kept here (λ j apart. unmoved (s.pc j)) (still_mine pc' same)

  pub seen-Inv :
      (why : Why) (c : ℕ)
      → s.cell ≡ c
      → Looks k (memory s) why
      → s.pc i ≡ looking why
      → Inv k (at s i (seen why c))
  unfolding seen after_none
  seen-Inv first zero e h at_i = moved creating tt (sym (ap mine at_i))
  seen-Inv (second n a) zero e h at_i = absurd (h.1 e)
  seen-Inv (third n) zero e h at_i = absurd h
  seen-Inv why (suc p) e h at_i =
      moved (loaded why (suc p)) (h, e, λ z. omega (arith, z)) (sym (ap mine at_i))

  pub clone-Inv :
      (why : Why) (p : ℕ)
      → s.pc i ≡ loaded why p
      → Inv k (record s {
        strong = update s.strong p (s.strong p + 1);
        pc = update s.pc i (cloned why p);
      })
  clone-Inv why p at_i =
      step_to i m' (cloned why p) inv
        (record {
          counted = λ full. (
            subst (λ t. 1 ≤ t)
                (sym (
                  ap (update s.strong p (s.strong p + 1)) here.1
                  ∙ update_self s.strong p (s.strong p + 1)))
                (omega arith),
            (inv.kept.counted full).1,
          );
          older = inv.kept.older;
        })
        (Grows-Sound (cloned why p) (grows (cloned why p)) here) (λ j apart. grows (s.pc j))
        (still_mine (cloned why p) (sym (ap mine at_i)))
    where
      m' : Memory
      m' = record (memory s) { strong = update s.strong p (s.strong p + 1) }

      here : Sound k (memory s) (loaded why p)
      here = subst (Sound k (memory s)) at_i (inv.sound i)

      grows : (q : Pc) → Grows k (memory s) m' q
      grows q = record {
        cell_kept = λ z. refl;
        made_kept = λ n e h. record {
          apart = h.apart;
          positive = h.positive;
          older = h.older;
          counted =
              update_other s.strong (s.strong p + 1) (λ z. h.apart (sym z ∙ sym here.1))
              ∙ h.counted;
          owned = h.owned;
        };
      }

  -- Another thread's data is not the one that thread `i` made.
  not_mine :
      (n : ℕ)
      → mine (s.pc i) ≡ some n
      → (j : ℕ) → i ≢ j
      → (n' : ℕ) → mine (s.pc j) ≡ some n'
      → n ≢ n'
  not_mine n e j apart n' f same = apart (inv.unique i j n e (f ∙ ap some (sym same)))

  -- The thread drops what it made, and returns the data in the cell.
  given_up-Inv :
      (n a p : ℕ) → s.pc i ≡ cloned (second n a) p → Inv k (at (release s n 2) i (returned p))
  given_up-Inv n a p at_i =
      step_to i m' (returned p) inv
        (record {
          counted = λ full. (
            subst (λ t. 1 ≤ t) (sym (update_other s.strong (s.strong n - 2) made.apart))
                (inv.kept.counted full).0,
            (inv.kept.counted full).1,
          );
          older = inv.kept.older;
        })
        (here.1, here.2) grows (no_longer (returned p) refl)
    where
      m' : Memory
      m' = record (memory s) { strong = update s.strong n (s.strong n - 2) }

      here : Sound k (memory s) (cloned (second n a) p)
      here = subst (Sound k (memory s)) at_i (inv.sound i)

      made : Made k (memory s) n
      made = here.0.0

      grows : (j : ℕ) → i ≢ j → Grows k (memory s) m' (s.pc j)
      grows j apart = record {
        cell_kept = λ z. refl;
        made_kept = λ n' e h. record {
          apart = h.apart;
          positive = h.positive;
          older = h.older;
          counted =
              update_other s.strong (s.strong n - 2) (not_mine n (ap mine at_i) j apart n' e)
              ∙ h.counted;
          owned = h.owned;
        };
      }

  -- The data has the thread's context, which is alive.
  pub check-Inv : (why : Why) (p : ℕ) → s.pc i ≡ cloned why p → Inv k (check s i why p)
  unfolding check after_some
  check-Inv why p at_i = rw (check, ap s.live ours ∙ inv.alive, same_context) (found why at_i)
    where
      here : Sound k (memory s) (cloned why p)
      here = subst (Sound k (memory s)) at_i (inv.sound i)

      ours : s.owner p ≡ k
      ours = ap s.owner (sym here.1) ∙ (inv.kept.counted (λ z. here.2 (sym here.1 ∙ z))).1

      same_context : (s.owner p == s.ctxt i) ≡ true
      same_context = (==_iff (s.owner p) (s.ctxt i)).1 (ours ∙ sym (inv.same i))

      found : (why' : Why) → s.pc i ≡ cloned why' p → Inv k (after_some s i why' p)
      found first e = moved (returned p) (here.1, here.2) (sym (ap mine e))
      found (second n a) e = given_up-Inv n a p e
      found (third n) e = absurd (subst (Sound k (memory s)) e (inv.sound i)).0

  pub create-Inv : s.pc i ≡ creating → Inv k (create s i)
  unfolding create
  create-Inv at_i =
      step_to i m' (trying s.fresh) inv
        (record {
          counted = λ full. (
            subst (λ t. 1 ≤ t) (sym (update_other s.strong 2 old)) (inv.kept.counted full).0,
            update_other s.owner (s.ctxt i) old ∙ (inv.kept.counted full).1,
          );
          older = omega (arith, inv.kept.older);
        })
        (record {
          apart = λ z. old z;
          positive = omega (arith, inv.kept.older);
          older = omega arith;
          counted = update_self s.strong s.fresh 2;
          owned = update_self s.owner s.fresh (s.ctxt i) ∙ inv.same i;
        })
        (λ j apart. record {
          cell_kept = λ z. refl;
          made_kept = λ n e h. record {
            apart = h.apart;
            positive = h.positive;
            older = omega (arith, h.older);
            counted = update_other s.strong 2 (younger n h) ∙ h.counted;
            owned = update_other s.owner (s.ctxt i) (younger n h) ∙ h.owned;
          };
        })
        (λ n e j apart f. younger n (mine-Made (s.pc j) (inv.sound j) f) (cc e))
    where
      m' : Memory
      m' = record {
        cell = s.cell;
        strong = update s.strong s.fresh 2;
        owner = update s.owner s.fresh (s.ctxt i);
        fresh = s.fresh + 1;
      }

      old : s.fresh ≢ s.cell
      old z = omega (arith, inv.kept.older, z)

      younger : (n : ℕ) → Made k (memory s) n → s.fresh ≢ n
      younger n h z = omega (arith, h.older, z)

  pub fill-Inv : (n : ℕ) → s.pc i ≡ trying n → Inv k (fill s i n)
  unfolding fill
  fill-Inv n at_i = elim (Bool-cases (s.cell == 0)) [
    | inl empty ↦
        rw (empty, fill)
          (step_to i (record (memory s) { cell = n }) (returned n) inv
            (record {
              counted = λ full. (omega (arith, made.counted), made.owned);
              older = made.older;
            })
            (refl, λ z. omega (arith, made.positive, z))
            (λ j apart. record {
              cell_kept = λ full. absurd (full ((==_iff s.cell 0).0 empty));
              made_kept = λ n' e h. record {
                apart = λ z. not_mine n (ap mine at_i) j apart n' e (sym z);
                positive = h.positive;
                older = h.older;
                counted = h.counted;
                owned = h.owned;
              };
            })
            (no_longer (returned n) refl))
    | inr full ↦
        rw (full, fill)
          (moved (looking (second n s.cell)) (made, λ z. cc ((==_iff s.cell 0).1 z, full))
            (sym (ap mine at_i)))
  ]
    where
      made : Made k (memory s) n
      made = subst (Sound k (memory s)) at_i (inv.sound i)
