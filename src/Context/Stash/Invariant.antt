-- ===== src/Context/Stash/Invariant.antt =====
-- What holds of the cell and of every thread while all threads have one context, which is alive, and
-- nobody clears the cell.
use geobacter.Prelude.{
  ℕ, ◌≤◌, ◌<◌, ◌≡◌, ◌≢◌, refl, sym, ap, ◌∙◌, subst, inl, inr, true, Option, none, some, update,
  update-cases,
}
use geobacter.Context.Stash.{
  Why, first, second, third, Pc, idle, creating, panicked, faulted, dropping, dropped, looking,
  loaded, cloned, trying, returned, drop_loaded, stale, System,
}

-- The data that a thread has made and not given away.
abbrev pub mine_why : Why → Option ℕ
mine_why first = none
mine_why (second n a) = some n
mine_why (third n) = some n

abbrev pub mine : Pc → Option ℕ
mine (looking why) = mine_why why
mine (loaded why p) = mine_why why
mine (cloned why p) = mine_why why
mine (trying n) = some n
mine (stale n a) = some n
mine _ = none

-- The part of the state that threads rely on.
pub record Memory : Type 0 where
  pub cell : ℕ
  pub strong : ℕ → ℕ
  pub owner : ℕ → ℕ
  pub fresh : ℕ

abbrev pub memory : System → Memory
memory s = record { cell = s.cell; strong = s.strong; owner = s.owner; fresh = s.fresh }

-- Data that a thread made, and the data in the cell.
pub record Made (k : ℕ) (m : Memory) (n : ℕ) : Type 0 where
  pub apart : n ≢ m.cell
  pub positive : 1 ≤ n
  pub older : n < m.fresh
  pub counted : m.strong n ≡ 2
  pub owned : m.owner n ≡ k

abbrev pub Looks : ℕ → Memory → Why → Type 0
Looks k m first = Unit
Looks k m (second n a) = Made k m n × (m.cell ≢ 0)
Looks k m (third n) = ⊥

abbrev pub Sound : ℕ → Memory → Pc → Type 0
Sound k m idle = Unit
Sound k m creating = Unit
Sound k m (looking why) = Looks k m why
Sound k m (loaded why p) = Looks k m why × (m.cell ≡ p) × (p ≢ 0)
Sound k m (cloned why p) = Looks k m why × (m.cell ≡ p) × (p ≢ 0)
Sound k m (trying n) = Made k m n
Sound k m (returned p) = (m.cell ≡ p) × (p ≢ 0)
Sound k m _ = ⊥

-- The data in the cell has the reference of the cell.
pub record Kept (k : ℕ) (m : Memory) : Type 0 where
  pub counted : m.cell ≢ 0 → (1 ≤ m.strong m.cell) × (m.owner m.cell ≡ k)
  pub older : m.cell < m.fresh

pub record Inv (k : ℕ) (s : System) : Type 0 where
  pub alive : s.live k ≡ true
  pub same : (i : ℕ) → s.ctxt i ≡ k
  pub kept : Kept k (memory s)
  pub sound : (i : ℕ) → Sound k (memory s) (s.pc i)
  pub unique : (i j n : ℕ) → mine (s.pc i) ≡ some n → mine (s.pc j) ≡ some n → i ≡ j

-- The memory changes where no other thread has made its data: what was in the cell stays there.
pub record Grows (k : ℕ) (m m' : Memory) (p : Pc) : Type 0 where
  pub cell_kept : m.cell ≢ 0 → m'.cell ≡ m.cell
  pub made_kept : (n : ℕ) → mine p ≡ some n → Made k m n → Made k m' n

Grows-Looks :
    {k : ℕ} {m m' : Memory} (why : Why) (p : Pc)
    → mine p ≡ mine_why why
    → Grows k m m' p
    → Looks k m why
    → Looks k m' why
Grows-Looks first p e g h = tt
Grows-Looks (second n a) p e g (made, full) =
    (g.made_kept n e made, λ z. full (sym (g.cell_kept full) ∙ z))
Grows-Looks (third n) p e g h = h

there :
    {k : ℕ} {m m' : Memory} {p : Pc} {q : ℕ}
    → Grows k m m' p
    → (m.cell ≡ q) × (q ≢ 0)
    → (m'.cell ≡ q) × (q ≢ 0)
there g (e, pos) = (g.cell_kept (λ z. pos (sym e ∙ z)) ∙ e, pos)

pub Grows-Sound : {k : ℕ} {m m' : Memory} (p : Pc) → Grows k m m' p → Sound k m p → Sound k m' p
Grows-Sound idle g h = tt
Grows-Sound creating g h = tt
Grows-Sound (looking why) g h = Grows-Looks why (looking why) refl g h
Grows-Sound (loaded why p) g (h, x, y) =
    let (x', y') = there g (x, y) in (Grows-Looks why (loaded why p) refl g h, x', y')
Grows-Sound (cloned why p) g (h, x, y) =
    let (x', y') = there g (x, y) in (Grows-Looks why (cloned why p) refl g h, x', y')
Grows-Sound (trying n) g h = g.made_kept n refl h
Grows-Sound (returned p) g x = there g x
Grows-Sound panicked g h = h
Grows-Sound faulted g h = h
Grows-Sound dropping g h = h
Grows-Sound dropped g h = h
Grows-Sound (drop_loaded p) g h = h
Grows-Sound (stale n a) g h = h

-- A step of thread `i`, which changes the memory for nobody else's loss.
pub step_to :
    {k : ℕ} {s : System} (i : ℕ) (m' : Memory) (pc' : Pc)
    → Inv k s
    → Kept k m'
    → Sound k m' pc'
    → ((j : ℕ) → i ≢ j → Grows k (memory s) m' (s.pc j))
    → ((n : ℕ) → mine pc' ≡ some n → (j : ℕ) → i ≢ j → mine (s.pc j) ≢ some n)
    → Inv k (record s {
      cell = m'.cell;
      strong = m'.strong;
      owner = m'.owner;
      fresh = m'.fresh;
      pc = update s.pc i pc';
    })
step_to {k} {s} i m' pc' inv kept here grows others = record {
  alive = inv.alive;
  same = inv.same;
  kept = kept;
  sound = λ j. elim (update-cases s.pc i pc' j) [
    | inl (e, now) ↦ subst (Sound k m') (sym now) here
    | inr (e, now) ↦ subst (Sound k m') (sym now) (Grows-Sound (s.pc j) (grows j e) (inv.sound j))
  ];
  unique = λ j l n p q. elim (update-cases s.pc i pc' j) [
    | inl (e, now) ↦ elim (update-cases s.pc i pc' l) [
      | inl (f, now') ↦ sym e ∙ f
      | inr (f, now') ↦ absurd (others n (sym (ap mine now) ∙ p) l f (sym (ap mine now') ∙ q))
    ]
    | inr (e, now) ↦ elim (update-cases s.pc i pc' l) [
      | inl (f, now') ↦ absurd (others n (sym (ap mine now') ∙ q) j e (sym (ap mine now) ∙ p))
      | inr (f, now') ↦ inv.unique j l n (sym (ap mine now) ∙ p) (sym (ap mine now') ∙ q)
    ]
  ];
}

pub mine-Made : {k : ℕ} {m : Memory} {n : ℕ} (p : Pc) → Sound k m p → mine p ≡ some n → Made k m n
mine-Made {k} {m} (looking (second n a)) h e = subst (Made k m) (cc e) h.0
mine-Made {k} {m} (loaded (second n a) p) h e = subst (Made k m) (cc e) h.0.0
mine-Made {k} {m} (cloned (second n a) p) h e = subst (Made k m) (cc e) h.0.0
mine-Made {k} {m} (trying n) h e = subst (Made k m) (cc e) h
mine-Made (looking (third n)) h e = absurd h
mine-Made (loaded (third n) p) h e = absurd h.0
mine-Made (cloned (third n) p) h e = absurd h.0
mine-Made (stale n a) h e = absurd h
mine-Made (looking first) h e = absurd (cc e)
mine-Made (loaded first p) h e = absurd (cc e)
mine-Made (cloned first p) h e = absurd (cc e)
mine-Made idle h e = absurd (cc e)
mine-Made creating h e = absurd (cc e)
mine-Made (returned p) h e = absurd (cc e)
mine-Made panicked h e = absurd h
mine-Made faulted h e = absurd h
mine-Made dropping h e = absurd h
mine-Made dropped h e = absurd h
mine-Made (drop_loaded p) h e = absurd h
