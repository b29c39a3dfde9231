-- ===== src/Context/Modules/Invariant.antt =====
-- What holds of the entries, of the lock and of every thread while the type of platform goes with the
-- accelerator.
use geobacter.Prelude.{
  ℕ, ◌<◌, length, ◌≡◌, ◌≢◌, refl, inl, inr, sym, ap, ◌∙◌, subst, Option, none, some, List, update,
  update-cases, update_other,
}
use geobacter.Context.Slots.{lookup}
use geobacter.Context.Modules.{
  Entry, Lock, free, upgradable, writer, Pc, idle, reading, locking, checking, compiling, upgrading,
  loading, failed, panicked, returned, System, at,
}

-- What a thread knows of its slot and of the lock.
abbrev pub Sound : List (Option Entry) → Lock → ℕ → ℕ → Pc → Type 0
Sound es lk i a checking = lk ≡ upgradable i
Sound es lk i a compiling = (lk ≡ upgradable i) × (lookup es a ≡ none)
Sound es lk i a upgrading = (lk ≡ upgradable i) × (lookup es a ≡ none)
Sound es lk i a loading = (lk ≡ writer i) × (lookup es a ≡ none) × (a < length es)
Sound es lk i a (returned m) = (e : Entry) × (lookup es a ≡ some e) × (e.value ≡ m)
Sound es lk i a _ = Unit

abbrev pub Works : Pc → Type 0
Works checking = Unit
Works compiling = Unit
Works upgrading = Unit
Works _ = ⊥

abbrev pub Loads : Pc → Type 0
Loads loading = Unit
Loads _ = ⊥

-- The thread that has the lock is at work.
abbrev pub Owned : Lock → (ℕ → Pc) → Type 0
Owned free pc = Unit
Owned (upgradable j) pc = Works (pc j)
Owned (writer j) pc = Loads (pc j)

-- A slot is filled where a module was loaded for it, and once.
abbrev pub Counts : Option Entry → ℕ → Type 0
Counts none n = n ≡ 0
Counts (some e) n = n ≡ 1

-- A module has the type of its accelerator, and was loaded with the parameters that one of the calls for
-- the accelerator asks for.
pub record Loaded (kind : ℕ → ℕ) (s : System) (a : ℕ) (e : Entry) : Type 0 where
  pub typed : e.ty ≡ kind a
  pub by : ℕ
  pub for_it : s.accel by ≡ a
  pub asked : e.params ≡ s.params by

pub record Inv (kind : ℕ → ℕ) (s : System) : Type 0 where
  pub kinds : (i : ℕ) → s.ty i ≡ kind (s.accel i)
  pub filled : (a : ℕ) (e : Entry) → lookup s.entries a ≡ some e → Loaded kind s a e
  pub counted : (a : ℕ) → Counts (lookup s.entries a) (s.loads a)
  pub owned : Owned s.lock s.pc
  pub sound : (i : ℕ) → Sound s.entries s.lock i (s.accel i) (s.pc i)

-- The calls stay what they are.
again :
    {kind : ℕ → ℕ} {s t : System} {a : ℕ} {e : Entry}
    → s.accel ≡ t.accel
    → s.params ≡ t.params
    → Loaded kind s a e
    → Loaded kind t a e
again same same' l = record {
  typed = l.typed;
  by = l.by;
  for_it = ap (λ f. f l.by) (sym same) ∙ l.for_it;
  asked = l.asked ∙ ap (λ f. f l.by) same';
}

-- The lock is free, or the thread's.
abbrev pub Mine : ℕ → Lock → Type 0
Mine i free = Unit
Mine i (upgradable j) = i ≡ j
Mine i (writer j) = i ≡ j

abbrev pub Kept : List (Option Entry) → List (Option Entry) → Type 0
Kept es es' = (a : ℕ) (e : Entry) → lookup es a ≡ some e → lookup es' a ≡ some e

-- A thread without the lock does not mind what another does with it, as long as no entry is lost.
other-Sound :
    (es es' : List (Option Entry)) (lk lk' : Lock) {i j : ℕ} (a : ℕ) (p : Pc)
    → i ≢ j
    → Mine i lk
    → Kept es es'
    → Sound es lk j a p
    → Sound es' lk' j a p
other-Sound es es' lk lk' {i} {j} a checking apart mine kept h =
    absurd (apart (subst (Mine i) h mine))
other-Sound es es' lk lk' {i} {j} a compiling apart mine kept h =
    absurd (apart (subst (Mine i) h.0 mine))
other-Sound es es' lk lk' {i} {j} a upgrading apart mine kept h =
    absurd (apart (subst (Mine i) h.0 mine))
other-Sound es es' lk lk' {i} {j} a loading apart mine kept h =
    absurd (apart (subst (Mine i) h.0 mine))
other-Sound es es' lk lk' a (returned m) apart mine kept (e, there, same) =
    (e, kept a e there, same)
other-Sound es es' lk lk' a idle apart mine kept h = tt
other-Sound es es' lk lk' a reading apart mine kept h = tt
other-Sound es es' lk lk' a locking apart mine kept h = tt
other-Sound es es' lk lk' a failed apart mine kept h = tt
other-Sound es es' lk lk' a panicked apart mine kept h = tt

-- The thread that has the lock, or takes it.
pub locked_to :
    {kind : ℕ → ℕ} {s : System} (i : ℕ) (es' : List (Option Entry)) (lk' : Lock) (fresh' : ℕ)
    (loads' : ℕ → ℕ) (pc' : Pc)
    → Inv kind s
    → Mine i s.lock
    → Kept s.entries es'
    → ((a : ℕ) (e : Entry) → lookup es' a ≡ some e → Loaded kind s a e)
    → ((a : ℕ) → Counts (lookup es' a) (loads' a))
    → Owned lk' (update s.pc i pc')
    → Sound es' lk' i (s.accel i) pc'
    → Inv kind (record s {
      entries = es';
      lock = lk';
      fresh = fresh';
      loads = loads';
      pc = update s.pc i pc';
    })
locked_to {kind} {s} i es' lk' fresh' loads' pc' inv mine kept filled counted owned here = record {
  kinds = inv.kinds;
  filled = λ a e there. again refl refl (filled a e there);
  counted = counted;
  owned = owned;
  sound = λ j. elim (update-cases s.pc i pc' j) [
    | inl (e, now) ↦
        subst (Sound es' lk' j (s.accel j)) (sym now)
          (subst (λ l. Sound es' lk' l (s.accel l) pc') e here)
    | inr (e, now) ↦
        subst (Sound es' lk' j (s.accel j)) (sym now)
          (other-Sound s.entries es' s.lock lk' (s.accel j) (s.pc j) e mine kept (inv.sound j))
  ];
}

-- The same, where the entries stay.
pub moved_to :
    {kind : ℕ → ℕ} {s : System} (i : ℕ) (lk' : Lock) (pc' : Pc)
    → Inv kind s
    → Mine i s.lock
    → Owned lk' (update s.pc i pc')
    → Sound s.entries lk' i (s.accel i) pc'
    → Inv kind (at s i lk' pc')
moved_to {kind} {s} i lk' pc' inv mine owned here =
    locked_to i s.entries lk' s.fresh s.loads pc' inv mine (λ a e h. h) inv.filled inv.counted owned
      here

Owned-other :
    (lk : Lock) (pc : ℕ → Pc) (i : ℕ) (pc' : Pc)
    → pc i ≡ reading
    → Owned lk pc
    → Owned lk (update pc i pc')
Owned-other free pc i pc' e h = tt
Owned-other (upgradable j) pc i pc' e h =
    subst Works (sym (update_other pc pc' (λ z. subst Works (ap pc (sym z) ∙ e) h))) h
Owned-other (writer j) pc i pc' e h =
    subst Loads (sym (update_other pc pc' (λ z. subst Loads (ap pc (sym z) ∙ e) h))) h

-- A reader moves on.
pub read_to :
    {kind : ℕ → ℕ} {s : System} (i : ℕ) (pc' : Pc)
    → Inv kind s
    → s.pc i ≡ reading
    → Sound s.entries s.lock i (s.accel i) pc'
    → Inv kind (at s i s.lock pc')
read_to {kind} {s} i pc' inv e here = record {
  kinds = inv.kinds;
  filled = λ a e there. again refl refl (inv.filled a e there);
  counted = inv.counted;
  owned = Owned-other s.lock s.pc i pc' e inv.owned;
  sound = λ j. elim (update-cases s.pc i pc' j) [
    | inl (same, now) ↦
        subst (Sound s.entries s.lock j (s.accel j)) (sym now)
          (subst (λ l. Sound s.entries s.lock l (s.accel l) pc') same here)
    | inr (apart, now) ↦ subst (Sound s.entries s.lock j (s.accel j)) (sym now) (inv.sound j)
  ];
}
