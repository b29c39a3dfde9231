-- ===== src/Context/Modules/Once.antt =====
-- A module is loaded once for each accelerator, however many threads ask for it.
use geobacter.Prelude.{
  ℕ, ◌+◌, ◌<◌, length, ◌≡◌, ◌≢◌, refl, sym, ap, ◌∙◌, subst, inl, inr, Bool, true, false, ◌==◌,
  ==_iff, if◌then◌else◌, Option, none, some, List, [], set, update, update-cases, update_self,
  ℕ_discrete,
}
use geobacter.Context.Modules.{
  Entry, free, upgradable, writer, Pc, idle, reading, locking, checking, compiling, upgrading,
  loading, failed, panicked, returned, System, at, read_entry, check_entry, upgrade, load, Step,
  read, lock, look_again, compiled, not_compiled, unwind, upgraded, loaded, not_loaded, unwind_load,
  Reach, initial, step,
}
use geobacter.Context.Slots.{
  lookup, resized, lookup-resized, length-resized, lookup-set_self, lookup-set_ne,
}
use geobacter.Context.Modules.Invariant.{
  Sound, Works, Loads, Owned, Counts, Loaded, Inv, Mine, locked_to, moved_to, read_to,
}

module _ {kind : ℕ → ℕ} {s : System} (i : ℕ) (inv : Inv kind s) where
  known : {p : Pc} → s.pc i ≡ p → Sound s.entries s.lock i (s.accel i) p
  known e = subst (Sound s.entries s.lock i (s.accel i)) e (inv.sound i)

  -- The type of what is in the slot is the thread's.
  expected : (e : Entry) → lookup s.entries (s.accel i) ≡ some e → (e.ty == s.ty i) ≡ true
  expected e there =
      (==_iff e.ty (s.ty i)).1 ((inv.filled (s.accel i) e there).typed ∙ sym (inv.kinds i))

  Mine-upgradable : s.lock ≡ upgradable i → Mine i s.lock
  Mine-upgradable h = subst (Mine i) (sym h) refl

  Mine-writer : s.lock ≡ writer i → Mine i s.lock
  Mine-writer h = subst (Mine i) (sym h) refl

  now_at : (pc' : Pc) → Works pc' → Works (update s.pc i pc' i)
  now_at pc' w = subst Works (sym (update_self s.pc i pc')) w

  at_work : (pc' : Pc) → Works pc' → s.lock ≡ upgradable i → Owned s.lock (update s.pc i pc')
  at_work pc' w h = subst (λ l. Owned l (update s.pc i pc')) (sym h) (now_at pc' w)

  read-Inv :
      (x : Option Entry)
      → lookup s.entries (s.accel i) ≡ x
      → s.pc i ≡ reading
      → Inv kind (at s i s.lock (read_entry (s.ty i) (s.expect i) x))
  unfolding read_entry
  read-Inv none e at_i = read_to i locking inv at_i tt
  read-Inv (some x) e at_i =
      rw (expected x e, read_entry) (read_to i (returned x.value) inv at_i (x, e, refl))

  check-Inv :
      (x : Option Entry)
      → lookup s.entries (s.accel i) ≡ x
      → s.lock ≡ upgradable i
      → Inv kind (check_entry s i x)
  unfolding check_entry
  check-Inv none e h =
      moved_to i s.lock compiling inv (Mine-upgradable h) (at_work compiling tt h) (h, e)
  check-Inv (some x) e h =
      rw (expected x e, check_entry)
        (moved_to i free (returned x.value) inv (Mine-upgradable h) tt (x, e, refl))

  upgrade-Inv : s.lock ≡ upgradable i → lookup s.entries (s.accel i) ≡ none → Inv kind (upgrade s i)
  upgrade-Inv h empty =
      locked_to i (resized s.entries (s.accel i)) (writer i) s.fresh s.loads loading inv
        (Mine-upgradable h) (λ a e there. lookup-resized s.entries (s.accel i) a ∙ there)
        (λ a e there. inv.filled a e (sym (lookup-resized s.entries (s.accel i) a) ∙ there))
        (λ a.
          subst (λ x. Counts x (s.loads a)) (sym (lookup-resized s.entries (s.accel i) a))
            (inv.counted a))
        (subst Loads (sym (update_self s.pc i loading)) tt)
        (
          refl,
          lookup-resized s.entries (s.accel i) (s.accel i) ∙ empty,
          length-resized s.entries (s.accel i),
        )

  load-Inv :
      s.lock ≡ writer i
      → lookup s.entries (s.accel i) ≡ none
      → s.accel i < length s.entries
      → Inv kind (load s i)
  unfolding load
  load-Inv h empty room =
      locked_to i es' free (s.fresh + 1) loads' (returned s.fresh) inv (Mine-writer h)
        (λ a e there. lookup-set_ne s.entries (some new) (differs a e there) ∙ there)
        (λ a e there. elim (ℕ_discrete (s.accel i) a) [
          | yes same ↦ loaded_by a e same there
          | no apart ↦ inv.filled a e (sym (lookup-set_ne s.entries (some new) apart) ∙ there)
        ])
        counts tt (new, filled, refl)
    where
      new : Entry
      new = record { value = s.fresh; ty = s.ty i; params = s.params i }

      es' : List (Option Entry)
      es' = set s.entries (s.accel i) (some new)

      filled : lookup es' (s.accel i) ≡ some new
      filled = lookup-set_self s.entries (s.accel i) new room

      differs : (a : ℕ) (e : Entry) → lookup s.entries a ≡ some e → s.accel i ≢ a
      differs a e there same = absurd (cc (sym empty ∙ ap (lookup s.entries) same ∙ there))

      loaded_by : (a : ℕ) (e : Entry) → s.accel i ≡ a → lookup es' a ≡ some e → Loaded kind s a e
      loaded_by a e same there =
          let eq : ◌≡◌ {A = Option Entry} (some new) (some e) =
            sym filled ∙ ap (lookup es') same ∙ there in
          let eq' : new ≡ e = cc eq in
          record {
            typed = sym (ap (λ (x : Entry). x.ty) eq') ∙ inv.kinds i ∙ ap kind same;
            by = i;
            for_it = same;
            asked = sym (ap (λ (x : Entry). x.params) eq');
          }

      once : s.loads (s.accel i) + 1 ≡ 1
      once =
          ap (λ n. n + 1)
            (subst (λ x. Counts x (s.loads (s.accel i))) empty (inv.counted (s.accel i)))

      loads' : ℕ → ℕ
      loads' = update s.loads (s.accel i) (s.loads (s.accel i) + 1)

      counts : (a : ℕ) → Counts (lookup es' a) (loads' a)
      counts a = elim (update-cases s.loads (s.accel i) (s.loads (s.accel i) + 1) a) [
        | inl (same, now) ↦
            subst (λ x. Counts x (loads' a)) (sym filled ∙ ap (lookup es') same) (now ∙ once)
        | inr (apart, now) ↦
            subst (λ x. Counts x (loads' a)) (sym (lookup-set_ne s.entries (some new) apart))
              (subst (Counts (lookup s.entries a)) (sym now) (inv.counted a))
      ]

Step-Inv : {kind : ℕ → ℕ} {s : System} {i : ℕ} {t : System} → Step s i t → Inv kind s → Inv kind t
Step-Inv {s = s} {i = i} (read e h) inv = read-Inv i inv (lookup s.entries (s.accel i)) refl e
Step-Inv {s = s} {i = i} (lock e h) inv =
    moved_to i (upgradable i) checking inv (subst (Mine i) (sym h) tt) (now_at i inv checking tt)
      refl
Step-Inv {s = s} {i = i} (look_again e) inv =
    check-Inv i inv (lookup s.entries (s.accel i)) refl (known i inv e)
Step-Inv {s = s} {i = i} (compiled e) inv =
    let h = known i inv e in
    moved_to i s.lock upgrading inv (Mine-upgradable i inv h.0) (at_work i inv upgrading tt h.0) h
Step-Inv {i = i} (not_compiled e) inv =
    moved_to i free failed inv (Mine-upgradable i inv (known i inv e).0) tt tt
Step-Inv {i = i} (unwind e) inv =
    moved_to i free panicked inv (Mine-upgradable i inv (known i inv e).0) tt tt
Step-Inv {i = i} (upgraded e) inv = let h = known i inv e in upgrade-Inv i inv h.0 h.1
Step-Inv {i = i} (loaded e) inv = let h = known i inv e in load-Inv i inv h.0 h.1 h.2
Step-Inv {i = i} (not_loaded e) inv =
    moved_to i free failed inv (Mine-writer i inv (known i inv e).0) tt tt
Step-Inv {i = i} (unwind_load e) inv =
    moved_to i free panicked inv (Mine-writer i inv (known i inv e).0) tt tt

pub Reach-Inv : {kind : ℕ → ℕ} {s t : System} → Inv kind s → Reach s t → Inv kind t
Reach-Inv inv initial = inv
Reach-Inv inv (step path st) = Step-Inv st (Reach-Inv inv path)

-- No entries, and threads that call `compile` or do nothing.
abbrev pub start : (kind accel params : ℕ → ℕ) (expect called : ℕ → Bool) → System
start kind accel params expect called = record {
  entries = [];
  lock = free;
  fresh = 0;
  loads = λ a. 0;
  accel = accel;
  ty = λ i. kind (accel i);
  expect = expect;
  params = params;
  pc = λ i. if called i then reading else idle;
}

pub start-Inv :
    (kind accel params : ℕ → ℕ) (expect called : ℕ → Bool)
    → Inv kind (start kind accel params expect called)
start-Inv kind accel params expect called = record {
  kinds = λ i. refl;
  filled = λ a e h. absurd (cc h);
  counted = λ a. refl;
  owned = tt;
  sound = λ i. sound i (called i);
}
  where
    sound : (i : ℕ) (b : Bool) → Sound [] free i (accel i) (if b then reading else idle)
    sound i true = tt
    sound i false = tt

-- Whatever the order of the threads' steps, and however compilations and loads fail: all calls for one
-- accelerator that have returned a module got the same, which is in its slot and is the only one that
-- was loaded for it. It was loaded by one of the calls for the accelerator, and calls that ask for other
-- specialization parameters than that one get it too. The type of platform goes with the accelerator.
pub one_module :
    (kind accel params : ℕ → ℕ) (expect called : ℕ → Bool) {s : System} (i j p q : ℕ)
    → Reach (start kind accel params expect called) s
    → s.pc i ≡ returned p
    → s.pc j ≡ returned q
    → s.accel i ≡ s.accel j
    → (p ≡ q)
      × (s.loads (s.accel i) ≡ 1)
      × ((e : Entry) × (l : ℕ) × (lookup s.entries (s.accel i) ≡ some e)
          × (e.value ≡ p)
          × (e.ty ≡ kind (s.accel i))
          × (s.accel l ≡ s.accel i)
          × (e.params ≡ s.params l))
one_module kind accel params expect called {s} i j p q path e f same =
    let inv = Reach-Inv (start-Inv kind accel params expect called) path in
    let (x, x_there, x_is) = known i inv e in
    let (y, y_there, y_is) = known j inv f in
    let eq : ◌≡◌ {A = Option Entry} (some x) (some y) =
      sym x_there ∙ ap (lookup s.entries) same ∙ y_there in
    let eq' : x ≡ y = cc eq in
    let l = inv.filled (s.accel i) x x_there in
    (
      sym x_is ∙ ap (λ (z : Entry). z.value) eq' ∙ y_is,
      subst (λ z. Counts z (s.loads (s.accel i))) x_there (inv.counted (s.accel i)),
      (x, l.by, x_there, x_is, l.typed, l.for_it, l.asked),
    )
