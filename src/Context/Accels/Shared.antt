-- ===== src/Context/Accels/Shared.antt =====
-- Devices of one target have one code generator.
use geobacter.Prelude.{
  ℕ, ◌≡◌, ◌≢◌, refl, sym, ap, ◌∙◌, subst, inl, inr, Bool, true, false, Bool-cases, Option, none,
  some, update, update_self, update_other, ℕ_discrete,
}
use geobacter.Prelude.Results.{Result, ok, err}
use geobacter.Context.Slots.{
  resized, lookup-resized, length-resized, lookup-set_self, lookup-set_ne,
}
use geobacter.Context.Accels.{
  Accel, Translator, ContextData, new_context, installed, set_target_codegen, created,
  initialize_with, initialize_accel, take_accel_id, get_accel_ref,
}

-- A reference that a device in a slot holds keeps its code generator alive.
abbrev pub Alive : (ℕ → Bool) → ContextData → Type 0
Alive alive s =
    (i : ℕ) (a : Accel) (g : ℕ) → get_accel_ref s i ≡ some a → a.codegen ≡ some g → alive g ≡ true

-- The device has what the translators have for its target.
pub record Matches (s : ContextData) (a : Accel) : Type 0 where
  pub entry : Translator
  pub stored : s.translators a.target ≡ some entry
  pub same_codegen : a.codegen ≡ some entry.codegen
  pub same_desc : a.desc ≡ entry.key

abbrev pub Inv : ContextData → Type 0
Inv s = (i : ℕ) (a : Accel) → get_accel_ref s i ≡ some a → Matches s a

-- The slot of the device, and the others.
pub installed_self : (s : ContextData) (a : Accel) → get_accel_ref (installed s a) a.id ≡ some a
installed_self s a =
    lookup-set_self (resized s.accelerators a.id) a.id a (length-resized s.accelerators a.id)

pub installed_other :
    (s : ContextData) (a : Accel) (i : ℕ)
    → a.id ≢ i
    → get_accel_ref (installed s a) i ≡ get_accel_ref s i
installed_other s a i apart =
    lookup-set_ne (resized s.accelerators a.id) (some a) apart
    ∙ lookup-resized s.accelerators a.id i

installed-Inv :
    (s : ContextData) (a : Accel)
    → Matches s a
    → ((i : ℕ) (b : Accel) → get_accel_ref s i ≡ some b → Matches s b)
    → Inv (installed s a)
installed-Inv s a here others i b h = elim (ℕ_discrete a.id i) [
  | yes same ↦
      let eq : ◌≡◌ {A = Option Accel} (some a) (some b) =
        sym (installed_self s a) ∙ ap (get_accel_ref (installed s a)) same ∙ h in
      let eq' : a ≡ b = cc eq in subst (Matches (installed s a)) eq' (moved a here)
  | no apart ↦ moved b (others i b (sym (installed_other s a i apart) ∙ h))
]
  where
    moved : (c : Accel) → Matches s c → Matches (installed s a) c
    moved c m = record {
      entry = m.entry;
      stored = m.stored;
      same_codegen = m.same_codegen;
      same_desc = m.same_desc;
    }

module _ {E : Type 0} (alive : ℕ → Bool) (create : Result E ℕ) (s : ContextData) (inv : Inv s) where
  created-Inv :
      (a : Accel) (key : ℕ) (made : Result E ℕ)
      → a.desc ≡ key
      → ((i : ℕ) (b : Accel) → get_accel_ref s i ≡ some b → a.target ≢ b.target)
      → Inv (created s a key made).1
  created-Inv a key (err e) same apart = inv
  created-Inv a key (ok g) same apart =
      installed-Inv s' (set_target_codegen a g)
        (record {
          entry = entry;
          stored = update_self s.translators a.target (some entry);
          same_codegen = refl;
          same_desc = same;
        })
        (λ i b h.
          let m = inv i b h in
          record {
            entry = m.entry;
            stored = update_other s.translators (some entry) (apart i b h) ∙ m.stored;
            same_codegen = m.same_codegen;
            same_desc = m.same_desc;
          })
    where
      entry : Translator
      entry = record { key = key; codegen = g }

      s' : ContextData
      s' = record s { translators = update s.translators a.target (some entry) }

  -- A code generator that is dropped is nobody's.
  nobody :
      Alive alive s
      → (t : ℕ) (x : Option Translator) → s.translators t ≡ x
      → ((o : Translator) → x ≡ some o → alive o.codegen ≡ false)
      → (i : ℕ) (b : Accel) → get_accel_ref s i ≡ some b
      → t ≢ b.target
  nobody held t x e dead i b h same =
      let m = inv i b h in
      let there : x ≡ some m.entry = sym e ∙ ap s.translators same ∙ m.stored in
      absurd (cc (dead m.entry there, held i b m.entry.codegen h m.same_codegen))

  initialize_with-Inv :
      (a : Accel) (x : Option Translator)
      → Alive alive s
      → s.translators a.target ≡ x
      → Inv (initialize_with alive create s a x).1
  initialize_with-Inv a none held e =
      created-Inv a a.desc create refl (nobody held a.target none e (λ o z. absurd (cc z)))
  initialize_with-Inv a (some o) held e = elim (Bool-cases (alive o.codegen)) [
    | inl yes_alive ↦ rw (yes_alive) (
        installed-Inv s (set_target_codegen (record a { desc = o.key }) o.codegen)
          (record { entry = o; stored = e; same_codegen = refl; same_desc = refl }) inv)
    | inr dropped ↦ rw (dropped) (
        created-Inv (record a { desc = o.key }) o.key create refl
          (nobody held a.target (some o) e (λ o' z. sym (ap alive (cc z)) ∙ dropped)))
  ]

-- Calls of `initialize_accel` and `take_accel_id`, in the order in which they have the lock.
pub data Calls (E : Type 0) (s : ContextData) : ContextData → Type 0 where
  nothing : Calls E s s
  initialize :
      {t : ContextData} (alive : ℕ → Bool) (create : Result E ℕ) (a : Accel)
      → Calls E s t
      → Alive alive t
      → Calls E s (initialize_accel alive create t a).1
  take_id : {t : ContextData} → Calls E s t → Calls E s (take_accel_id t).1

pub Calls-Inv : {E : Type 0} {s t : ContextData} → Calls E s t → Inv s → Inv t
unfolding initialize_accel take_accel_id
Calls-Inv nothing inv = inv
Calls-Inv (initialize {t} alive create a before held) inv =
    initialize_with-Inv alive create t (Calls-Inv before inv) a (t.translators a.target) held refl
Calls-Inv (take_id before) inv = λ i a h.
    let m = Calls-Inv before inv i a h in
    record {
      entry = m.entry;
      stored = m.stored;
      same_codegen = m.same_codegen;
      same_desc = m.same_desc;
    }

-- However devices are added to a new context, and whichever of them fail: the devices in the slots that
-- have the same target have one code generator and one description, and each has a code generator.
-- A code generator that a device in a slot holds is supposed to be alive.
pub shared_codegen :
    {E : Type 0} {s : ContextData} (i j : ℕ) (a b : Accel)
    → Calls E new_context s
    → get_accel_ref s i ≡ some a
    → get_accel_ref s j ≡ some b
    → a.target ≡ b.target
    → (a.codegen ≡ b.codegen) × (a.desc ≡ b.desc) × (a.codegen ≢ none)
shared_codegen {E} {s} i j a b calls here there same =
    let inv = Calls-Inv calls (λ i a h. absurd (cc h)) in
    let m = inv i a here in
    let n = inv j b there in
    let eq : ◌≡◌ {A = Option Translator} (some m.entry) (some n.entry) =
      sym m.stored ∙ ap s.translators same ∙ n.stored in
    let eq' : m.entry ≡ n.entry = cc eq in
    (
      m.same_codegen ∙ ap (λ (x : Translator). some x.codegen) eq' ∙ sym n.same_codegen,
      m.same_desc ∙ ap (λ (x : Translator). x.key) eq' ∙ sym n.same_desc,
      λ z. cc (z, m.same_codegen),
    )
