-- ===== src/Alloc/Programs.antt =====
-- What a program over the heap that ended went through.
use geobacter.Prelude.{
  ℕ, ◌≡◌, refl, sym, ap, ◌∙◌, ◌⊎◌, inl, inr, Bool, true, false, if◌then◌else◌, Option, none, some,
  List, ◌∷◌,
}
use geobacter.Prelude.Results.{Result, ok, err}
use geobacter.Alloc.Heap.{
  Heap, Failure, alloc_error, Program, ◌>>=◌, ◌>>◌, continue, hand_out, take_back, Block,
}
use geobacter.Alloc.Pool.{or_fail, refuse_if}

pub continue-ok :
    {A B : Type 0} (x : Result Failure A × Heap) (rest : A → Program B) {b : B} {h' : Heap}
    → continue x rest ≡ (ok b, h')
    → (a : A) × (h₁ : Heap) × (x ≡ (ok a, h₁)) × (rest a h₁ ≡ (ok b, h'))
continue-ok (ok a, h) rest e = (a, h, refl, e)
continue-ok (err x, h) rest e = absurd (cc (ap (λ t. t.0) e))

pub continue-err :
    {A B : Type 0} (x : Result Failure A × Heap) (rest : A → Program B) {f : Failure} {h' : Heap}
    → continue x rest ≡ (err f, h')
    → (x ≡ (err f, h')) ⊎ ((a : A) × (h₁ : Heap) × (x ≡ (ok a, h₁)) × (rest a h₁ ≡ (err f, h')))
continue-err (ok a, h) rest e = inr (a, h, refl, e)
continue-err (err x, h) rest e = inl (cc e)

module _ {A B : Type 0} where
  pub >>=-ok :
      (first : Program A) (rest : A → Program B) (h : Heap) {b : B} {h' : Heap}
      → (first >>= rest) h ≡ (ok b, h')
      → (a : A) × (h₁ : Heap) × (first h ≡ (ok a, h₁)) × (rest a h₁ ≡ (ok b, h'))
  >>=-ok first rest h = continue-ok (first h) rest

  pub >>=-err :
      (first : Program A) (rest : A → Program B) (h : Heap) {f : Failure} {h' : Heap}
      → (first >>= rest) h ≡ (err f, h')
      → (first h ≡ (err f, h'))
        ⊎ ((a : A) × (h₁ : Heap) × (first h ≡ (ok a, h₁)) × (rest a h₁ ≡ (err f, h')))
  >>=-err first rest h = continue-err (first h) rest

pub >>-ok :
    {B : Type 0} (first : Program (Unit {0})) (rest : Program B) (h : Heap) {b : B} {h' : Heap}
    → (first >> rest) h ≡ (ok b, h')
    → (h₁ : Heap) × (first h ≡ (ok tt, h₁)) × (rest h₁ ≡ (ok b, h'))
>>-ok first rest h e = let (a, h₁, x, y) = continue-ok (first h) (λ _. rest) e in (h₁, x, y)

pub >>-err :
    {B : Type 0} (first : Program (Unit {0})) (rest : Program B) (h : Heap) {f : Failure}
    {h' : Heap}
    → (first >> rest) h ≡ (err f, h')
    → (first h ≡ (err f, h')) ⊎ ((h₁ : Heap) × (first h ≡ (ok tt, h₁)) × (rest h₁ ≡ (err f, h')))
>>-err first rest h e = elim (continue-err (first h) (λ _. rest) e) [
  | inl x ↦ inl x
  | inr (a, h₁, x, y) ↦ inr (h₁, x, y)
]

pub ok-pair :
    {A : Type 0} {a b : A} {h h' : Heap}
    → ◌≡◌ {A = Result Failure A × Heap} (ok a, h) (ok b, h')
    → (a ≡ b) × (h ≡ h')
ok-pair e = (cc (ap (λ t. t.0) e), ap (λ t. t.1) e)

pub ok-not-err :
    {A : Type 0} {a : A} {f : Failure} {h h' : Heap}
    → ◌≡◌ {A = Result Failure A × Heap} (ok a, h) (err f, h')
    → ⊥
ok-not-err e = cc (ap (λ t. t.0) e)

pub if-cases :
    {A : Type 0} (b : Bool) (first second : Program A) (h : Heap) {r : Result Failure A × Heap}
    → (if b then first else second) h ≡ r
    → ((b ≡ true) × (first h ≡ r)) ⊎ ((b ≡ false) × (second h ≡ r))
if-cases true first second h e = inl (refl, e)
if-cases false first second h e = inr (refl, e)

-- Guards and options do nothing to the heap.
pub refuse_if-ok :
    (b : Bool) (h : Heap) {u : Unit {0}} {h' : Heap}
    → refuse_if b h ≡ (ok u, h')
    → (b ≡ false) × (h' ≡ h)
refuse_if-ok true h e = absurd (cc (ap (λ t. t.0) e))
refuse_if-ok false h e = (refl, sym (ap (λ t. t.1) e))

pub refuse_if-err :
    (b : Bool) (h : Heap) {f : Failure} {h' : Heap} → refuse_if b h ≡ (err f, h') → h' ≡ h
refuse_if-err true h e = sym (ap (λ t. t.1) e)
refuse_if-err false h e = absurd (ok-not-err e)

pub or_fail-ok :
    {A : Type 0} (f : Failure) (o : Option A) (h : Heap) {a : A} {h' : Heap}
    → or_fail f o h ≡ (ok a, h')
    → (o ≡ some a) × (h' ≡ h)
or_fail-ok f none h e = absurd (cc (ap (λ t. t.0) e))
or_fail-ok f (some b) h e = let (x, y) = ok-pair e in (ap some x, sym y)

pub or_fail-err :
    {A : Type 0} (f : Failure) (o : Option A) (h : Heap) {g : Failure} {h' : Heap}
    → or_fail f o h ≡ (err g, h')
    → h' ≡ h
or_fail-err f none h e = sym (ap (λ t. t.1) e)
or_fail-err f (some b) h e = absurd (ok-not-err e)

pub hand_out-ok :
    (len : ℕ) (h : Heap) (o : Option ℕ) {p : ℕ} {h' : Heap}
    → hand_out len h o ≡ (ok p, h')
    → (o ≡ some p) × (h' ≡ record h { live = record { ptr = p; len = len } ∷ h.live })
hand_out-ok len h none e = absurd (cc (ap (λ t. t.0) e))
hand_out-ok len h (some q) {p} {h'} e =
    let (x, y) = ok-pair e in
    (ap some x, sym y ∙ ap (λ t. record h { live = record { ptr = t; len = len } ∷ h.live }) x)

pub hand_out-err :
    (len : ℕ) (h : Heap) (o : Option ℕ) {f : Failure} {h' : Heap}
    → hand_out len h o ≡ (err f, h')
    → h' ≡ h
hand_out-err len h none e = sym (ap (λ t. t.1) e)
hand_out-err len h (some q) e = absurd (ok-not-err e)

pub take_back-ok :
    (h : Heap) (o : Option (List Block)) {u : Unit {0}} {h' : Heap}
    → take_back h o ≡ (ok u, h')
    → (bs : List Block) × (o ≡ some bs) × (h' ≡ record h { live = bs })
take_back-ok h none e = absurd (cc (ap (λ t. t.0) e))
take_back-ok h (some bs) e = (bs, refl, sym (ap (λ t. t.1) e))

pub take_back-err :
    (h : Heap) (o : Option (List Block)) {h' : Heap} → take_back h o ≡ (err alloc_error, h') → ⊥
take_back-err h none e = cc (ap (λ t. t.0) e)
take_back-err h (some bs) e = ok-not-err e
