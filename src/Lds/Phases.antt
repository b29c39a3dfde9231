-- ===== src/Lds/Phases.antt =====
-- The phases between the barriers. All workitems of a workgroup execute a barrier together, so what two
-- of them do in different phases is in order, and what they do in the same phase is not.
use geobacter.Prelude.{
  ℕ, zero, suc, ◌+◌, ◌≤◌, ◌≡◌, refl, ap, subst, some, List, [], ◌∷◌, ◌++◌, get_elem?, All, All-map,
  arith,
}
use geobacter.Lds.{Event, barrier, write, read, drop}

-- What happens, with the number of barriers before it.
unfoldable pub phased : ℕ → List Event → List (ℕ × Event)
phased p [] = []
phased p (barrier ∷ es) = phased (p + 1) es
phased p (write s ∷ es) = (p, write s) ∷ phased p es
phased p (read s ∷ es) = (p, read s) ∷ phased p es
phased p (drop s ∷ es) = (p, drop s) ∷ phased p es

unfoldable pub after : ℕ → List Event → ℕ
after p [] = p
after p (barrier ∷ es) = after (p + 1) es
after p (write s ∷ es) = after p es
after p (read s ∷ es) = after p es
after p (drop s ∷ es) = after p es

pub phased-append :
    (p : ℕ) (xs ys : List Event) → phased p (xs ++ ys) ≡ phased p xs ++ phased (after p xs) ys
unfolding phased after
phased-append p [] ys = refl
phased-append p (barrier ∷ xs) ys = phased-append (p + 1) xs ys
phased-append p (write s ∷ xs) ys = ap (λ l. (p, write s) ∷ l) (phased-append p xs ys)
phased-append p (read s ∷ xs) ys = ap (λ l. (p, read s) ∷ l) (phased-append p xs ys)
phased-append p (drop s ∷ xs) ys = ap (λ l. (p, drop s) ∷ l) (phased-append p xs ys)

pub after-append : (p : ℕ) (xs ys : List Event) → after p (xs ++ ys) ≡ after (after p xs) ys
unfolding after
after-append p [] ys = refl
after-append p (barrier ∷ xs) ys = after-append (p + 1) xs ys
after-append p (write s ∷ xs) ys = after-append p xs ys
after-append p (read s ∷ xs) ys = after-append p xs ys
after-append p (drop s ∷ xs) ys = after-append p xs ys

-- Two events touch one slot, and not both of them only read it.
abbrev pub Conflict : Event → Event → Type 0
Conflict barrier e = ⊥
Conflict e barrier = ⊥
Conflict (read s) (read t) = ⊥
Conflict (read s) (write t) = s ≡ t
Conflict (read s) (drop t) = s ≡ t
Conflict (write s) (read t) = s ≡ t
Conflict (write s) (write t) = s ≡ t
Conflict (write s) (drop t) = s ≡ t
Conflict (drop s) (read t) = s ≡ t
Conflict (drop s) (write t) = s ≡ t
Conflict (drop s) (drop t) = s ≡ t

abbrev pub InOrder : ℕ × Event → ℕ × Event → Type 0
InOrder x y = x.0 ≡ y.0 → ¬ Conflict x.1 y.1

abbrev pub AllInOrder : List (ℕ × Event) → List (ℕ × Event) → Type 0
AllInOrder xs ys = All (λ x. All (λ y. InOrder x y) ys) xs

pub All-append {ℓ κ} :
    {A : Type ℓ} (P : A → Type κ) (xs ys : List A) → All P xs → All P ys → All P (xs ++ ys)
All-append P [] ys h k = k
All-append P (x ∷ xs) ys h k = (h.0, All-append P xs ys h.1 k)

pub All-get {ℓ κ} :
    {A : Type ℓ} (P : A → Type κ) (xs : List A) (i : ℕ) {a : A}
    → All P xs
    → get_elem? xs i ≡ some a
    → P a
All-get P [] i h e = absurd (cc e)
All-get P (x ∷ xs) zero h e = subst P (cc e) h.0
All-get P (x ∷ xs) (suc i) h e = All-get P xs i h.1 e

pub AllInOrder-append :
    (xs xs' ys ys' : List (ℕ × Event))
    → AllInOrder xs ys
    → AllInOrder xs ys'
    → AllInOrder xs' ys
    → AllInOrder xs' ys'
    → AllInOrder (xs ++ xs') (ys ++ ys')
AllInOrder-append [] [] ys ys' a b c d = tt
AllInOrder-append [] (x ∷ xs') ys ys' a b c d =
    (All-append (InOrder x) ys ys' c.0 d.0, AllInOrder-append [] xs' ys ys' tt tt c.1 d.1)
AllInOrder-append (x ∷ xs) xs' ys ys' a b c d =
    (All-append (InOrder x) ys ys' a.0 b.0, AllInOrder-append xs xs' ys ys' a.1 b.1 c d)

-- Events of earlier phases are in order with those of later ones.
abbrev pub UpTo : ℕ → List (ℕ × Event) → Type 0
UpTo q xs = All (λ x. x.0 ≤ q) xs

abbrev pub From : ℕ → List (ℕ × Event) → Type 0
From q xs = All (λ x. q ≤ x.0) xs

pub AllInOrder-early :
    (q : ℕ) (xs ys : List (ℕ × Event)) → UpTo q xs → From (q + 1) ys → AllInOrder xs ys
AllInOrder-early q [] ys h k = tt
AllInOrder-early q (x ∷ xs) ys h k = (
  All-map ys (λ y later same z. absurd (omega (arith, h.0, later, same))) k,
  AllInOrder-early q xs ys h.1 k,
)

pub AllInOrder-late :
    (q : ℕ) (xs ys : List (ℕ × Event)) → From (q + 1) xs → UpTo q ys → AllInOrder xs ys
AllInOrder-late q [] ys h k = tt
AllInOrder-late q (x ∷ xs) ys h k = (
  All-map ys (λ y early same z. absurd (omega (arith, h.0, early, same))) k,
  AllInOrder-late q xs ys h.1 k,
)
