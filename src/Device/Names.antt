-- ===== src/Device/Names.antt =====
-- The name of an ISA is read as it is written.
use geobacter.Prelude.{
  ℕ, ◌≡◌, ◌≢◌, refl, ap, ◌∙◌, inl, inr, Bool, true, false, Bool-cases, ◌==◌, ==_iff, none, some,
  List, [], ◌∷◌, ◌++◌, All, arith,
}
use mathlib.Core.List.{append-nil}
use geobacter.Device.Target.{
  colon, hyphen, Name, Feature, split_triple, split, parse_feature, parse_features, parse_isa, cpu,
  sign_of,
}

-- A word without a separator.
abbrev pub Without : ℕ → Name → Type 0
Without sep cs = All (λ c. c ≢ sep) cs

other : {c sep : ℕ} → c ≢ sep → (c == sep) ≡ false
other {c} {sep} h = elim (Bool-cases (c == sep)) [
  | inl same ↦ absurd (h ((==_iff c sep).0 same))
  | inr apart ↦ apart
]

equal : (c : ℕ) → (c == c) ≡ true
equal c = (==_iff c c).1 refl

-- `:`, a name and a sign.
abbrev pub written : Feature → Name
written (n, b) = n ++ sign_of b ∷ []

abbrev pub written_all : List Feature → Name
written_all [] = []
written_all (f ∷ fs) = colon ∷ written f ++ written_all fs

-- A name of an ISA, from its triple and its features.
abbrev pub isa_name : Name → List Feature → Name
isa_name triple fs = triple ++ written_all fs

split_triple-name :
    (triple rest : Name)
    → Without colon triple
    → split_triple (triple ++ colon ∷ rest) ≡ (triple, rest)
unfolding split_triple
split_triple-name [] rest h = refl
split_triple-name (c ∷ cs) rest h = rw (split_triple, other h.0, split_triple-name cs rest h.1)

split_triple-bare : (triple : Name) → Without colon triple → split_triple triple ≡ (triple, [])
unfolding split_triple
split_triple-bare [] h = refl
split_triple-bare (c ∷ cs) h = rw (split_triple, other h.0, split_triple-bare cs h.1)

split-word :
    (w rest : Name) → Without colon w → split colon (w ++ colon ∷ rest) ≡ w ∷ split colon rest
unfolding split
split-word [] rest h = refl
split-word (c ∷ cs) rest h = rw (split, other h.0, split-word cs rest h.1)

split-last : (w : Name) → Without colon w → split colon w ≡ w ∷ []
unfolding split
split-last [] h = refl
split-last (c ∷ cs) h = rw (split, other h.0, split-last cs h.1)

parse_feature-written : (n : Name) (b : Bool) → parse_feature (written (n, b)) ≡ some (n, b)
unfolding parse_feature
parse_feature-written [] true = refl
parse_feature-written [] false = refl
parse_feature-written (c ∷ []) true = refl
parse_feature-written (c ∷ []) false = refl
parse_feature-written (c ∷ d ∷ ds) b = rw (parse_feature, parse_feature-written (d ∷ ds) b)

Without-append : (sep : ℕ) (a b : Name) → Without sep a → Without sep b → Without sep (a ++ b)
Without-append sep [] b h k = k
Without-append sep (c ∷ cs) b h k = (h.0, Without-append sep cs b h.1 k)

sign-Without : (b : Bool) → Without colon (sign_of b ∷ [])
sign-Without true = (λ e. omega (arith, e), tt)
sign-Without false = (λ e. omega (arith, e), tt)

written-Without : (f : Feature) → Without colon f.0 → Without colon (written f)
written-Without (n, b) h = Without-append colon n (sign_of b ∷ []) h (sign-Without b)

words :
    (f : Feature) (fs : List Feature)
    → All (λ g. Without colon g.0) (f ∷ fs)
    → parse_features (split colon (written f ++ written_all fs)) ≡ f ∷ fs
unfolding parse_features
words f [] h =
    ap (λ w. parse_features (split colon w)) (append-nil (written f))
    ∙ ap parse_features (split-last (written f) (written-Without f h.0))
    ∙ rw (parse_features, parse_feature-written f.0 f.1)
words f (g ∷ fs) h =
    ap parse_features (split-word (written f) (written g ++ written_all fs) (written-Without f h.0))
    ∙ rw (parse_features, parse_feature-written f.0 f.1, words g fs h.1)

-- The name of an ISA that is made of a triple and of features, none of which has a colon in its name,
-- is read as that triple and those features.
pub parse_isa-name :
    (triple : Name) (fs : List Feature)
    → Without colon triple
    → All (λ f. Without colon f.0) fs
    → parse_isa (isa_name triple fs) ≡ (triple, fs)
unfolding parse_isa parse_features split
parse_isa-name triple [] h k = rw (parse_isa, append-nil triple, split_triple-bare triple h)
parse_isa-name triple (f ∷ fs) h k =
    rw (parse_isa, split_triple-name triple (written f ++ written_all fs) h, words f fs k)

cpu-bare : (model : Name) → Without hyphen model → cpu model ≡ none
unfolding cpu
cpu-bare [] h = refl
cpu-bare (c ∷ cs) h = rw (cpu, other h.0, cpu-bare cs h.1)

-- The model of the device is what stands behind the last hyphen of the triple, whatever is before; it is
-- empty where the triple ends in a hyphen.
pub cpu-triple :
    (before model : Name) → Without hyphen model → cpu (before ++ hyphen ∷ model) ≡ some model
unfolding cpu
cpu-triple [] model h = rw (cpu, cpu-bare model h)
cpu-triple (c ∷ cs) model h = elim (Bool-cases (c == hyphen)) [
  | inl here ↦ rw (cpu, here, cpu-triple cs model h)
  | inr apart ↦ rw (cpu, apart, cpu-triple cs model h)
]
