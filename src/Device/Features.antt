-- ===== src/Device/Features.antt =====
-- The features that the target is given.
use geobacter.Prelude.{
  ◌≡◌, refl, sym, ap, ◌∙◌, inl, inr, Bool, true, false, Bool-cases, ◌||◌, ◌&&◌, ◌==◌, ==_iff,
  if◌then◌else◌, Option, none, some, List, [], ◌∷◌,
}
use geobacter.Device.Target.{
  Name, Feature, same_name, Features, insert, or_enabled, collect, add_target_feature,
  code_object_v3, dpp, s_memrealtime, insts_16_bit, target_features,
}

-- What the ISA says of a feature, and what is made of that where the feature is wanted.
abbrev pub wanted : Bool → Option Bool → Option Bool
wanted b none = if b then some true else none
wanted b (some x) = some x

same_name-eq : (n k : Name) → same_name n k ≡ true → n ≡ k
same_name-eq [] [] h = refl
same_name-eq (c ∷ cs) (d ∷ ds) h = elim (Bool-cases (c == d)) [
  | inl same ↦
      let rest : same_name cs ds ≡ true = rw (same) at h in
      ap (λ x. x ∷ cs) ((==_iff c d).0 same) ∙ ap (λ l. d ∷ l) (same_name-eq cs ds rest)
  | inr apart ↦ let no : false ≡ true = rw (apart) at h in absurd (cc no)
]
same_name-eq [] (d ∷ ds) h = absurd (cc h)
same_name-eq (c ∷ cs) [] h = absurd (cc h)

wanted-false : (x : Option Bool) → wanted false x ≡ x
wanted-false none = refl
wanted-false (some b) = refl

or_enabled_lem :
    (m : Features) (n k : Name) (x : Option Bool)
    → m n ≡ x
    → or_enabled m n x k ≡ wanted (same_name n k) (m k)
or_enabled_lem m n k none e = elim (Bool-cases (same_name n k)) [
  | inl same ↦
      let there : m k ≡ none = ap m (sym (same_name-eq n k same)) ∙ e in rw (insert, same, there)
  | inr apart ↦ rw (insert, apart) (sym (wanted-false (m k)))
]
or_enabled_lem m n k (some b) e = elim (Bool-cases (same_name n k)) [
  | inl same ↦ let there : m k ≡ some b = ap m (sym (same_name-eq n k same)) ∙ e in rw (there)
  | inr apart ↦ rw (apart) (sym (wanted-false (m k)))
]

add_lem : (m : Features) (n k : Name) → add_target_feature m n k ≡ wanted (same_name n k) (m k)
unfolding add_target_feature
add_lem m n k = or_enabled_lem m n k (m n) refl

-- All of them at once, for one feature.
together :
    (c d s f : Bool) (x : Option Bool)
    → wanted f (wanted s (wanted d (if c then some true else x)))
      ≡ (if c then some true else wanted (d || s || f) x)
together true d s f x = refl
together false d s f (some b) = refl
together false true s f none = refl
together false false true f none = refl
together false false false true none = refl
together false false false false none = refl

-- Which features are wanted of every device, and of one with fast 16 bit floats.
abbrev pub by_default : Bool → Name → Bool
by_default fast k =
    same_name dpp k || same_name s_memrealtime k || (fast && same_name insts_16_bit k)

-- The features of the target: code objects of version 3 are enabled in any case; what the name of the
-- ISA says of another feature holds; what it does not mention is enabled where it is wanted, and not
-- mentioned to LLVM where it is not.
pub target_features_lem :
    (fast : Bool) (parsed : List Feature) (k : Name)
    → target_features fast parsed k ≡ (
        if same_name code_object_v3 k
        then some true
        else wanted (by_default fast k) (collect (λ n. none) parsed k))
unfolding target_features
target_features_lem true parsed k =
    add_lem m'' insts_16_bit k
    ∙ ap (wanted (same_name insts_16_bit k)) (add_lem m' s_memrealtime k)
    ∙ ap (λ x. wanted (same_name insts_16_bit k) (wanted (same_name s_memrealtime k) x))
        (add_lem m dpp k)
    ∙ together (same_name code_object_v3 k) (same_name dpp k) (same_name s_memrealtime k)
        (same_name insts_16_bit k) (collect (λ n. none) parsed k)
  where
    m : Features
    m = insert (collect (λ n. none) parsed) code_object_v3 true

    m' : Features
    m' = add_target_feature m dpp

    m'' : Features
    m'' = add_target_feature m' s_memrealtime
target_features_lem false parsed k =
    add_lem m' s_memrealtime k
    ∙ ap (wanted (same_name s_memrealtime k)) (add_lem m dpp k)
    ∙ sym (wanted-false _)
    ∙ together (same_name code_object_v3 k) (same_name dpp k) (same_name s_memrealtime k) false
        (collect (λ n. none) parsed k)
  where
    m : Features
    m = insert (collect (λ n. none) parsed) code_object_v3 true

    m' : Features
    m' = add_target_feature m dpp
