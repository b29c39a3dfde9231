-- ===== src/Device/Target.antt =====
-- `init_target_desc` of runtime-amd/src/lib.rs, as far as it reads the name of the ISA. A name is a list
-- of ASCII characters, by their codes.
use geobacter.Prelude.{
  ℕ, Bool, true, false, ◌==◌, ◌&&◌, if◌then◌else◌, Option, none, some, List, [], ◌∷◌, ◌++◌,
}

abbrev pub colon : ℕ
colon = 58

abbrev pub comma : ℕ
comma = 44

abbrev pub hyphen : ℕ
hyphen = 45

abbrev pub plus : ℕ
plus = 43

abbrev pub Name : Type 0
Name = List ℕ

abbrev pub same_name : Name → Name → Bool
same_name [] [] = true
same_name (c ∷ cs) (d ∷ ds) = (c == d) && same_name cs ds
same_name _ _ = false

-- A feature, and whether it is enabled.
abbrev pub Feature : Type 0
Feature = Name × Bool

abbrev cons_fst : ℕ → Name × Name → Name × Name
cons_fst c (a, b) = (c ∷ a, b)

-- `full.find(':')` with the two slices around it, and the `unwrap_or`.
unfoldable pub split_triple : Name → Name × Name
split_triple [] = ([], [])
split_triple (c ∷ cs) =
    let rest = split_triple cs in if c == colon then ([], cs) else cons_fst c rest

abbrev cons_head : ℕ → List Name → List Name
cons_head c [] = (c ∷ []) ∷ []
cons_head c (w ∷ ws) = (c ∷ w) ∷ ws

-- `split(|c| c == ':')`.
unfoldable pub split : ℕ → Name → List Name
split sep [] = [] ∷ []
split sep (c ∷ cs) = let rest = split sep cs in if c == sep then [] ∷ rest else cons_head c rest

-- `split_at(len - 1)`, and the sign. Nothing where the word is empty or ends in another character.
abbrev sign : ℕ → Option Feature
sign c = if c == hyphen then some ([], false) else (if c == plus then some ([], true) else none)

abbrev longer : ℕ → Option Feature → Option Feature
longer c none = none
longer c (some (n, b)) = some (c ∷ n, b)

unfoldable pub parse_feature : Name → Option Feature
parse_feature [] = none
parse_feature (c ∷ []) = sign c
parse_feature (c ∷ d ∷ ds) = longer c (parse_feature (d ∷ ds))

abbrev keep : Option Feature → List Feature → List Feature
keep none fs = fs
keep (some f) fs = f ∷ fs

-- `filter_map`.
unfoldable pub parse_features : List Name → List Feature
unfolding parse_feature
parse_features [] = []
parse_features (w ∷ ws) = keep (parse_feature w) (parse_features ws)

-- The triple, and the features that the name has.
unfoldable pub parse_isa : Name → Name × List Feature
unfolding split_triple split parse_features
parse_isa full =
    let (triple, features) = split_triple full in (triple, parse_features (split colon features))

-- `rfind('-')` and what is behind it; `none` is the panic of `expect`.
abbrev or_this : Name → Option Name → Option Name
or_this cs none = some cs
or_this cs (some later) = some later

unfoldable pub cpu : Name → Option Name
cpu [] = none
cpu (c ∷ cs) = let rest = cpu cs in if c == hyphen then or_this cs rest else rest

-- The hash map of the features, as the value that each name has.
abbrev pub Features : Type 0
Features = Name → Option Bool

abbrev pub insert : Features → Name → Bool → Features
insert m n b k = if same_name n k then some b else m k

unfoldable pub collect : Features → List Feature → Features
collect m [] = m
collect m ((n, b) ∷ fs) = collect (insert m n b) fs

-- `add_target_feature`.
abbrev pub or_enabled : Features → Name → Option Bool → Features
or_enabled m n none = insert m n true
or_enabled m n (some b) = m

unfoldable pub add_target_feature : Features → Name → Features
add_target_feature m n = or_enabled m n (m n)

-- The names of the features, which the target is given.
abbrev pub code_object_v3 : Name
code_object_v3 = 99 ∷ 111 ∷ 100 ∷ 101 ∷ 45 ∷ 111 ∷ 98 ∷ 106 ∷ 101 ∷ 99 ∷ 116 ∷ 45 ∷ 118 ∷ 51 ∷ []

abbrev pub dpp : Name
dpp = 100 ∷ 112 ∷ 112 ∷ []

abbrev pub s_memrealtime : Name
s_memrealtime = 115 ∷ 45 ∷ 109 ∷ 101 ∷ 109 ∷ 114 ∷ 101 ∷ 97 ∷ 108 ∷ 116 ∷ 105 ∷ 109 ∷ 101 ∷ []

abbrev pub insts_16_bit : Name
insts_16_bit = 49 ∷ 54 ∷ 45 ∷ 98 ∷ 105 ∷ 116 ∷ 45 ∷ 105 ∷ 110 ∷ 115 ∷ 116 ∷ 115 ∷ []

-- The features of the target: `fast_f16` is a property of the ISA.
unfoldable pub target_features : Bool → List Feature → Features
unfolding collect add_target_feature
target_features fast_f16 parsed =
    let m = insert (collect (λ n. none) parsed) code_object_v3 true in
    let m' = add_target_feature (add_target_feature m dpp) s_memrealtime in
    if fast_f16 then add_target_feature m' insts_16_bit else m'

abbrev pub sign_of : Bool → ℕ
sign_of true = plus
sign_of false = hyphen

-- The string for LLVM, of the entries of the map in some order.
unfoldable pub print_features : List Feature → Name
print_features [] = []
print_features ((n, b) ∷ []) = sign_of b ∷ n
print_features ((n, b) ∷ f ∷ fs) = (sign_of b ∷ n) ++ comma ∷ print_features (f ∷ fs)
