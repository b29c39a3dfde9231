-- ===== src/Device/Tests.antt =====
-- The name of an ISA, and two pools.
use geobacter.Prelude.{
  ℕ, ◌≤◌, ◌≡◌, ◌⊎◌, refl, Bool, true, false, none, some, List, [], ◌∷◌, All, get_elem?, arith,
  if◌then◌else◌,
}
use geobacter.Prelude.Results.{ok}
use geobacter.Device.Target.{
  Name, Feature, parse_isa, dpp, target_features, same_name, code_object_v3, collect,
  print_features,
}
use geobacter.Device.Names.{isa_name, parse_isa-name}
use geobacter.Device.Pools.{GlobalFlags, MemoryPool, usable, size, allocator_of, find_pool_flags}
use geobacter.Device.Taken.{find_pool_flags_lem}
use geobacter.Device.Features.{wanted, by_default, target_features_lem}

-- `a-g9`, and `a-g9:sc+:x-`.
abbrev triple : Name
triple = 97 ∷ 45 ∷ 103 ∷ 57 ∷ []

abbrev some_features : List Feature
some_features = (115 ∷ 99 ∷ [], true) ∷ (120 ∷ [], false) ∷ []

printed : print_features some_features ≡ 43 ∷ 115 ∷ 99 ∷ 44 ∷ 45 ∷ 120 ∷ []
unfolding print_features
printed = refl

parse_isa-name_example : parse_isa (isa_name triple some_features) ≡ (triple, some_features)
parse_isa-name_example =
    parse_isa-name triple some_features
      (
        (λ e. omega (arith, e)),
        ((λ e. omega (arith, e)), ((λ e. omega (arith, e)), ((λ e. omega (arith, e)), tt))),
      )
      (
        ((λ e. omega (arith, e)), ((λ e. omega (arith, e)), tt)),
        (((λ e. omega (arith, e)), tt), tt),
      )

target_features_example : target_features true ((dpp, false) ∷ []) dpp ≡ (
    if same_name code_object_v3 dpp
    then some true
    else wanted (by_default true dpp) (collect (λ n. none) ((dpp, false) ∷ []) dpp))
target_features_example = target_features_lem true ((dpp, false) ∷ []) dpp

abbrev pool : ℕ → ℕ → MemoryPool
pool bytes handle = record {
  alloc_allowed = true;
  global_flags =
      ok (some (record { kernel_arg = false; fine_grained = true; coarse_grained = false }));
  total_size = ok bytes;
  allocator = ok handle;
}

abbrev fine : GlobalFlags → Bool
fine f = f.fine_grained

abbrev two_pools : List MemoryPool
two_pools = pool 8 1 ∷ pool 64 2 ∷ []

taken : find_pool_flags fine two_pools ≡ ok (some 2)
unfolding find_pool_flags
taken = refl

find_pool_flags_example :
    ((find_pool_flags fine two_pools ≡ ok none) × All (λ q. usable fine q ≡ false) two_pools)
    ⊎ ((p : MemoryPool) × (i : ℕ) × (get_elem? two_pools i ≡ some p)
        × (usable fine p ≡ true)
        × All (λ q. (usable fine q ≡ false) ⊎ (size q ≤ size p)) two_pools
        × (find_pool_flags fine two_pools ≡ allocator_of (some p)))
find_pool_flags_example = find_pool_flags_lem fine two_pools
