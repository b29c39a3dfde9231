-- ===== src/Module/Tests.antt =====
-- A module whose code depends on its parameters.
use geobacter.Prelude.{ℕ, ◌≡◌, List, [], ◌∷◌, none, some, length, refl, ℕ_discrete}
use geobacter.Prelude.Results.{Result, ok}
use geobacter.Errors.{Error}
use geobacter.Queue.Abi.{FenceScope}
use geobacter.Module.{
  SpecParamsDesc, HsaModuleData, Call, call, calls, opened, get_mut, compile_internal,
  compile_module, group, define_key, release_fence, compile, undefine_key, elsewhere,
}
use geobacter.Module.Cache.{params_ignored}

param_length : SpecParamsDesc → ℕ
param_length p = elim (get_mut p 3) [ none ↦ 0 | some bytes ↦ length bytes ]

-- The code says how many bytes parameter 3 has.
abbrev compiler : SpecParamsDesc → Result Error ℕ
unfolding param_length
compiler p = ok (param_length p)

-- The group size is what the code says; each load gives another object.
abbrev loader : ℕ → ℕ → Result Error HsaModuleData
loader n code =
    ok (record { group_segment_size = code; private_segment_size = 0; kernel_object = n })

abbrev before : List (Call compiler loader)
before = define_key 3 (7 ∷ 7 ∷ []) ∷ group ∷ release_fence FenceScope.none ∷ []

abbrev after : List (Call compiler loader)
after = define_key 3 (7 ∷ []) ∷ compile ∷ elsewhere none ∷ undefine_key 3 ∷ []

params_ignored_example :
    let s =
      calls compiler loader
        (compile_internal compiler loader (calls compiler loader opened before)).1
        after in
    ((compile_internal compiler loader s).0
      ≡ ok (record { group_segment_size = 2; private_segment_size = 0; kernel_object = 0 }))
    × (compile_module compiler loader s.store none ≡ (
      ok (record { group_segment_size = 2; private_segment_size = 0; kernel_object = 0 }),
      s.store,
    ))
unfolding param_length compile_internal call ℕ_discrete
params_ignored_example = params_ignored compiler loader before after none refl
