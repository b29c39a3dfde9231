-- ===== src/Module/Fences.antt =====
-- The fences of `FuncModule`.
use geobacter.Prelude.{ℕ, ◌≡◌, refl, ap, List, [], ◌∷◌, Option, none, some, ◌∙◌}
use geobacter.Prelude.Results.{Result, ok, err}
use geobacter.Errors.{Error}
use geobacter.Module.{
  SpecParamsDesc, HsaModuleData, FuncModule, Store, Session, compile_module, keep, kept_by,
  compile_internal, Call, call, calls, compile, group, private, elsewhere, acquire_fence,
  release_fence, clear_all, undefine_key, define_key, set_sizes, set_acquire_fence,
  set_release_fence, clear_params, undefine_param, define_param,
}
use geobacter.Module.Cache.{group_size-state, private_size-state}

module _ (compile_with : SpecParamsDesc → Result Error ℕ)
    (load : (n code : ℕ) → Result Error HsaModuleData) where
  keep-end_fence :
      (f : FuncModule) (r : Result Error HsaModuleData × Store)
      → (keep compile_with load f r).1.func.end_fence ≡ f.end_fence
  keep-end_fence f (ok b, store) = refl
  keep-end_fence f (err e, store) = refl

  kept_by-end_fence :
      (s : Session) (x : Option HsaModuleData)
      → (kept_by compile_with load s x).1.func.end_fence ≡ s.func.end_fence
  unfolding kept_by
  kept_by-end_fence s none =
      keep-end_fence s.func (compile_module compile_with load s.store s.func.spec_params)
  kept_by-end_fence s (some b) = refl

  compile_internal-end_fence :
      (s : Session) → (compile_internal compile_with load s).1.func.end_fence ≡ s.func.end_fence
  unfolding compile_internal
  compile_internal-end_fence s = kept_by-end_fence s s.func.module_data

  call-end_fence :
      (s : Session) (c : Call compile_with load)
      → (call compile_with load s c).func.end_fence ≡ s.func.end_fence
  unfolding call set_acquire_fence set_release_fence clear_params undefine_param define_param
  call-end_fence s compile = compile_internal-end_fence s
  call-end_fence s group =
      ap (λ t. t.func.end_fence) (group_size-state compile_with load s)
      ∙ compile_internal-end_fence s
  call-end_fence s private =
      ap (λ t. t.func.end_fence) (private_size-state compile_with load s)
      ∙ compile_internal-end_fence s
  call-end_fence s (elsewhere params) = refl
  call-end_fence s (acquire_fence scope) = refl
  call-end_fence s (release_fence scope) = refl
  call-end_fence s (clear_all sole) = refl
  call-end_fence s (undefine_key k) = refl
  call-end_fence s (define_key k bytes) = refl
  call-end_fence s (set_sizes g p) = refl

  -- The release fence of a module can not be changed: whatever is called on it, it stays what it was.
  release_fence_stuck :
      (s : Session) (cs : List (Call compile_with load))
      → (calls compile_with load s cs).func.end_fence ≡ s.func.end_fence
  release_fence_stuck s [] = refl
  release_fence_stuck s (c ∷ cs) =
      release_fence_stuck (call compile_with load s c) cs ∙ call-end_fence s c
