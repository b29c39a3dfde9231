-- ===== src/Module/Cache.antt =====
-- The compiled module that a kernel's functions share, what `FuncModule` keeps of it, and its fences.
use geobacter.Prelude.{
  ℕ, ◌≡◌, refl, ap, subst, List, [], ◌∷◌, Option, none, some, inl, inr, ◌∙◌, sym,
}
use geobacter.Prelude.Results.{Result, ok, err, Result-cases}
use geobacter.Errors.{Error}
use geobacter.Module.{
  SpecParamsDesc, HsaModuleData, FuncModule, Store, Session, Compiled, opened, codegen_kernel,
  load_kernel, found_in, kept_by, compile_module, keep, compile_internal, group_size, private_size,
  Call, call, sized, calls, compile, group, private, elsewhere, acquire_fence, release_fence,
  clear_all, undefine_key, define_key, set_sizes, set_acquire_fence, set_release_fence,
  clear_params, undefine_param, define_param,
}

sized_state : (size : HsaModuleData → ℕ) (r : Compiled) → (sized size r).1 ≡ r.1
sized_state size (ok built, s) = refl
sized_state size (err e, s) = refl

-- A module that is returned is in the slot, and after an error a function keeps nothing.
abbrev Filled : Result Error HsaModuleData × Store → Type 0
Filled (ok built, store) = store.slot ≡ some built
Filled (err e, store) = Unit

-- A function keeps nothing, or what is in the slot.
abbrev Kept : Option HsaModuleData → Option HsaModuleData → Type 0
Kept slot none = Unit
Kept slot (some built) = slot ≡ some built

-- The slot has a module, and the function keeps nothing else.
record Holds (built : HsaModuleData) (s : Session) : Type 0 where
  filled : s.store.slot ≡ some built
  kept : Kept s.store.slot s.func.module_data

module _ (compile_with : SpecParamsDesc → Result Error ℕ)
    (load : (n code : ℕ) → Result Error HsaModuleData) where
  load_kernel-Filled : (r : Result Error ℕ × Store) → Filled (load_kernel compile_with load r)
  load_kernel-Filled (err e, store) = tt
  load_kernel-Filled (ok code, store) = elim (Result-cases (load store.loads code)) [
    | inl (built, made) ↦ rw (made) refl
    | inr (e, failed) ↦ rw (failed) tt
  ]

  found_in-Filled :
      (store : Store) (params : SpecParamsDesc) (x : Option HsaModuleData)
      → store.slot ≡ x
      → Filled (found_in compile_with load store params x)
  unfolding found_in
  found_in-Filled store params (some built) e = e
  found_in-Filled store params none e =
      load_kernel-Filled (codegen_kernel compile_with load store params)

  compile_module-Filled :
      (store : Store) (params : SpecParamsDesc)
      → Filled (compile_module compile_with load store params)
  unfolding compile_module
  compile_module-Filled store params = found_in-Filled store params store.slot refl

  -- The parameters are not looked at where the slot has a module.
  compile_module_again :
      (store : Store) (params : SpecParamsDesc) {built : HsaModuleData}
      → store.slot ≡ some built
      → compile_module compile_with load store params ≡ (ok built, store)
  unfolding compile_module found_in
  compile_module_again store params there = ap (found_in compile_with load store params) there

  keep-Holds :
      {built : HsaModuleData} (f : FuncModule) (r : Result Error HsaModuleData × Store)
      → Filled r
      → (keep compile_with load f r).0 ≡ ok built
      → Holds built (keep compile_with load f r).1
  keep-Holds f (ok b, store) there e =
      let same = ap some (cc e) in record { filled = there ∙ same; kept = there }
  keep-Holds f (err x, store) there e = absurd (cc e)

  kept_by-Holds :
      {built : HsaModuleData} (s : Session) (x : Option HsaModuleData)
      → s.func.module_data ≡ x
      → Kept s.store.slot x
      → (kept_by compile_with load s x).0 ≡ ok built
      → Holds built (kept_by compile_with load s x).1
  unfolding kept_by
  kept_by-Holds s none e kept r =
      keep-Holds s.func (compile_module compile_with load s.store s.func.spec_params)
        (compile_module-Filled s.store s.func.spec_params) r
  kept_by-Holds s (some b) e kept r = record {
    filled = kept ∙ ap some (cc r);
    kept = subst (Kept s.store.slot) (sym e) kept;
  }

  compile_internal-Holds :
      {built : HsaModuleData} (s : Session)
      → Kept s.store.slot s.func.module_data
      → (compile_internal compile_with load s).0 ≡ ok built
      → Holds built (compile_internal compile_with load s).1
  unfolding compile_internal
  compile_internal-Holds s kept r = kept_by-Holds s s.func.module_data refl kept r

  -- Once the slot has a module, every compilation ends with it, and the store stays.
  kept_by-again :
      {built : HsaModuleData} (s : Session) (x : Option HsaModuleData)
      → Kept s.store.slot x
      → s.store.slot ≡ some built
      → ((kept_by compile_with load s x).0 ≡ ok built)
  unfolding kept_by
  kept_by-again s none kept there =
      ap (λ r. (keep compile_with load s.func r).0)
        (compile_module_again s.store s.func.spec_params there)
  kept_by-again s (some b) kept there = let eq = sym kept ∙ there in ap ok (cc eq)

  compile_internal-again :
      {built : HsaModuleData} (s : Session)
      → Holds built s
      → (compile_internal compile_with load s).0 ≡ ok built
  unfolding compile_internal
  compile_internal-again s h = kept_by-again s s.func.module_data h.kept h.filled

  keep-Kept :
      (f : FuncModule) (r : Result Error HsaModuleData × Store)
      → f.module_data ≡ none
      → Filled r
      → Kept
          (keep compile_with load f r).1.store.slot
          (keep compile_with load f r).1.func.module_data
  keep-Kept f (ok b, store) e there = there
  keep-Kept f (err x, store) e there = subst (Kept store.slot) (sym e) tt

  kept_by-Kept :
      (s : Session) (x : Option HsaModuleData)
      → s.func.module_data ≡ x
      → Kept s.store.slot x
      → Kept
          (kept_by compile_with load s x).1.store.slot
          (kept_by compile_with load s x).1.func.module_data
  unfolding kept_by
  kept_by-Kept s none e kept =
      keep-Kept s.func (compile_module compile_with load s.store s.func.spec_params) e
        (compile_module-Filled s.store s.func.spec_params)
  kept_by-Kept s (some b) e kept = subst (Kept s.store.slot) (sym e) kept

  elsewhere-Kept :
      (store : Store) (params : SpecParamsDesc) (x : Option HsaModuleData)
      → Kept store.slot x
      → Kept (compile_module compile_with load store params).1.slot x
  elsewhere-Kept store params none kept = tt
  elsewhere-Kept store params (some b) kept =
      ap (λ r. r.1.slot) (compile_module_again store params kept) ∙ kept

  kept_by-slot :
      {built : HsaModuleData} (s : Session) (x : Option HsaModuleData)
      → s.store.slot ≡ some built
      → (kept_by compile_with load s x).1.store.slot ≡ some built
  unfolding kept_by
  kept_by-slot s none there =
      ap (λ r. (keep compile_with load s.func r).1.store.slot)
        (compile_module_again s.store s.func.spec_params there)
      ∙ there
  kept_by-slot s (some b) there = there

  pub group_size-state :
      (s : Session) → (group_size compile_with load s).1 ≡ (compile_internal compile_with load s).1
  unfolding group_size
  group_size-state s = sized_state _ (compile_internal compile_with load s)

  pub private_size-state :
      (s : Session)
      → (private_size compile_with load s).1 ≡ (compile_internal compile_with load s).1
  unfolding private_size
  private_size-state s = sized_state _ (compile_internal compile_with load s)

  -- What holds of every call that compiles, and of those that forget the module.
  Calm : Session → Type 0
  Calm s = Kept s.store.slot s.func.module_data

  compile_internal-Calm : (s : Session) → Calm s → Calm (compile_internal compile_with load s).1
  unfolding Calm compile_internal
  compile_internal-Calm s kept = kept_by-Kept s s.func.module_data refl kept

  call-Calm :
      (s : Session) (c : Call compile_with load) → Calm s → Calm (call compile_with load s c)
  unfolding Calm call set_acquire_fence set_release_fence clear_params undefine_param define_param
  call-Calm s compile h = compile_internal-Calm s h
  call-Calm s group h = subst Calm (sym (group_size-state s)) (compile_internal-Calm s h)
  call-Calm s private h = subst Calm (sym (private_size-state s)) (compile_internal-Calm s h)
  call-Calm s (elsewhere params) h = elsewhere-Kept s.store params s.func.module_data h
  call-Calm s (acquire_fence scope) h = h
  call-Calm s (release_fence scope) h = h
  call-Calm s (clear_all sole) h = tt
  call-Calm s (undefine_key k) h = tt
  call-Calm s (define_key k bytes) h = tt
  call-Calm s (set_sizes g p) h = h

  compile_internal-slot :
      {built : HsaModuleData} (s : Session)
      → s.store.slot ≡ some built
      → (compile_internal compile_with load s).1.store.slot ≡ some built
  unfolding compile_internal
  compile_internal-slot s there = kept_by-slot s s.func.module_data there

  call-slot :
      {built : HsaModuleData} (s : Session) (c : Call compile_with load)
      → s.store.slot ≡ some built
      → (call compile_with load s c).store.slot ≡ some built
  unfolding call
  call-slot s compile h = compile_internal-slot s h
  call-slot s group h = ap (λ t. t.store.slot) (group_size-state s) ∙ compile_internal-slot s h
  call-slot s private h = ap (λ t. t.store.slot) (private_size-state s) ∙ compile_internal-slot s h
  call-slot s (elsewhere params) h = ap (λ r. r.1.slot) (compile_module_again s.store params h) ∙ h
  call-slot s (acquire_fence scope) h = h
  call-slot s (release_fence scope) h = h
  call-slot s (clear_all sole) h = h
  call-slot s (undefine_key k) h = h
  call-slot s (define_key k bytes) h = h
  call-slot s (set_sizes g p) h = h

  calls-Calm :
      (s : Session) (cs : List (Call compile_with load))
      → Calm s
      → Calm (calls compile_with load s cs)
  calls-Calm s [] h = h
  calls-Calm s (c ∷ cs) h = calls-Calm (call compile_with load s c) cs (call-Calm s c h)

  calls-Holds :
      {built : HsaModuleData} (s : Session) (cs : List (Call compile_with load))
      → Holds built s
      → Holds built (calls compile_with load s cs)
  unfolding Calm
  calls-Holds s [] h = h
  calls-Holds s (c ∷ cs) h =
      calls-Holds (call compile_with load s c) cs
        (record { filled = call-slot s c h.filled; kept = call-Calm s c h.kept })

  -- From when a function of a kernel that was never compiled has compiled it, the module of that
  -- compilation is what every later one ends with: whatever parameters are defined, undefined or cleared
  -- since, the function gets it again, and so does every function of the kernel, with any parameters.
  pub params_ignored :
      (earlier later : List (Call compile_with load)) (params : SpecParamsDesc)
      {built : HsaModuleData}
      → (compile_internal compile_with load (calls compile_with load opened earlier)).0 ≡ ok built
      → let s =
          calls compile_with load
            (compile_internal compile_with load (calls compile_with load opened earlier)).1
            later in
        ((compile_internal compile_with load s).0 ≡ ok built)
        × (compile_module compile_with load s.store params ≡ (ok built, s.store))
  unfolding Calm
  params_ignored earlier later params r =
      let first = compile_internal-Holds _ (calls-Calm opened earlier tt) r in
      let h = calls-Holds _ later first in
      (compile_internal-again _ h, compile_module_again _ params h.filled)
