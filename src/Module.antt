-- ===== src/Module.antt =====
-- `FuncModule` of runtime-amd/src/module/mod.rs: a kernel with its fences and specialization
-- parameters, and the compiled module that it keeps. `SpecParamsDesc` is in
-- runtime-core/src/codegen/mod.rs, and `ModuleData::compile`, which the functions of one kernel share,
-- in runtime-core/src/context.rs.
pub mod Cache
mod Fences
mod Tests
use geobacter.Prelude.{
  ℕ, ◌+◌, Bool, true, false, Option, none, some, List, [], ◌∷◌, update, wrapping_add, u32_mod,
}
use geobacter.Prelude.Results.{Result, ok, err}
use geobacter.Errors.{Error}
use geobacter.Queue.Abi.{FenceScope}

-- Kernel instances are numbered, and a value is its bytes.
abbrev pub SpecParamsDesc : Type 0
SpecParamsDesc = Option (ℕ → Option (List ℕ))

abbrev pub get_mut : SpecParamsDesc → ℕ → Option (List ℕ)
get_mut none = λ k. none
get_mut (some map) = map

-- `sole`: no other owner shares the map.
unfoldable pub clear : Bool → SpecParamsDesc → SpecParamsDesc
clear sole none = none
clear true (some map) = some (λ k. none)
clear false (some map) = none

unfoldable pub undefine : SpecParamsDesc → ℕ → SpecParamsDesc
undefine none key = none
undefine (some map) key = some (update map key none)

unfoldable pub define : SpecParamsDesc → ℕ → List ℕ → SpecParamsDesc
define p key bytes = some (update (get_mut p) key (some bytes))

-- `HsaModuleData`, as far as its descriptor is read.
pub record HsaModuleData : Type 0 where
  pub group_segment_size : ℕ
  pub private_segment_size : ℕ
  pub kernel_object : ℕ

pub record FuncModule : Type 0 where
  pub module_data : Option HsaModuleData
  pub dynamic_group_size : ℕ
  pub dynamic_private_size : ℕ
  pub begin_fence : FenceScope
  pub end_fence : FenceScope
  pub spec_params : SpecParamsDesc

abbrev pub new_module : FuncModule
new_module = record {
  module_data = none;
  dynamic_group_size = 0;
  dynamic_private_size = 0;
  begin_fence = FenceScope.system;
  end_fence = FenceScope.system;
  spec_params = none;
}

unfoldable pub set_acquire_fence : FuncModule → FenceScope → FuncModule
set_acquire_fence f scope = record f { begin_fence = scope }

unfoldable pub set_release_fence : FuncModule → FenceScope → FuncModule
set_release_fence f scope = record f { begin_fence = scope }

unfoldable pub clear_params : Bool → FuncModule → FuncModule
unfolding clear
clear_params sole f = record f { module_data = none; spec_params = clear sole f.spec_params }

unfoldable pub undefine_param : FuncModule → ℕ → FuncModule
unfolding undefine
undefine_param f key = record f { module_data = none; spec_params = undefine f.spec_params key }

unfoldable pub define_param : FuncModule → ℕ → List ℕ → FuncModule
unfolding define
define_param f key bytes = record f {
  module_data = none;
  spec_params = define f.spec_params key bytes;
}

-- What the functions of one kernel share on one accelerator: the slot of `ModuleData`, the entry of the
-- driver's cache, whose key has no parameters in it, and how often a kernel was loaded.
pub record Store : Type 0 where
  pub slot : Option HsaModuleData
  pub cached : Option ℕ
  pub loads : ℕ

pub record Session : Type 0 where
  pub store : Store
  pub func : FuncModule

-- A new module of a kernel that was never compiled.
abbrev pub opened : Session
opened = record { store = record { slot = none; cached = none; loads = 0 }; func = new_module }

abbrev pub Compiled : Type 0
Compiled = Result Error HsaModuleData × Session

abbrev pub sized : (HsaModuleData → ℕ) → Compiled → Result Error ℕ × Session
sized size (ok built, s) = (ok (size built), s)
sized size (err e, s) = (err e, s)

abbrev pub on_func : Session → FuncModule → Session
on_func s f = record s { func = f }

-- The compiler makes code of the kernel with some parameters; the n-th load of some code ends in a module
-- or in an error.
module _ (compile_with : SpecParamsDesc → Result Error ℕ)
    (load : (n code : ℕ) → Result Error HsaModuleData) where
  abbrev cache_code : Store → Result Error ℕ → Result Error ℕ × Store
  cache_code store (ok code) = (ok code, record store { cached = some code })
  cache_code store (err e) = (err e, store)

  -- `CodegenDriver::codegen`, as far as its cache goes, for one call at a time.
  unfoldable pub codegen_kernel : Store → SpecParamsDesc → Result Error ℕ × Store
  codegen_kernel store params = elim store.cached [
    | some code ↦ (ok code, store)
    | none ↦ cache_code store (compile_with params)
  ]

  abbrev fill_slot : Store → Result Error HsaModuleData → Result Error HsaModuleData × Store
  fill_slot store (ok built) = (ok built, record store { slot = some built })
  fill_slot store (err e) = (err e, store)

  abbrev load_kernel : Result Error ℕ × Store → Result Error HsaModuleData × Store
  load_kernel (ok code, store) =
      fill_slot (record store { loads = store.loads + 1 }) (load store.loads code)
  load_kernel (err e, store) = (err e, store)

  unfoldable pub found_in :
      Store → SpecParamsDesc → Option HsaModuleData → Result Error HsaModuleData × Store
  unfolding codegen_kernel
  found_in store params (some built) = (ok built, store)
  found_in store params none = load_kernel (codegen_kernel store params)

  -- `ModuleData::compile`, when the modules of an accelerator have the type that it expects.
  unfoldable pub compile_module : Store → SpecParamsDesc → Result Error HsaModuleData × Store
  unfolding found_in
  compile_module store params = found_in store params store.slot

  abbrev keep : FuncModule → Result Error HsaModuleData × Store → Compiled
  keep f (ok built, store) =
      (ok built, record { store = store; func = record f { module_data = some built } })
  keep f (err e, store) = (err e, record { store = store; func = f })

  unfoldable pub kept_by : Session → Option HsaModuleData → Compiled
  unfolding compile_module
  kept_by s (some built) = (ok built, s)
  kept_by s none = keep s.func (compile_module s.store s.func.spec_params)

  unfoldable pub compile_internal : Session → Compiled
  unfolding kept_by
  compile_internal s = kept_by s s.func.module_data

  unfoldable pub group_size : Session → Result Error ℕ × Session
  unfolding compile_internal
  group_size s =
      sized (λ built. wrapping_add u32_mod built.group_segment_size s.func.dynamic_group_size)
        (compile_internal s)

  unfoldable pub private_size : Session → Result Error ℕ × Session
  unfolding compile_internal
  private_size s =
      sized (λ built. wrapping_add u32_mod built.private_segment_size s.func.dynamic_private_size)
        (compile_internal s)

  -- What a caller can do with a module. `elsewhere`: another function of the kernel, or the task of
  -- `compile_async`, compiles it with its own parameters.
  pub data Call : Type 0 where
    compile group private : Call
    elsewhere : SpecParamsDesc → Call
    acquire_fence release_fence : FenceScope → Call
    clear_all : Bool → Call
    undefine_key : ℕ → Call
    define_key : ℕ → List ℕ → Call
    set_sizes : (group private : ℕ) → Call

  unfoldable pub call : Session → Call → Session
  unfolding compile_module compile_internal group_size private_size set_acquire_fence
      set_release_fence clear_params undefine_param define_param
  call s compile = (compile_internal s).1
  call s group = (group_size s).1
  call s private = (private_size s).1
  call s (elsewhere params) = record s { store = (compile_module s.store params).1 }
  call s (acquire_fence scope) = on_func s (set_acquire_fence s.func scope)
  call s (release_fence scope) = on_func s (set_release_fence s.func scope)
  call s (clear_all sole) = on_func s (clear_params sole s.func)
  call s (undefine_key k) = on_func s (undefine_param s.func k)
  call s (define_key k bytes) = on_func s (define_param s.func k bytes)
  call s (set_sizes g p) =
      on_func s (record s.func { dynamic_group_size = g; dynamic_private_size = p })

  abbrev pub calls : Session → List Call → Session
  calls s [] = s
  calls s (c ∷ cs) = calls (call s c) cs
