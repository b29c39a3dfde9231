-- ===== src/Context/Accels.antt =====
-- The accelerators of a `Context` in runtime-core/src/context.rs: their numbers, their slots, and the
-- code generators that devices of the same target share.
pub mod Shared
pub mod Found
mod Tests
use geobacter.Prelude.{
  ℕ, ◌+◌, ◌-◌, ◌^◌, ◌/◌, Bool, ltb, if◌then◌else◌, Option, none, some, List, [], ◌∷◌, set, update,
  usize_mod, wrapping_add,
}
use geobacter.Prelude.Results.{Result, ok, err}
use geobacter.Context.Slots.{lookup, resized}

-- A device as the context sees it: its number, the content of its target's description, the address of
-- the description, and its code generator.
pub record Accel : Type 0 where
  pub id : ℕ
  pub target : ℕ
  pub desc : ℕ
  pub codegen : Option ℕ

-- An entry of the translators: the description that is its key, and its weak reference.
pub record Translator : Type 0 where
  pub key : ℕ
  pub codegen : ℕ

pub record ContextData : Type 0 where
  pub next_accel_id : ℕ
  pub accelerators : List (Option Accel)
  pub translators : ℕ → Option Translator

abbrev pub new_context : ContextData
new_context = record { next_accel_id = 0; accelerators = []; translators = λ t. none }

-- The number, where the call does not panic. The next one is counted on in both cases.
unfoldable pub take_accel_id : ContextData → Option ℕ × ContextData
take_accel_id s = (
  if ltb ((usize_mod - 1) / 2) s.next_accel_id then none else some s.next_accel_id,
  record s { next_accel_id = wrapping_add usize_mod s.next_accel_id 1 },
)

-- The end of `initialize_accel`.
abbrev pub installed : ContextData → Accel → ContextData
installed s a = record s { accelerators = set (resized s.accelerators a.id) a.id (some a) }

abbrev pub set_target_codegen : Accel → ℕ → Accel
set_target_codegen a g = record a { codegen = some g }

module _ {E : Type 0} where
  -- `create_target_codegen`, which gives the device what it returns, and what follows.
  abbrev pub created : ContextData → Accel → ℕ → Result E ℕ → Result E Accel × ContextData
  created s a key (err e) = (err e, s)
  created s a key (ok g) = (
    ok (set_target_codegen a g),
    installed
        (record s {
          translators = update s.translators a.target (some (record { key = key; codegen = g }));
        })
        (set_target_codegen a g),
  )

  -- `alive` is which code generators have a reference that is not weak, `create` what the device
  -- returns where it has to make one.
  abbrev pub initialize_with :
      (alive : ℕ → Bool)
      → Result E ℕ
      → ContextData
      → Accel
      → Option Translator
      → Result E Accel × ContextData
  initialize_with alive create s a none = created s a a.desc create
  initialize_with alive create s a (some o) =
      let a' = record a { desc = o.key } in
      if alive o.codegen
      then (ok (set_target_codegen a' o.codegen), installed s (set_target_codegen a' o.codegen))
      else created s a' o.key create

  -- `initialize_accel`: the device as it is then.
  unfoldable pub initialize_accel :
      (alive : ℕ → Bool) → Result E ℕ → ContextData → Accel → Result E Accel × ContextData
  unfolding resized
  initialize_accel alive create s a = initialize_with alive create s a (s.translators a.target)

abbrev pub get_accel_ref : ContextData → ℕ → Option Accel
get_accel_ref s i = lookup s.accelerators i

-- `find_accel`.
unfoldable pub find_accel : (Accel → Bool) → List (Option Accel) → Option Accel
find_accel f [] = none
find_accel f (none ∷ xs) = find_accel f xs
find_accel f (some a ∷ xs) = let rest = find_accel f xs in if f a then some a else rest

-- `filter_accels`.
unfoldable pub filter_accels : (Accel → Bool) → List (Option Accel) → List Accel
filter_accels f [] = []
filter_accels f (none ∷ xs) = filter_accels f xs
filter_accels f (some a ∷ xs) = let rest = filter_accels f xs in if f a then a ∷ rest else rest
