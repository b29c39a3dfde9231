-- ===== src/Context/Creation.antt =====
-- `Context::new` and `Context::global` of runtime-core/src/context.rs: threads that ask for the context
-- of the process. The pool of threads of the compiler can be built once in a process.
pub mod Once
pub mod Races
mod Tests
use geobacter.Prelude.{
  ℕ, ◌+◌, ◌≡◌, ◌≢◌, Bool, true, false, if◌then◌else◌, Option, none, some, update,
}

-- Where a thread stands: before the first look; before the lock; with the lock; before the second look;
-- before the pool is built; with the pool; at the end, with a context of which it holds a reference.
pub data Pc : Type 0 where
  idle looking locking locked looking_again building installing failed : Pc
  returned : ℕ → Pc

-- `CTX`; the contexts that are alive; whether the pool was built; the next context; whether `INIT` is
-- locked.
pub record System : Type 0 where
  pub ctx : Option ℕ
  pub live : ℕ → Bool
  pub built : Bool
  pub fresh : ℕ
  pub init : Bool
  pub pc : ℕ → Pc

abbrev pub at : System → ℕ → Pc → System
at s i pc' = record s { pc = update s.pc i pc' }

abbrev pub upgrade : (ℕ → Bool) → Option ℕ → Option ℕ
upgrade live none = none
upgrade live (some c) = if live c then some c else none

-- `Context::global`.
unfoldable pub global : System → Option ℕ
global s = upgrade s.live s.ctx

abbrev pub or_go_on : Pc → Option ℕ → Pc
or_go_on pc' none = pc'
or_go_on pc' (some c) = returned c

-- `build_global`, where nothing else stops it.
unfoldable pub build : System → ℕ → System
build s i = if s.built then at s i failed else record (at s i installing) { built = true }

-- The context is made, and `CTX` is set.
abbrev pub install : System → ℕ → System
install s i = record s {
  ctx = some s.fresh;
  live = update s.live s.fresh true;
  fresh = s.fresh + 1;
  pc = update s.pc i (returned s.fresh);
}

-- `let _ = INIT.lock()` takes the lock when it is free, and binds no guard: the lock is given back at
-- the end of that statement, before the second look. A context ends when nobody holds it.
pub data Step (s : System) : System → Type 0 where
  call : (i : ℕ) → s.pc i ≡ idle → Step s (at s i looking)
  look : (i : ℕ) → s.pc i ≡ looking → Step s (at s i (or_go_on locking (global s)))
  lock :
      (i : ℕ) → s.pc i ≡ locking → s.init ≡ false → Step s (record (at s i locked) { init = true })
  unlock : (i : ℕ) → s.pc i ≡ locked → Step s (record (at s i looking_again) { init = false })
  look_again : (i : ℕ) → s.pc i ≡ looking_again → Step s (at s i (or_go_on building (global s)))
  build_pool : (i : ℕ) → s.pc i ≡ building → Step s (build s i)
  not_built : (i : ℕ) → s.pc i ≡ building → Step s (at s i failed)
  set_ctx : (i : ℕ) → s.pc i ≡ installing → Step s (install s i)
  call_again : (i : ℕ) → s.pc i ≡ failed → Step s (at s i idle)
  let_go : (i c : ℕ) → s.pc i ≡ returned c → Step s (at s i idle)
  end_context :
      (c : ℕ) → ((i : ℕ) → s.pc i ≢ returned c) → Step s (record s { live = update s.live c false })

pub data Reach (s : System) : System → Type 0 where
  initial : Reach s s
  step : {t u : System} → Reach s t → Step t u → Reach s u
