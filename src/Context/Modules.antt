-- ===== src/Context/Modules.antt =====
-- `ModuleData` of runtime-core/src/context.rs: the modules of a kernel, one slot for each accelerator,
-- behind a lock with readers, an upgradable reader and a writer. Threads call `compile`; a step is what
-- one thread does under one lock, or how its compilation or its loading ends.
pub mod Invariant
pub mod Once
pub mod Moves
mod Tests
use geobacter.Prelude.{
  ℕ, ◌+◌, ◌≡◌, ◌-◌, ◌≢◌, Bool, ◌==◌, leb, if◌then◌else◌, Option, none, some, List, [], ◌∷◌, ◌++◌,
  length, get_elem?, set, replicate, update,
}
use geobacter.Context.Slots.{lookup, resized}

-- A module, with the type of its platform, and the parameters of the call that loaded it. Nothing
-- reads those.
pub record Entry : Type 0 where
  pub value : ℕ
  pub ty : ℕ
  pub params : ℕ

-- The lock of the entries. Plain readers hold it for one step.
pub data Lock : Type 0 where
  free : Lock
  upgradable writer : ℕ → Lock

-- Where a thread stands in `compile`: about to read; about to lock; with the upgradable guard; in the
-- compiler; about to upgrade; loading, with the writer's guard; at the end.
pub data Pc : Type 0 where
  idle reading locking checking compiling upgrading loading failed panicked : Pc
  returned : ℕ → Pc

-- The entries with their lock, the next module, how many modules were loaded for each accelerator, and
-- for each thread its accelerator, its type of platform, its `expect_platform_ty`, the specialization
-- parameters that its descriptor asks for, and where it stands.
pub record System : Type 0 where
  pub entries : List (Option Entry)
  pub lock : Lock
  pub fresh : ℕ
  pub loads : ℕ → ℕ
  pub accel : ℕ → ℕ
  pub ty : ℕ → ℕ
  pub expect : ℕ → Bool
  pub params : ℕ → ℕ
  pub pc : ℕ → Pc

abbrev pub at : System → ℕ → Lock → Pc → System
at s i lock' pc' = record s { lock = lock'; pc = update s.pc i pc' }

-- `get`, with the return behind it.
unfoldable pub read_entry : ℕ → Bool → Option Entry → Pc
read_entry ty expect none = locking
read_entry ty expect (some e) =
    if e.ty == ty then returned e.value else (if expect then panicked else locking)

-- The second look, with the upgradable guard.
unfoldable pub check_entry : System → ℕ → Option Entry → System
check_entry s i none = at s i s.lock compiling
check_entry s i (some e) =
    if e.ty == s.ty i
    then at s i free (returned e.value)
    else (if s.expect i then at s i free panicked else at s i s.lock compiling)

-- `upgrade`, and the room for the entry.
abbrev pub upgrade : System → ℕ → System
upgrade s i = record (at s i (writer i) loading) { entries = resized s.entries (s.accel i) }

-- `load_kernel` has returned a module, which is stored.
unfoldable pub load : System → ℕ → System
load s i = record (at s i free (returned s.fresh)) {
  entries =
      set s.entries (s.accel i)
        (some (record { value = s.fresh; ty = s.ty i; params = s.params i }));
  fresh = s.fresh + 1;
  loads = update s.loads (s.accel i) (s.loads (s.accel i) + 1);
}

-- The compiler and `load_kernel` end with a result, with an error, or with a panic.
pub data Step (s : System) (i : ℕ) : System → Type 0 where
  read :
      s.pc i ≡ reading
      → ((j : ℕ) → s.lock ≢ writer j)
      → Step s i (at s i s.lock (read_entry (s.ty i) (s.expect i) (lookup s.entries (s.accel i))))
  lock : s.pc i ≡ locking → s.lock ≡ free → Step s i (at s i (upgradable i) checking)
  look_again : s.pc i ≡ checking → Step s i (check_entry s i (lookup s.entries (s.accel i)))
  compiled : s.pc i ≡ compiling → Step s i (at s i s.lock upgrading)
  not_compiled : s.pc i ≡ compiling → Step s i (at s i free failed)
  unwind : s.pc i ≡ compiling → Step s i (at s i free panicked)
  upgraded : s.pc i ≡ upgrading → Step s i (upgrade s i)
  loaded : s.pc i ≡ loading → Step s i (load s i)
  not_loaded : s.pc i ≡ loading → Step s i (at s i free failed)
  unwind_load : s.pc i ≡ loading → Step s i (at s i free panicked)

pub data Reach (s : System) : System → Type 0 where
  initial : Reach s s
  step : {t u : System} {i : ℕ} → Reach s t → Step t i u → Reach s u
