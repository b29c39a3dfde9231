-- ===== src/Context/Stash.antt =====
-- `ModuleContextData` of runtime-core/src/context.rs: a global cell that holds the address of a
-- counted `ModuleData`. Threads work on it with atomic accesses; each step is one access of the cell
-- or of a count. An address is not used again after its data is freed.
pub mod Invariant
pub mod Steps
pub mod Agree
pub mod Races
mod Tests
use geobacter.Prelude.{ℕ, zero, suc, ◌+◌, ◌-◌, ◌≤◌, ◌≡◌, Bool, ◌==◌, if◌then◌else◌, update}

-- Which of its three calls of `upgrade` a thread is in, with the data that it made itself, and what
-- its exchange found in the cell.
pub data Why : Type 0 where
  first : Why
  second : ℕ → ℕ → Why
  third : ℕ → Why

-- Where a thread stands: about to load the cell; with an address that it loaded; with a reference of
-- its own to the data there; about to make data; about to put it into the empty cell, or over old data;
-- at the end. `faulted` is an access to freed data, `panicked` a failed assertion or `expect`.
pub data Pc : Type 0 where
  idle creating panicked faulted dropping dropped : Pc
  looking : Why → Pc
  loaded cloned : Why → ℕ → Pc
  trying returned drop_loaded : ℕ → Pc
  stale : ℕ → ℕ → Pc

-- The cell (0 for none), the references to each data and the context that it was made for, the next
-- address, the contexts that are alive, and for each thread its context and where it stands.
pub record System : Type 0 where
  pub cell : ℕ
  pub strong : ℕ → ℕ
  pub owner : ℕ → ℕ
  pub fresh : ℕ
  pub live : ℕ → Bool
  pub ctxt : ℕ → ℕ
  pub pc : ℕ → Pc

abbrev pub at : System → ℕ → Pc → System
at s i pc' = record s { pc = update s.pc i pc' }

abbrev pub release : System → ℕ → ℕ → System
release s p n = record s { strong = update s.strong p (s.strong p - n) }

-- `upgrade` has returned `None`.
unfoldable pub after_none : Why → Pc
after_none first = creating
after_none (second n a) = stale n a
after_none (third n) = panicked

-- The load of `upgrade`.
unfoldable pub seen : Why → ℕ → Pc
unfolding after_none
seen why zero = after_none why
seen why (suc p) = loaded why (suc p)

-- `upgrade` has returned the data, and what the thread made itself is dropped: the reference that
-- `into_raw` gave away, and its own.
unfoldable pub after_some : System → ℕ → Why → ℕ → System
after_some s i first p = at s i (returned p)
after_some s i (second n a) p = at (release s n 2) i (returned p)
after_some s i (third n) p = at (release s n 1) i (returned p)

-- `upgrade` behind the clone: the context of the data, and whether it is the thread's.
unfoldable pub check : System → ℕ → Why → ℕ → System
unfolding after_some after_none
check s i why p =
    if s.live (s.owner p)
    then (if s.owner p == s.ctxt i then after_some s i why p else at s i panicked)
    else at (release s p 1) i (after_none why)

-- `Arc::new` and the clone for `into_raw`.
unfoldable pub create : System → ℕ → System
create s i = record s {
  strong = update s.strong s.fresh 2;
  owner = update s.owner s.fresh (s.ctxt i);
  fresh = s.fresh + 1;
  pc = update s.pc i (trying s.fresh);
}

-- The exchange with the empty cell.
unfoldable pub fill : System → ℕ → ℕ → System
fill s i n =
    if s.cell == 0
    then record s { cell = n; pc = update s.pc i (returned n) }
    else at s i (looking (second n s.cell))

-- The exchange with the old data.
unfoldable pub replace : System → ℕ → ℕ → ℕ → System
replace s i n a =
    if s.cell == a
    then record s {
      cell = n;
      strong = update s.strong a (s.strong a - 1);
      pc = update s.pc i (returned n);
    }
    else at (release s n 1) i (looking (third n))

-- `drop`: the load, and the exchange.
unfoldable pub drop_load : ℕ → Pc
drop_load zero = dropped
drop_load (suc p) = drop_loaded (suc p)

unfoldable pub clear : System → ℕ → ℕ → System
clear s i p =
    if s.cell == p
    then record s {
      cell = 0;
      strong = update s.strong p (s.strong p - 1);
      pc = update s.pc i dropped;
    }
    else at s i dropped

-- `get_cache_data` starts at `looking first`, `drop` at `dropping`.
pub data Step (s : System) (i : ℕ) : System → Type 0 where
  load : (why : Why) → s.pc i ≡ looking why → Step s i (at s i (seen why s.cell))
  clone :
      (why : Why) (p : ℕ)
      → s.pc i ≡ loaded why p
      → 1 ≤ s.strong p
      → Step s i (record s {
        strong = update s.strong p (s.strong p + 1);
        pc = update s.pc i (cloned why p);
      })
  use_freed :
      (why : Why) (p : ℕ) → s.pc i ≡ loaded why p → s.strong p ≡ 0 → Step s i (at s i faulted)
  compare : (why : Why) (p : ℕ) → s.pc i ≡ cloned why p → Step s i (check s i why p)
  make : s.pc i ≡ creating → Step s i (create s i)
  exchange : (n : ℕ) → s.pc i ≡ trying n → Step s i (fill s i n)
  exchange_old : (n a : ℕ) → s.pc i ≡ stale n a → Step s i (replace s i n a)
  start_drop : s.pc i ≡ dropping → Step s i (at s i (drop_load s.cell))
  end_drop : (p : ℕ) → s.pc i ≡ drop_loaded p → Step s i (clear s i p)

pub data Reach (s : System) : System → Type 0 where
  initial : Reach s s
  step : {t u : System} {i : ℕ} → Reach s t → Step t i u → Reach s u
