-- ===== src/ArgsPool/Race/Steps.antt =====
-- The loop of `ArgsPool::alloc` run by any number of threads over one pool: each step is one load or
-- one weak compare-exchange of the shared counter, in any order.
use geobacter.Prelude.{ℕ, ◌≡◌, none, some, List, [], ◌∷◌, update}
use geobacter.Layout.{Layout, align_to}
use geobacter.ArgsPool.{ArgsPool, attempt, cacheline}
use geobacter.ArgsPool.Grants.{Request}

-- Where a thread stands in `alloc`, with the layout and the value that it last read.
pub data Pc : Type 0 where
  idle refused : Pc
  trying : Layout → ℕ → Pc
  granted : ℕ → Pc

-- A block that was handed out, with the layout of the request.
pub record Block : Type 0 where
  pub ptr : ℕ
  pub layout : Layout

-- The counter that the threads share, where each thread stands, and all blocks, the last first.
pub record System : Type 0 where
  pub pool : ArgsPool
  pub pc : ℕ → Pc
  pub blocks : List Block

abbrev pub at : System → ℕ → Pc → System
at s i pc' = record s { pc = update s.pc i pc' }

-- A step of thread `i`.
pub data Step (s : System) (i : ℕ) : System → Type 0 where
  bad_layout :
      (l : Layout) → s.pc i ≡ idle → align_to l cacheline ≡ none → Step s i (at s i refused)
  load :
      (l l' : Layout)
      → s.pc i ≡ idle
      → Request s.pool l
      → align_to l cacheline ≡ some l'
      → Step s i (at s i (trying l' s.pool.allocated))
  out_of_space :
      (l : Layout) (start : ℕ)
      → s.pc i ≡ trying l start
      → attempt s.pool l start ≡ none
      → Step s i (at s i refused)
  exchange :
      (l : Layout) (start next ptr : ℕ)
      → s.pc i ≡ trying l start
      → attempt s.pool l start ≡ some (next, ptr)
      → s.pool.allocated ≡ start
      → Step s i (record {
        pool = record (s.pool) { allocated = next };
        pc = update s.pc i (granted ptr);
        blocks = record { ptr = ptr; layout = l } ∷ s.blocks;
      })
  -- The exchange fails, or fails spuriously, and hands back the value that is there.
  retry :
      (l : Layout) (start next ptr : ℕ)
      → s.pc i ≡ trying l start
      → attempt s.pool l start ≡ some (next, ptr)
      → Step s i (at s i (trying l s.pool.allocated))
  -- The call has returned, and the thread may make another.
  again : (ptr : ℕ) → s.pc i ≡ granted ptr → Step s i (at s i idle)

pub data Reach (s : System) : System → Type 0 where
  initial : Reach s s
  step : {t u : System} {i : ℕ} → Reach s t → Step t i u → Reach s u

abbrev pub init : ArgsPool → System
init p = record { pool = p; pc = λ _. idle; blocks = [] }
