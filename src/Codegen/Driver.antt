-- ===== src/Codegen/Driver.antt =====
-- `WorkerTranslatorData::codegen_kernel` of runtime-core/src/codegen/worker/mod.rs run by any number
-- of threads over one cache. Each step is what a thread does under one lock of the cache, or one event
-- of its wait or of the compiler.
use geobacter.Prelude.{ℕ, ◌+◌, ◌≡◌, ◌≢◌, Bool, if◌then◌else◌, Option, none, some, ite, update}
use geobacter.Prelude.Results.{Result, ok, err}

-- `enum MaybeInProgress`: the wait group of a compilation that runs, by number, or its results.
pub data MaybeInProgress (R : Type 0) : Type 0 where
  in_progress : ℕ → MaybeInProgress R
  done : R → MaybeInProgress R

-- Where a thread stands in the call for its kernel: about to read the cache; with a clone of a wait
-- group in hand; in `wait`, which has given the clone up; about to write the cache; in the compiler;
-- about to store what the compiler returned; at the end. `unwound` is a panic of the compiler,
-- `unwrapped` that of the `unwrap` behind it, and `idle` a thread that does not call.
pub data Pc (R E : Type 0) : Type 0 where
  idle reading writing compiling unwound unwrapped : Pc R E
  cloned blocked : ℕ → Pc R E
  storing returned : Result E R → Pc R E

-- The cache, the number of the next wait group, and for each thread its kernel and where it stands.
pub record System (K R E : Type 0) : Type 0 where
  pub cache : K → Option (MaybeInProgress R)
  pub next_group : ℕ
  pub desc : ℕ → K
  pub pc : ℕ → Pc R E

abbrev pub at : {K R E : Type 0} → System K R E → ℕ → Pc R E → System K R E
at s i pc' = record s { pc = update s.pc i pc' }

-- The inner loop up to the wait, under the read lock.
unfoldable pub look : {R E : Type 0} → Option (MaybeInProgress R) → Pc R E
look none = writing
look (some (in_progress g)) = cloned g
look (some (done r)) = returned (ok r)

-- An empty cache, and threads that call for a kernel or do not.
abbrev pub init : {K R E : Type 0} → (ℕ → K) → (ℕ → Bool) → System K R E
init desc called = record {
  cache = λ _. none;
  next_group = 0;
  desc = desc;
  pc = λ i. if called i then reading else idle;
}

-- The map with one entry changed.
abbrev pub put :
    {K A : Type 0} → ((a b : K) → Dec (a ≡ b)) → (K → Option A) → K → Option A → K → Option A
put desc_eq c k e k' = ite (desc_eq k k') e (c k')

module _ {K R E : Type 0} (desc_eq : (a b : K) → Dec (a ≡ b)) where
  -- The match on the entry, under the write lock.
  unfoldable pub claim : System K R E → ℕ → System K R E
  claim s i = elim (s.cache (s.desc i)) [
    | some e ↦ at s i reading
    | none ↦ record {
      cache = put desc_eq s.cache (s.desc i) (some (in_progress s.next_group));
      next_group = s.next_group + 1;
      desc = s.desc;
      pc = update s.pc i compiling;
    }
  ]

  -- The match on the result, under the write lock.
  unfoldable pub store : System K R E → ℕ → Result E R → System K R E
  store s i (err e) = record s {
    cache = put desc_eq s.cache (s.desc i) none;
    pc = update s.pc i (returned (err e));
  }
  store s i (ok r) = elim (s.cache (s.desc i)) [
    | none ↦ at s i unwrapped
    | some _ ↦ record s {
      cache = put desc_eq s.cache (s.desc i) (some (done r));
      pc = update s.pc i (returned (ok r));
    }
  ]

  -- `wait` returns when every other clone of the wait group is gone: the one in the cache, and those
  -- of the threads that have not come to wait yet.
  pub record Released (s : System K R E) (g : ℕ) : Type 0 where
    pub not_cached : (k : K) → s.cache k ≢ some (in_progress g)
    pub not_cloned : (i : ℕ) → s.pc i ≢ cloned g

  -- A step of thread `i`. The compiler may return anything.
  pub data Step (s : System K R E) (i : ℕ) : System K R E → Type 0 where
    read : s.pc i ≡ reading → Step s i (at s i (look (s.cache (s.desc i))))
    begin_wait : (g : ℕ) → s.pc i ≡ cloned g → Step s i (at s i (blocked g))
    wake : (g : ℕ) → s.pc i ≡ blocked g → Released s g → Step s i (at s i reading)
    write : s.pc i ≡ writing → Step s i (claim s i)
    compiled : (r : Result E R) → s.pc i ≡ compiling → Step s i (at s i (storing r))
    unwind : s.pc i ≡ compiling → Step s i (at s i unwound)
    finish : (r : Result E R) → s.pc i ≡ storing r → Step s i (store s i r)

  pub data Reach (s : System K R E) : System K R E → Type 0 where
    initial : Reach s s
    step : {t u : System K R E} {i : ℕ} → Reach s t → Step t i u → Reach s u
