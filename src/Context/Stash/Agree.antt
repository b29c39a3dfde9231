-- ===== src/Context/Stash/Agree.antt =====
-- All threads that fill the cell get the same data.
use geobacter.Prelude.{
  ℕ, ◌≤◌, ◌≡◌, ◌≢◌, refl, sym, ap, ◌∙◌, subst, Bool, true, false, ◌==◌, ==_iff, if◌then◌else◌, some,
  arith,
}
use geobacter.Context.Stash.{
  Pc, first, idle, creating, panicked, faulted, dropping, dropped, looking, loaded, cloned, trying,
  returned, drop_loaded, stale, System, Step, load, clone, use_freed, compare, make, exchange,
  exchange_old, start_drop, end_drop, Reach, initial, step,
}
use geobacter.Context.Stash.Invariant.{mine, Memory, memory, Sound, Kept, Inv}
use geobacter.Context.Stash.Steps.{seen-Inv, clone-Inv, check-Inv, create-Inv, fill-Inv}

Step-Inv : {k : ℕ} {s : System} {i : ℕ} {t : System} → Step s i t → Inv k s → Inv k t
Step-Inv {k} {s} {i} {t} (load why e) inv =
    seen-Inv i inv why s.cell refl (subst (Sound k (memory s)) e (inv.sound i)) e
Step-Inv {i = i} (clone why p e held) inv = clone-Inv i inv why p e
Step-Inv {k} {s} {i} {t} (use_freed why p e gone) inv =
    let here = subst (Sound k (memory s)) e (inv.sound i) in
    let held = inv.kept.counted (λ z. here.2 (sym here.1 ∙ z)) in
    absurd (omega (arith, held.0, gone, ap s.strong here.1))
Step-Inv {i = i} (compare why p e) inv = check-Inv i inv why p e
Step-Inv {i = i} (make e) inv = create-Inv i inv e
Step-Inv {i = i} (exchange n e) inv = fill-Inv i inv n e
Step-Inv {k} {s} {i} {t} (exchange_old n a e) inv =
    absurd (subst (Sound k (memory s)) e (inv.sound i))
Step-Inv {k} {s} {i} {t} (start_drop e) inv = absurd (subst (Sound k (memory s)) e (inv.sound i))
Step-Inv {k} {s} {i} {t} (end_drop p e) inv = absurd (subst (Sound k (memory s)) e (inv.sound i))

Reach-Inv : {k : ℕ} {s t : System} → Inv k s → Reach s t → Inv k t
Reach-Inv inv initial = inv
Reach-Inv inv (step path st) = Step-Inv st (Reach-Inv inv path)

-- An empty cell, with threads of one context that fill the cell or do nothing.
abbrev pub start : (k : ℕ) (called : ℕ → Bool) → System
start k called = record {
  cell = 0;
  strong = λ p. 0;
  owner = λ p. 0;
  fresh = 1;
  live = λ c. c == k;
  ctxt = λ i. k;
  pc = λ i. if called i then looking first else idle;
}

start-Inv : (k : ℕ) (called : ℕ → Bool) → Inv k (start k called)
start-Inv k called = record {
  alive = (==_iff k k).1 refl;
  same = λ i. refl;
  kept = record { counted = λ z. absurd (z refl); older = omega arith };
  sound = λ i. sound (called i);
  unique = λ i j n e f. absurd (owns (called i) n e);
}
  where
    sound : (b : Bool) → Sound k (memory (start k called)) (if b then looking first else idle)
    sound true = tt
    sound false = tt

    owns : (b : Bool) (n : ℕ) → mine (if b then looking first else idle) ≢ some n
    owns true n e = cc e
    owns false n e = cc e

-- What a call can have come to: it is under way, or has returned what is in the cell, which has a
-- reference left. It has not used freed data, and no assertion of it has failed.
abbrev pub Fine : (cell : ℕ) (strong : ℕ → ℕ) → Pc → Type 0
Fine cell strong (returned p) = (cell ≡ p) × (1 ≤ strong p)
Fine cell strong faulted = ⊥
Fine cell strong panicked = ⊥
Fine cell strong _ = Unit

Sound-Fine : {k : ℕ} {m : Memory} (p : Pc) → Kept k m → Sound k m p → Fine m.cell m.strong p
Sound-Fine {m = m} (returned p) kept h =
    (h.0, subst (λ t. 1 ≤ m.strong t) h.0 (kept.counted (λ z. h.1 (sym h.0 ∙ z))).0)
Sound-Fine panicked kept h = h
Sound-Fine faulted kept h = h
Sound-Fine idle kept h = tt
Sound-Fine creating kept h = tt
Sound-Fine (looking why) kept h = tt
Sound-Fine (loaded why p) kept h = tt
Sound-Fine (cloned why p) kept h = tt
Sound-Fine (trying n) kept h = tt
Sound-Fine dropping kept h = tt
Sound-Fine dropped kept h = tt
Sound-Fine (drop_loaded p) kept h = tt
Sound-Fine (stale n a) kept h = tt

-- In every state that threads come to, whatever the order of their steps, no thread has used freed data
-- and no assertion has failed, and a call that has returned got what is in the cell, so all returned
-- calls got the same; the cell's reference to it is still counted. All threads have one context, which
-- is alive, and none clears the cell.
pub one_stash :
    (k : ℕ) (called : ℕ → Bool) {s : System} (l : ℕ)
    → Reach (start k called) s
    → Fine s.cell s.strong (s.pc l)
one_stash k called {s} l path =
    let inv = Reach-Inv (start-Inv k called) path in Sound-Fine (s.pc l) inv.kept (inv.sound l)
