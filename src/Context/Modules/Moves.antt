-- ===== src/Context/Modules/Moves.antt =====
-- Some thread can go on while any has not come to its end.
use geobacter.Prelude.{ℕ, ◌≡◌, refl, sym, ◌∙◌, Bool}
use geobacter.Context.Modules.{
  Lock, free, upgradable, writer, Pc, idle, reading, locking, checking, compiling, upgrading,
  loading, failed, panicked, returned, System, Step, read, lock, look_again, compiled, upgraded,
  loaded, Reach,
}
use geobacter.Context.Modules.Invariant.{Works, Loads, Owned}
use geobacter.Context.Modules.Once.{start, start-Inv, Reach-Inv}

-- A thread that calls nothing, or that has come to the end of its call.
abbrev pub Over : Pc → Type 0
Over idle = Unit
Over failed = Unit
Over panicked = Unit
Over (returned m) = Unit
Over _ = ⊥

abbrev Moves : System → Type 0
Moves s = (j : ℕ) × (t : System) × Step s j t

module _ (s : System) (j : ℕ) where
  worker : (p : Pc) → s.pc j ≡ p → Works p → Moves s
  worker checking e w = (j, _, look_again e)
  worker compiling e w = (j, _, compiled e)
  worker upgrading e w = (j, _, upgraded e)
  worker idle e w = absurd w
  worker reading e w = absurd w
  worker locking e w = absurd w
  worker loading e w = absurd w
  worker failed e w = absurd w
  worker panicked e w = absurd w
  worker (returned m) e w = absurd w

  loader : (p : Pc) → s.pc j ≡ p → Loads p → Moves s
  loader loading e w = (j, _, loaded e)
  loader checking e w = absurd w
  loader compiling e w = absurd w
  loader upgrading e w = absurd w
  loader idle e w = absurd w
  loader reading e w = absurd w
  loader locking e w = absurd w
  loader failed e w = absurd w
  loader panicked e w = absurd w
  loader (returned m) e w = absurd w

  caller : (p : Pc) → s.pc j ≡ p → ¬ Over p → s.lock ≡ free → Moves s
  caller reading e w h = (j, _, read e (λ l z. absurd (cc (sym h ∙ z))))
  caller locking e w h = (j, _, lock e h)
  caller checking e w h = worker checking e tt
  caller compiling e w h = worker compiling e tt
  caller upgrading e w h = worker upgrading e tt
  caller loading e w h = loader loading e tt
  caller idle e w h = absurd (w tt)
  caller failed e w h = absurd (w tt)
  caller panicked e w h = absurd (w tt)
  caller (returned m) e w h = absurd (w tt)

moves : (s : System) (i : ℕ) (l : Lock) → s.lock ≡ l → Owned l s.pc → ¬ Over (s.pc i) → Moves s
moves s i free e owned h = caller s i (s.pc i) refl h e
moves s i (upgradable j) e owned h = worker s j (s.pc j) refl owned
moves s i (writer j) e owned h = loader s j (s.pc j) refl owned

-- Threads that compile modules do not stop each other for good: while a call has not come to its end,
-- some thread can take a step, if only that the compiler or the loader returns to it.
pub no_standstill :
    (kind accel params : ℕ → ℕ) (expect called : ℕ → Bool) {s : System} (i : ℕ)
    → Reach (start kind accel params expect called) s
    → ¬ Over (s.pc i)
    → (j : ℕ) × (t : System) × Step s j t
no_standstill kind accel params expect called {s} i path h =
    moves s i s.lock refl (Reach-Inv (start-Inv kind accel params expect called) path).owned h
