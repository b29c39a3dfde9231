-- ===== src/Copies/Account.antt =====
-- Which copies the value of a completion signal stands for.
use geobacter.Prelude.{
  ℕ, ◌+◌, ◌-◌, ◌≤◌, ◌<◌, ◌≡◌, refl, ap, ◌∙◌, ◌==◌, ==_iff, if◌then◌else◌, List, [], ◌∷◌, ◌++◌,
  arith, usize_mod, wrapping_sub, update_self,
}
use geobacter.Signal.{Signals}
use geobacter.Copies.{Copy, World}
use geobacter.Copies.Groups.{
  Group, leaf, chain, Transfers, one, both, Outcome, done, failed, waiting, panicked, subtract,
  retain,
}

-- The copies that signal `s` when they end.
unfoldable pub in_flight : ℕ → List Copy → ℕ
in_flight s [] = 0
in_flight s (c ∷ cs) = (if c.completion == s then 1 else 0) + in_flight s cs

pub in_flight-append :
    (s : ℕ) (cs ds : List Copy) → in_flight s (cs ++ ds) ≡ in_flight s cs + in_flight s ds
unfolding in_flight
in_flight-append s [] ds = omega arith
in_flight-append s (c ∷ cs) ds = omega (arith, in_flight-append s cs ds)

-- The objects of a group.
unfoldable pub leaves : Group → ℕ
leaves (leaf o deps) = 1
leaves (chain l r) = leaves l + leaves r

pub leaves_pos : (g : Group) → 1 ≤ leaves g
unfolding leaves
leaves_pos (leaf o deps) = omega arith
leaves_pos (chain l r) = omega (arith, leaves_pos l, leaves_pos r)

-- All transfers are of one signal.
abbrev pub Of : ℕ → Transfers → Type 0
Of s (one t) = t.signal ≡ s
Of s (both a b) = Of s a × Of s b

-- Of the count of a signal, `n` copies were taken into account: in flight, or subtracted at once.
pub record Account (s n : ℕ) (w w' : World) : Type 0 where
  pub ledger :
      w'.signals.value s + in_flight s w.pending + n ≡ w.signals.value s + in_flight s w'.pending
  pub fewer : w'.signals.value s ≤ w.signals.value s
  pub more : in_flight s w.pending ≤ in_flight s w'.pending

pub Account-trans :
    {s n m : ℕ} {w w' w'' : World} → Account s n w w' → Account s m w' w'' → Account s (n + m) w w''
Account-trans a b = record {
  ledger = omega (arith, a.ledger, b.ledger);
  fewer = omega (arith, a.fewer, b.fewer);
  more = omega (arith, a.more, b.more);
}

-- What a call for `n` objects leaves behind.
abbrev pub After : ℕ → ℕ → World → Outcome Transfers × World → Type 0
After s n w (done t, w') = Account s n w w' × Of s t
After s n w (failed e, w') = (w'.signals ≡ w.signals) × (w'.pending ≡ w.pending)
After s n w (waiting e, w') = (m : ℕ) × (m < n) × Account s m w w'
After s n w (panicked, w') = Unit

pub Account-same :
    {s : ℕ} {w w' : World} → w'.signals ≡ w.signals → w'.pending ≡ w.pending → Account s 0 w w'
Account-same {s} {w} {w'} a b = record {
  ledger = omega (arith, ap (λ (t : Signals). t.value s) a, ap (in_flight s) b);
  fewer = omega (arith, ap (λ (t : Signals). t.value s) a);
  more = omega (arith, ap (in_flight s) b);
}

pub subtract-value :
    (st : Signals) (s : ℕ)
    → 1 ≤ st.value s
    → st.value s < usize_mod
    → (subtract st s).value s ≡ st.value s - 1
subtract-value st s low high =
    update_self st.value s (wrapping_sub usize_mod (st.value s) 1) ∙ omega (arith, low, high)

pub subtracted :
    (s : ℕ) (w : World)
    → 1 ≤ w.signals.value s
    → w.signals.value s < usize_mod
    → Account s 1 w (record w { signals = retain (subtract w.signals s) s })
subtracted s w low high =
    let e = subtract-value w.signals s low high in
    record { ledger = omega (arith, e, low); fewer = omega (arith, e); more = omega arith }

pub added :
    (s : ℕ) (w : World) (c : Copy)
    → c.completion ≡ s
    → Account s 1 w (record w { signals = retain w.signals s; pending = w.pending ++ c ∷ [] })
unfolding in_flight
added s w c e = record {
  ledger = omega (arith, in_flight-append s w.pending (c ∷ []), counts);
  fewer = omega arith;
  more = omega (arith, in_flight-append s w.pending (c ∷ []));
}
  where
    counts : in_flight s (c ∷ []) ≡ 1
    counts = rw ((==_iff c.completion s).1 e, in_flight) refl
