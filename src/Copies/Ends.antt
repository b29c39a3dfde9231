-- ===== src/Copies/Ends.antt =====
-- The copies of a group end, one after the other: what the host waits for.
use geobacter.Prelude.{
  ℕ, ◌+◌, ◌-◌, ◌^◌, ◌≤◌, ◌<◌, ◌≡◌, refl, ap, ◌∙◌, subst, inl, inr, ◌==◌, ==_iff, Bool, true, false,
  if◌then◌else◌, List, ◌∷◌, ◌++◌, arith, usize_mod, wrapping_sub, update-cases, dec_lt,
}
use geobacter.Prelude.Results.{Result, ok, err}
use geobacter.HsaErrors.{HsaError}
use geobacter.Errors.{Error}
use geobacter.Alloc.Heap.{Runtime}
use geobacter.Signal.{Signals, lt_i64}
use geobacter.Signal.Resets.{IsReset, reset_impl_counted}
use geobacter.Copies.{Copy, World, Device}
use geobacter.Copies.Groups.{
  Group, Transfers, Outcome, done, failed, waiting, panicked, asserted, refused, signal_len,
  subtract, prepared, drop_transfers, dropping, unchecked_memcopy, memcopy,
}
use geobacter.Copies.Account.{in_flight, in_flight-append, leaves, leaves_pos, Of, After}
use geobacter.Copies.Counted.{drop_transfers-above, unchecked_memcopy-After}

-- A copy in flight ends: the HSA runtime subtracts one from its completion signal.
pub data Ends (w : World) : World → Type 0 where
  ends :
      (before after : List Copy) (c : Copy)
      → w.pending ≡ before ++ c ∷ after
      → Ends w (record w { signals = subtract w.signals c.completion; pending = before ++ after })

pub data Reach (w : World) : World → Type 0 where
  here : Reach w w
  next : {u v : World} → Reach w u → Ends u v → Reach w v

-- The value of a signal is `k` more than what is in flight.
pub record Above (s k : ℕ) (w : World) : Type 0 where
  pub above : w.signals.value s ≡ in_flight s w.pending + k
  pub small : w.signals.value s < 2 ^ 63

Ends-Above : {s k : ℕ} {w w' : World} → Ends w w' → Above s k w → Above s k w'
unfolding in_flight
Ends-Above {s} {k} {w} (ends before after c e) a =
    elim (update-cases w.signals.value c.completion
      (wrapping_sub usize_mod (w.signals.value c.completion) 1) s) [
        | inl (same, now) ↦
            let hit : ◌≡◌ {A = ℕ} (if c.completion == s then 1 else 0) 1 =
              rw ((==_iff c.completion s).1 same) in
            let now' : (subtract w.signals c.completion).value s ≡ w.signals.value s - 1 =
              now
              ∙ ap (λ t. wrapping_sub usize_mod (w.signals.value t) 1) same
              ∙ omega (arith, a.above, a.small, counts, hit) in
            record {
              above = omega (arith, now', a.above, counts, hit, in_flight-append s before after);
              small = omega (arith, now', a.small);
            }
        | inr (other, now) ↦
            let miss : ◌≡◌ {A = ℕ} (if c.completion == s then 1 else 0) 0 = ground (arith, other) in
            record {
              above = omega (arith, now, a.above, counts, miss, in_flight-append s before after);
              small = omega (arith, now, a.small);
            }
      ]
  where
    counts :
        in_flight s w.pending
        ≡ in_flight s before + ((if c.completion == s then 1 else 0) + in_flight s after)
    counts = ap (in_flight s) e ∙ in_flight-append s before (c ∷ after)

pub Reach-Above : {s k : ℕ} {w w' : World} → Reach w w' → Above s k w → Above s k w'
Reach-Above here a = a
Reach-Above (next r e) a = Ends-Above e (Reach-Above r a)

signal_len-leaves : (g : Group) → leaves g < 2 ^ 63 → signal_len g ≡ leaves g
unfolding signal_len leaves
signal_len-leaves (Group.leaf o deps) h = refl
signal_len-leaves (Group.chain l r) h =
    omega (arith, signal_len-leaves l (omega (arith, h)), signal_len-leaves r (omega (arith, h)), h)

-- Every copy in flight is held by a transfer: its signal has a reference other than `this`.
abbrev pub Tracked : ℕ → World → Type 0
Tracked this w =
    (j : ℕ)
    → 1 ≤ in_flight j w.pending
    → (1 ≤ w.signals.strong j) × (j ≡ this → 2 ≤ w.signals.strong j)

none_in_flight :
    {st : Signals} {this h initial : ℕ} (w : World)
    → Tracked this w
    → IsReset w.signals st this h initial
    → in_flight h w.pending ≡ 0
none_in_flight {st} {this} {h} w track r = elim (dec_lt 0 (in_flight h w.pending)) [
  | yes some_in ↦ elim r.source [
    | inl (same, one) ↦
        absurd (omega (arith, (track h some_in).1 same, one, ap w.signals.strong same))
    | inr free ↦ absurd (omega (arith, (track h some_in).0, free))
  ]
  | no none_in ↦ omega arith
]

module _ (d : Device) (rt : Runtime) (refusal : HsaError)
    (submit : List Copy → Copy → Result HsaError (Unit {0})) where
  module _ (host_consumable : Bool) (create : Signals → Result HsaError ℕ) where
    prepared-done :
        (deps : List ℕ) (g : Group) (w : World) (x : Result HsaError ℕ × Signals) {t : Transfers}
        {w' : World}
        → prepared d rt refusal submit host_consumable create deps g w x ≡ (done t, w')
        → (h : ℕ) × (st : Signals) × (x ≡ (ok h, st))
          × (unchecked_memcopy d rt refusal submit host_consumable deps h g
                (record w { signals = st })
              ≡ (done t, w'))
    prepared-done deps g w (ok h, st) e = (h, st, refl, e)
    prepared-done deps g w (err x, st) {t} {w'} e =
        absurd (cc (ap (λ (z : Outcome Transfers × World). z.0) e))

    -- The copies of a group that were started have one signal. Its value is the number of those that
    -- are in flight, then and after any of them have ended: it is zero when all have, and not before.
    -- The copies that were in flight before are supposed to be held by their transfers, the signals
    -- that the HSA runtime creates by nobody.
    pub memcopy_counts :
        (deps : List ℕ) (this : ℕ) (g : Group) (w : World) {t : Transfers} {w' w'' : World}
        → ((h : ℕ) → create w.signals ≡ ok h → w.signals.strong h ≡ 0)
        → 1 ≤ w.signals.strong this
        → Tracked this w
        → leaves g < 2 ^ 63
        → memcopy d rt refusal submit host_consumable create deps this g w ≡ (done t, w')
        → Reach w' w''
        → (h : ℕ) × Of h t × (w''.signals.value h ≡ in_flight h w''.pending)
    unfolding memcopy
    memcopy_counts deps this g w {t} {w'} {w''} fresh held track few e path =
        let (h, st, reset, copied) = prepared-done deps g w _ e in
        let r = reset_impl_counted create w.signals st this (signal_len g) h fresh held reset in
        let full : st.value h ≡ leaves g = r.set_up ∙ signal_len-leaves g few in
        let after : After h (leaves g) (record w { signals = st }) (done t, w') =
          subst (After h (leaves g) (record w { signals = st })) copied (
            unchecked_memcopy-After d rt refusal submit host_consumable deps h g
              (record w { signals = st }) (omega (arith, full)) (omega (arith, full, few))) in
        let start : Above h 0 w' = record {
          above = omega (arith, after.0.ledger, full, none_in_flight w track r);
          small = omega (arith, after.0.fewer, full, few);
        } in
        (h, after.1, omega (arith, (Reach-Above path start).above))

  -- Where the second half of a group is refused after copies of the first half were started, the call
  -- drops their transfers, whose signal stands for the copies of the second half too. It is above zero
  -- then, and whatever copies end. With a signal that the host can wait for, the drop waits, and the wait
  -- does not end. With a signal for devices only, the drop's assertion fails, now as after any copies.
  pub refused_blocks :
      (host_consumable : Bool) (deps : List ℕ) (s : ℕ) (l r : Group) (w : World) {t : Transfers}
      {e : Error} {w₁ w₂ w' : World}
      → w.signals.value s ≡ in_flight s w.pending + leaves (Group.chain l r)
      → w.signals.value s < 2 ^ 63
      → unchecked_memcopy d rt refusal submit host_consumable deps s l w ≡ (done t, w₁)
      → unchecked_memcopy d rt refusal submit host_consumable deps s r w₁ ≡ (failed e, w₂)
      → Reach w₂ w'
      → (unchecked_memcopy d rt refusal submit host_consumable deps s (Group.chain l r) w
          ≡ (if host_consumable then (waiting e, w₂) else (panicked, w₂)))
        × (lt_i64 (w'.signals.value s) 1 ≡ false)
        × (drop_transfers d rt refusal submit host_consumable t w'
            ≡ (if host_consumable then dropping w' else asserted w'))
  unfolding unchecked_memcopy leaves
  refused_blocks host_consumable deps s l r w {t} {e} {w₁} {w₂} {w'} full high first second path = (
    rw
        (
          unchecked_memcopy,
          first,
          second,
          drop_transfers-above d rt refusal submit host_consumable s t w₂ ofs
              (omega (arith, start.above, leaves_pos r)) start.small,
        )
        (ends_in host_consumable),
    ground (arith, low, late.small),
    drop_transfers-above d rt refusal submit host_consumable s t w' ofs low late.small,
  )
    where
      ends_in :
          (b : Bool)
          → refused d rt refusal submit host_consumable e (if b then dropping w₂ else asserted w₂)
            ≡ (if b then (waiting e, w₂) else (panicked, w₂))
      ends_in true = refl
      ends_in false = refl

      left : After s (leaves l) w (done t, w₁)
      left = subst (After s (leaves l) w) first (
          unchecked_memcopy-After d rt refusal submit host_consumable deps s l w
            (omega (arith, full)) high)

      ofs : Of s t
      ofs = left.1

      right : After s (leaves r) w₁ (failed e, w₂)
      right = subst (After s (leaves r) w₁) second (
          unchecked_memcopy-After d rt refusal submit host_consumable deps s r w₁
            (omega (arith, full, left.0.ledger, left.0.more)) (omega (arith, left.0.fewer, high)))

      start : Above s (leaves r) w₂
      start = record {
        above = omega (
          arith,
          full,
          left.0.ledger,
          ap (λ (z : Signals). z.value s) right.0,
          ap (in_flight s) right.1,
        );
        small = omega (arith, left.0.fewer, high, ap (λ (z : Signals). z.value s) right.0);
      }

      late : Above s (leaves r) w'
      late = Reach-Above path start

      low : 1 ≤ w'.signals.value s
      low = omega (arith, late.above, leaves_pos r)
