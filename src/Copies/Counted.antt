-- ===== src/Copies/Counted.antt =====
-- The completion signal of a group counts its copies.
use geobacter.Prelude.{
  ℕ, ◌+◌, ◌^◌, ◌≤◌, ◌<◌, ◌≡◌, refl, ap, subst, ◌==◌, Bool, true, false, if◌then◌else◌, Option, none,
  some, List, ◌++◌, arith, usize_mod,
}
use geobacter.Prelude.Results.{Result, ok, err}
use geobacter.HsaErrors.{HsaError}
use geobacter.Errors.{Stop, Error}
use geobacter.Errors
use geobacter.Alloc.Heap.{Heap, Runtime}
use geobacter.Signal.{Signals, lt_i64}
use geobacter.Copies.{PoolPtr, Object, pool_ptr, raw_pool_ptr, Copy, World, Device, alloc_for_dev}
use geobacter.Copies.Groups.{
  Group, leaf, chain, Transfers, one, both, Outcome, done, failed, waiting, panicked, Dropped,
  dropped, dropping, asserted, unchecked_async_copy_into, unchecked_memcopy_with_signal,
  drop_transfer, drop_transfers, unchecked_memcopy, transferred, submitted, joined, refused,
  and_then, copied,
}
use geobacter.Copies.Account.{
  leaves, leaves_pos, Of, Account, Account-trans, Account-same, After, subtracted, added,
}

module _ (d : Device) (rt : Runtime) (refusal : HsaError)
    (submit : List Copy → Copy → Result HsaError (Unit {0})) (host_consumable : Bool) where
  submitted-After :
      (s : ℕ) (b : PoolPtr) (w : World) (c : Copy) (r : Result HsaError (Unit {0}))
      → c.completion ≡ s
      → After s 1 w (
          transferred d rt refusal submit host_consumable b s
            (submitted d rt refusal submit host_consumable w c r))
  submitted-After s b w c (ok _) e = (added s w c e, refl)
  submitted-After s b w c (err x) e = (refl, refl)

  into-After :
      (from into : Option PoolPtr) (deps : List ℕ) (s : ℕ) (b : PoolPtr) (w : World)
      → 1 ≤ w.signals.value s
      → w.signals.value s < usize_mod
      → After s 1 w (
          transferred d rt refusal submit host_consumable b s
            (unchecked_async_copy_into d rt refusal submit host_consumable from into deps s w))
  unfolding unchecked_async_copy_into
  into-After none into deps s b w low high = (subtracted s w low high, refl)
  into-After (some from) none deps s b w low high = (subtracted s w low high, refl)
  into-After (some from) (some into) deps s b w low high =
      submitted-After s b w _ (submit w.pending _) refl

  copied-After :
      (o : Object) (deps : List ℕ) (s : ℕ) (w : World) (r : Result Stop PoolPtr × Heap)
      → 1 ≤ w.signals.value s
      → w.signals.value s < usize_mod
      → After s 1 w (copied d rt refusal submit host_consumable o deps s w r)
  copied-After o deps s w (ok b, h) low high =
      heap-After _
        (into-After (pool_ptr o) (raw_pool_ptr b) deps s b (record w { heap = h }) low high)
    where
      heap-After :
          (x : Outcome Transfers × World) → After s 1 (record w { heap = h }) x → After s 1 w x
      heap-After (done t, w') a =
          (record { ledger = a.0.ledger; fewer = a.0.fewer; more = a.0.more }, a.1)
      heap-After (failed e, w') a = a
      heap-After (waiting e, w') (m, low, a) =
          (m, low, record { ledger = a.ledger; fewer = a.fewer; more = a.more })
      heap-After (panicked, w') a = tt
  copied-After o deps s w (err (Errors.failed e), h) low high = (refl, refl)
  copied-After o deps s w (err Errors.panic, h) low high = tt

  pub drop_transfers-above :
      (s : ℕ) (t : Transfers) (w : World)
      → Of s t
      → 1 ≤ w.signals.value s
      → w.signals.value s < 2 ^ 63
      → drop_transfers d rt refusal submit host_consumable t w
        ≡ (if host_consumable then dropping w else asserted w)
  unfolding drop_transfers drop_transfer
  drop_transfers-above s (one t) w e low high =
      rw (drop_transfer, ap w.signals.value e, above, positive) refl
    where
      above : (w.signals.value s == 0) ≡ false
      above = ground arith

      positive : lt_i64 (w.signals.value s) 1 ≡ false
      positive = ground arith
  drop_transfers-above s (both a b) w (ea, eb) low high =
      rw (drop_transfers, drop_transfers-above s a w ea low high) (stops host_consumable)
    where
      stops :
          (h : Bool)
          → elim (if h then dropping w else asserted w) as (λ _. Dropped) [
            | dropped w' ↦ drop_transfers d rt refusal submit host_consumable b w'
            | dropping w' ↦ dropping w'
            | asserted w' ↦ asserted w'
          ]
            ≡ (if h then dropping w else asserted w)
      stops true = refl
      stops false = refl

  and_then-After :
      (s n m : ℕ) (w : World) (x : Outcome Transfers × World)
      (rest : Transfers → World → Outcome Transfers × World)
      → After s n w x
      → ((t : Transfers) (w' : World) → Account s n w w' → Of s t → After s (n + m) w (rest t w'))
      → After s (n + m) w (and_then d rt refusal submit host_consumable x rest)
  and_then-After s n m w (done t, w') rest a k = k t w' a.0 a.1
  and_then-After s n m w (failed e, w') rest a k = a
  and_then-After s n m w (waiting e, w') rest (i, low, a) k = (i, omega arith, a)
  and_then-After s n m w (panicked, w') rest a k = tt

  joined-After :
      (s n m : ℕ) (w w' : World) (t : Transfers) (x : Outcome Transfers × World)
      → Account s n w w'
      → Of s t
      → 1 ≤ m
      → 1 ≤ w'.signals.value s
      → w'.signals.value s < 2 ^ 63
      → After s m w' x
      → After s (n + m) w (joined d rt refusal submit host_consumable t x)
  joined-After s n m w w' t (done u, w'') a e pos low high (b, f) = (Account-trans a b, (e, f))
  joined-After s n m w w' t (failed x, w'') a e pos low high (b, f) =
      rw (drop_transfers-above s t w'' e (omega (arith, low, same)) (omega (arith, high, same)))
        (kept host_consumable)
    where
      same : w''.signals.value s ≡ w'.signals.value s
      same = ap (λ (z : Signals). z.value s) b

      here : Account s n w w''
      here =
          subst (λ i. Account s i w w'') (omega arith) (Account-trans a (Account-same {s = s} b f))

      kept :
          (h : Bool)
          → After s (n + m) w (
              refused d rt refusal submit host_consumable x
                (if h then dropping w'' else asserted w''))
      kept true = (n, omega (arith, pos), here)
      kept false = tt
  joined-After s n m w w' t (waiting x, w'') a e pos low high (i, below, b) =
      (n + i, omega arith, Account-trans a b)
  joined-After s n m w w' t (panicked, w'') a e pos low high b = tt

  -- A call for a group, on every outcome: the count of its signal, and what is in flight.
  pub unchecked_memcopy-After :
      (deps : List ℕ) (s : ℕ) (g : Group) (w : World)
      → leaves g ≤ w.signals.value s
      → w.signals.value s < 2 ^ 63
      → After s (leaves g) w (unchecked_memcopy d rt refusal submit host_consumable deps s g w)
  unfolding unchecked_memcopy leaves unchecked_memcopy_with_signal
  unchecked_memcopy-After deps s (leaf o own) w low high =
      copied-After o (deps ++ own) s w (alloc_for_dev d rt refusal o w.heap) low (omega arith)
  unchecked_memcopy-After deps s (chain l r) w low high =
      and_then-After s (leaves l) (leaves r) w _ _
        (unchecked_memcopy-After deps s l w (omega arith) high)
        (second (unchecked_memcopy-After deps s r))
    where
      second :
          ((w' : World)
            → leaves r ≤ w'.signals.value s
            → w'.signals.value s < 2 ^ 63
            → After s
                (leaves r)
                w'
                (unchecked_memcopy d rt refusal submit host_consumable deps s r w'))
          → (t : Transfers) (w' : World) → Account s (leaves l) w w'
          → Of s t
          → After s (leaves l + leaves r) w (
              joined d rt refusal submit host_consumable t
                (unchecked_memcopy d rt refusal submit host_consumable deps s r w'))
      second later t w' a e =
          let room : leaves r ≤ w'.signals.value s = omega (arith, a.ledger, a.more, low) in
          joined-After s (leaves l) (leaves r) w w' t _ a e (leaves_pos r)
            (omega (arith, room, leaves_pos r)) (omega (arith, a.fewer, high))
            (later w' room (omega (arith, a.fewer, high)))
