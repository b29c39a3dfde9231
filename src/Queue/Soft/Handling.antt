-- ===== src/Queue/Soft/Handling.antt =====
-- The host's reader takes the packets of the ring in order.
use native.Mathlib.Nat.{add-mod_right}
use geobacter.Prelude.{
  ℕ, suc, ◌+◌, ◌%◌, ◌^◌, ◌≤◌, ◌<◌, ◌≡◌, refl, sym, ap, ◌∙◌, true, false, Option, some, List, [],
  ◌∷◌, map, arith, usize_mod, wrapping_add, length, set, le→leb, length-set,
}
use geobacter.Queue.Abi.{HsaAbi}
use geobacter.Queue.Ring.{Ring}
use geobacter.Queue.Ring.Enqueue.{IsRing, packet_index-eq}
use geobacter.Queue.Ring.Fifo.{slot, window, window-write}
use geobacter.Queue.Soft.{
  AgentDispatch, ProcessLoopResult, exit, continue, Reader, Outcome, at_or_past, notify, invalidate,
  serve, process, Handled, handle,
}

-- The ring shows the reader these packets, and the doorbell has the index of the last one.
pub record Shows (ps : List AgentDispatch) (q : Ring AgentDispatch) : Type 0 where
  pub ring : IsRing q
  pub shown : window q.packets q.size q.read_index (length ps) ≡ map some ps
  pub rung : q.read_index + length ps ≡ q.doorbell + 1
  pub written : q.doorbell < q.write_index
  pub fits : length ps ≤ q.size
  pub small : q.doorbell + 1 < 2 ^ 63

window-served :
    (ps : List AgentDispatch) (m r n : ℕ) (p : AgentDispatch)
    → n < m
    → window (set ps (r % m) p) m (r + 1) n ≡ window ps m (r + 1) n
window-served ps m r n p h =
    ap (λ t. window (set ps t p) m (r + 1) n) (sym (add-mod_right r m))
    ∙ window-write ps m (r + m) (r + 1) n p (omega arith) (omega arith)

rings : (i bell : ℕ) → i ≤ bell → bell + 1 < 2 ^ 63 → at_or_past i bell ≡ true
rings i bell h small = le→leb _ _ (omega arith)

waits : (bell : ℕ) → bell + 1 < 2 ^ 63 → at_or_past (bell + 1) bell ≡ false
waits bell small = ground arith

module _ {C V : Type 0} (c : HsaAbi) (f : C → AgentDispatch → C × ProcessLoopResult V) where
  -- The reader after a turn with the packet.
  abbrev served : AgentDispatch → Reader C → Reader C
  served p r = record {
    ring = record r.ring {
      packets = set r.ring.packets (r.ring.read_index % r.ring.size) (invalidate c p);
      read_index = r.ring.read_index + 1;
    };
    client = (f r.client p).0;
    subtracted = notify p.completion_signal r.subtracted;
  }

  serve-Shows :
      {p : AgentDispatch} {ps : List AgentDispatch} (r : Reader C)
      → Shows (p ∷ ps) r.ring
      → serve c f r ≡ some ((f r.client p).1, served p r)
  unfolding serve
  serve-Shows {p} {ps} r s =
      rw
        (
          serve,
          packet_index-eq s.ring r.ring.read_index,
          found,
          next,
          packet_index-eq s.ring r.ring.read_index,
        )
        refl
    where
      found : slot r.ring.packets r.ring.size r.ring.read_index ≡ some p
      found = cc (s.shown)

      next : wrapping_add usize_mod r.ring.read_index 1 ≡ r.ring.read_index + 1
      next = omega (arith, s.ring.no_wrap, s.ring.ordered)

  served-Shows :
      {p : AgentDispatch} {ps : List AgentDispatch} (r : Reader C)
      → Shows (p ∷ ps) r.ring
      → Shows ps (served p r).ring
  served-Shows {p} {ps} r s = record {
    ring = record {
      log = s.ring.log;
      log_lt = s.ring.log_lt;
      size_eq = s.ring.size_eq;
      slots =
          length-set r.ring.packets (r.ring.read_index % r.ring.size) (invalidate c p)
          ∙ s.ring.slots;
      ordered = omega (arith, s.rung, s.written);
      no_wrap = s.ring.no_wrap;
    };
    shown =
        window-served r.ring.packets r.ring.size r.ring.read_index (length ps) (invalidate c p)
          (omega (arith, s.fits))
        ∙ cc (s.shown);
    rung = omega (arith, s.rung);
    written = s.written;
    fits = omega (arith, s.fits);
    small = s.small;
  }

  -- The reader ended with this, and what was not handled is still before it.
  pub record Handles (want : Handled c f) (out : Option (Outcome V × Reader C)) : Type 0 where
    pub reader : Reader C
    pub result : out ≡ some (want.outcome, reader)
    pub client_eq : reader.client ≡ want.client
    pub subtracted_eq : reader.subtracted ≡ want.subtracted
    pub left : Shows want.rest reader.ring

  -- With packets before it up to the one that the doorbell tells of, whose index is an `i64`, the
  -- loop calls the closure with each of them in order and subtracts from their signals, until the
  -- closure asks for the exit or there is none left, where it waits. What it did not handle is still
  -- before it. It takes at most one turn more than there are packets.
  pub process-handle :
      (ps : List AgentDispatch) (r : Reader C)
      → Shows ps r.ring
      → Handles (handle c f ps r.client r.subtracted) (process c f (suc (length ps)) r)
  unfolding process handle
  process-handle [] r s = record {
    reader = r;
    result =
        rw
          (
            process,
            ap (λ t. at_or_past t r.ring.doorbell) {x = r.ring.read_index} {y = r.ring.doorbell + 1}
                (omega (arith, s.rung)),
            waits r.ring.doorbell s.small,
          )
          refl;
    client_eq = refl;
    subtracted_eq = refl;
    left = s;
  }
  process-handle (p ∷ ps) r s =
      split (process-handle ps (served p r) (served-Shows r s)) (f r.client p).1 refl
    where
      rung : at_or_past r.ring.read_index r.ring.doorbell ≡ true
      rung = rings r.ring.read_index r.ring.doorbell (omega (arith, s.rung)) s.small

      split :
          Handles
            (handle c f ps (served p r).client (served p r).subtracted)
            (process c f (suc (length ps)) (served p r))
          → (ret : ProcessLoopResult V) → (f r.client p).1 ≡ ret
          → Handles
              (handle c f (p ∷ ps) r.client r.subtracted)
              (process c f (suc (suc (length ps))) r)
      split later (exit v) e =
          rw (process, handle, rung, serve-Shows r s, e)
            (record {
              reader = served p r;
              result = refl;
              client_eq = refl;
              subtracted_eq = refl;
              left = served-Shows r s;
            })
      split later continue e = rw (process, handle, rung, serve-Shows r s, e) later
