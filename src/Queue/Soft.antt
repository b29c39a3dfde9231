-- ===== src/Queue/Soft.antt =====
-- `SoftQueue::process` of hsa-rt/src/queue.rs: a reader of a ring on the host, which calls a closure
-- with each packet.
pub mod Handling
mod Tests
use geobacter.Prelude.{
  ℕ, zero, suc, ◌/◌, ◌%◌, ◌^◌, Bool, true, false, Option, none, some, List, [], ◌∷◌, bit_and, leb,
  usize_mod, wrapping_add, wrapping_sub, get_elem?, set,
}
use geobacter.Queue.Abi.{FenceScope, HsaAbi}
use geobacter.Queue.Header.{header, store_word}
use geobacter.Queue.Ring.{Ring}

-- `hsa_agent_dispatch_packet_t`.
pub record AgentDispatch : Type 0 where
  pub header : ℕ
  pub type : ℕ
  pub return_address : ℕ
  pub arg : List ℕ
  pub completion_signal : ℕ

pub data ProcessLoopResult (V : Type 0) : Type 0 where
  exit : V → ProcessLoopResult V
  continue : ProcessLoopResult V

-- The ring, what the closure keeps, and the signals that `subtract_screlease(1)` was called on, the
-- last one first.
pub record Reader (C : Type 0) : Type 0 where
  pub ring : Ring AgentDispatch
  pub client : C
  pub subtracted : List ℕ

-- Where the loop stands after some turns: it waits for the doorbell, it has returned, or it goes on.
pub data Outcome (V : Type 0) : Type 0 where
  waiting running : Outcome V
  exited : V → Outcome V

-- The comparison of two `i64`.
abbrev pub at_or_past : ℕ → ℕ → Bool
at_or_past read bell =
    leb (wrapping_add usize_mod read (2 ^ 63)) (wrapping_add usize_mod bell (2 ^ 63))

-- The null signal is not subtracted from.
unfoldable pub notify : ℕ → List ℕ → List ℕ
notify zero log = log
notify (suc s) log = suc s ∷ log

-- `packet_store_rel` over the header and the type.
unfoldable pub invalidate : HsaAbi → AgentDispatch → AgentDispatch
unfolding store_word
invalidate c p =
    let h = header c c.packet_type_invalid FenceScope.system FenceScope.system false in
    record p { header = store_word h p.type % 2 ^ 16; type = store_word h p.type / 2 ^ 16 }

module _ {C V : Type 0} (c : HsaAbi) (f : C → AgentDispatch → C × ProcessLoopResult V) where
  -- One turn behind the wait; `none` is the panic of an index out of bounds.
  unfoldable pub serve : Reader C → Option (ProcessLoopResult V × Reader C)
  unfolding notify invalidate
  serve r =
      let q = r.ring in
      let packet_index = bit_and q.read_index (wrapping_sub usize_mod q.size 1) in
      elim (get_elem? q.packets packet_index) [
        | none ↦ none
        | some p ↦
            let (client, ret) = f r.client p in
            some (
              ret,
              record {
                ring = record q {
                  packets = set q.packets packet_index (invalidate c p);
                  read_index = wrapping_add usize_mod q.read_index 1;
                };
                client = client;
                subtracted = notify p.completion_signal r.subtracted;
              },
            )
      ]

  -- At most `n` turns of the loop, as long as nobody else writes.
  unfoldable pub process : ℕ → Reader C → Option (Outcome V × Reader C)
  unfolding serve
  process zero r = some (running, r)
  process (suc n) r = elim (at_or_past r.ring.read_index r.ring.doorbell) [
    | false ↦ some (waiting, r)
    | true ↦ elim (serve r) [
      | none ↦ none
      | some (exit v, r') ↦ some (exited v, r')
      | some (continue, r') ↦ process n r'
    ]
  ]

  -- What a queue of packets should come to: the closure sees them in order until it asks for the
  -- exit, each one's signal is subtracted from, and the rest stays.
  pub record Handled : Type 0 where
    pub outcome : Outcome V
    pub client : C
    pub subtracted : List ℕ
    pub rest : List AgentDispatch

  unfoldable pub handle : List AgentDispatch → C → List ℕ → Handled
  unfolding notify
  handle [] s log = record { outcome = waiting; client = s; subtracted = log; rest = [] }
  handle (p ∷ ps) s log =
      let log' = notify p.completion_signal log in
      let (s', ret) = f s p in
      elim ret [
        | exit v ↦ record { outcome = exited v; client = s'; subtracted = log'; rest = ps }
        | continue ↦ handle ps s' log'
      ]
