-- ===== src/Queue/Soft/Tests.antt =====
-- A reader of four slots that counts the packets, and is told to stop by the one that returns to 0.
use geobacter.Prelude.{ℕ, zero, suc, ◌+◌, ◌≡◌, refl, List, [], ◌∷◌, arith}
use geobacter.Queue.Abi.{HsaAbi}
use geobacter.Queue.Soft.{
  AgentDispatch, ProcessLoopResult, exit, continue, Reader, exited, process, handle,
}
use geobacter.Queue.Soft.Handling.{Shows, Handles, process-handle}

abbrev codes : HsaAbi
codes = record {
  packet_type_invalid = 1;
  packet_type_kernel_dispatch = 2;
  packet_type_barrier_and = 3;
  packet_type_barrier_or = 5;
  packet_header_type = 0;
  packet_header_barrier = 8;
  packet_header_scacquire_fence_scope = 9;
  packet_header_screlease_fence_scope = 11;
  fence_scope_none = 0;
  fence_scope_agent = 1;
  fence_scope_system = 2;
  setup_dimensions = 0;
  dep_signals = 5;
}

abbrev packet : ℕ → ℕ → AgentDispatch
packet addr s = record {
  header = 4;
  type = 9;
  return_address = addr;
  arg = [];
  completion_signal = s;
}

-- The second and the third packet from index 5 on are new.
abbrev reader : Reader ℕ
reader = record {
  ring = record {
    size = 4;
    packets = packet 8 73 ∷ packet 8 70 ∷ packet 0 71 ∷ packet 8 72 ∷ [];
    write_index = 8;
    read_index = 5;
    doorbell = 7;
  };
  client = 0;
  subtracted = [];
}

abbrev count : ℕ → AgentDispatch → ℕ × ProcessLoopResult ℕ
count n p = elim p.return_address [ zero ↦ (n + 1, exit n) | suc addr ↦ (n + 1, continue) ]

abbrev shown : List AgentDispatch
shown = packet 8 70 ∷ packet 0 71 ∷ packet 8 72 ∷ []

reader-Shows : Shows shown reader.ring
reader-Shows = record {
  ring = record {
    log = 2;
    log_lt = omega arith;
    size_eq = refl;
    slots = refl;
    ordered = omega arith;
    no_wrap = omega arith;
  };
  shown = refl;
  rung = refl;
  written = omega arith;
  fits = omega arith;
  small = omega arith;
}

process-handle_example :
    Handles codes count (handle codes count shown 0 []) (process codes count 4 reader)
process-handle_example = process-handle codes count shown reader reader-Shows

handled_one : (handle codes count shown 0 []).outcome ≡ exited 1
unfolding handle
handled_one = refl

handled_rest : (handle codes count shown 0 []).rest ≡ packet 8 72 ∷ []
unfolding handle
handled_rest = refl
