-- ===== src/Queue/Ring/Tests.antt =====
-- A ring of four slots whose indices have gone round once.
use geobacter.Prelude.{ℕ, ◌+◌, ◌≡◌, refl, false, none, some, [], ◌∷◌, ◌++◌, arith, length}
use geobacter.Prelude.Results.{ok}
use geobacter.Queue.Abi.{FenceScope, HsaAbi, IsHsaAbi}
use geobacter.Queue.Header.{header}
use geobacter.Queue.Dispatch.{unset, Slot, DispatchPacket}
use geobacter.Queue.Ring.{Ring, try_enqueue_packet, try_enqueue_barrier_and}
use geobacter.Queue.Ring.Enqueue.{IsRing}
use geobacter.Queue.Ring.Fifo.{
  slot, contents, enqueue_fifo, advance_fifo, try_times, refused_packets_stay,
}
use geobacter.Queue.Ring.Packets.{BarrierWritten, try_enqueue_barrier_and_lem}

abbrev hsa_h : HsaAbi
hsa_h = record {
  packet_type_invalid = 1;
  packet_type_kernel_dispatch = 2;
  packet_type_barrier_and = 3;
  packet_type_barrier_or = 5;
  packet_header_type = 0;
  packet_header_barrier = 8;
  packet_header_scacquire_fence_scope = 9;
  packet_header_screlease_fence_scope = 11;
  fence_scope_none = 0;
  fence_scope_agent = 1;
  fence_scope_system = 2;
  setup_dimensions = 0;
  dep_signals = 5;
}

hsa_h-IsHsaAbi : IsHsaAbi hsa_h
hsa_h-IsHsaAbi = omega arith

dispatch_header : header hsa_h 2 FenceScope.system FenceScope.agent false ≡ 0x0c02
unfolding header
dispatch_header = refl

abbrev blank : ℕ → Slot
blank s = record { header = 1; setup = 0; body = unset; completion_signal = s }

abbrev ring : Ring Slot
ring = record {
  size = 4;
  packets = blank 70 ∷ blank 71 ∷ blank 72 ∷ blank 73 ∷ [];
  write_index = 6;
  read_index = 5;
  doorbell = 5;
}

abbrev crowded : Ring Slot
crowded = record ring { write_index = 9; doorbell = 8 }

ring-IsRing : IsRing ring
ring-IsRing = record {
  log = 2;
  log_lt = omega arith;
  size_eq = refl;
  slots = refl;
  ordered = omega arith;
  no_wrap = omega arith;
}

crowded-IsRing : IsRing crowded
crowded-IsRing = record {
  log = 2;
  log_lt = omega arith;
  size_eq = refl;
  slots = refl;
  ordered = omega arith;
  no_wrap = omega arith;
}

abbrev kernel : DispatchPacket
kernel = record {
  workgroup_size = (64, 1, 1);
  grid_size = (1024, 16, 1);
  private_segment_size = 0;
  group_segment_size = 0;
  ordered = false;
  scaquire_scope = FenceScope.system;
  screlease_scope = FenceScope.system;
  kernel_object = 0x1000;
  kernel_args = 0x2000;
  completion_signal = some 99;
}

enqueue_fifo_example :
    (old : Slot) × (q' : Ring Slot) × (slot ring.packets 4 6 ≡ some old)
    × (try_enqueue_packet ring (λ p. (record p { header = 2 }, tt {0})) ≡ some (ok tt, q'))
    × (contents q' ≡ contents ring ++ some (record old { header = 2 }) ∷ [])
    × (q'.doorbell ≡ 6)
    × IsRing q'
enqueue_fifo_example =
    enqueue_fifo ring (λ p. (record p { header = 2 }, tt {0})) ring-IsRing (omega arith)
      (omega arith)

advance_fifo_example :
    contents ring ≡ slot ring.packets 4 5 ∷ contents (record ring { read_index = 5 + 1 })
advance_fifo_example = advance_fifo ring (omega arith)

refused_packets_stay_example :
    (q' : Ring Slot) × (try_times 3 crowded (λ p. (p, tt {0})) ≡ some q')
    × (q'.packets ≡ crowded.packets)
    × (q'.read_index ≡ 5)
    × (length (contents q') ≡ length (contents crowded) + 3)
refused_packets_stay_example =
    refused_packets_stay 3 crowded (λ p. (p, tt {0})) crowded-IsRing (omega arith) (omega arith)

-- Six signals, no completion signal: the slot keeps signal 72.
try_enqueue_barrier_and_example :
    (old p : Slot) × (q' : Ring Slot) × (slot ring.packets 4 6 ≡ some old)
    × (try_enqueue_barrier_and hsa_h ring (1 ∷ 2 ∷ 3 ∷ 4 ∷ 5 ∷ 6 ∷ []) none
        ≡ some (ok (6 ∷ []), q'))
    × (contents q' ≡ contents ring ++ some p ∷ [])
    × BarrierWritten 3 (1 ∷ 2 ∷ 3 ∷ 4 ∷ 5 ∷ 6 ∷ []) none old p
try_enqueue_barrier_and_example =
    try_enqueue_barrier_and_lem hsa_h ring (1 ∷ 2 ∷ 3 ∷ 4 ∷ 5 ∷ 6 ∷ []) none hsa_h-IsHsaAbi
      ring-IsRing (omega arith) (omega arith)
