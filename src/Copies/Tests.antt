-- ===== src/Copies/Tests.antt =====
-- Copies of a vector of four words and of a box without bytes, to a device that takes one copy at a
-- time.
use geobacter.Prelude.{
  ℕ, ◌+◌, ◌*◌, ◌≡◌, ◌<◌, ◌^◌, subst, refl, true, false, some, List, [], ◌∷◌, length, arith, update,
  ℕ_discrete,
}
use geobacter.Prelude.Results.{Result, ok, err, ok-injective}
use geobacter.HsaErrors.{HsaError, general, out_of_resources}
use geobacter.Errors.{hsa, from_hsa_error}
use geobacter.Layout.{Layout, padding_needed_for, round_up}
use geobacter.Alloc.Heap.{Runtime}
use geobacter.Alloc.Pool
use geobacter.Signal.{Signals, lt_i64, reset_impl, resettable_get_mut}
use geobacter.Copies.{
  lap_box, lap_vec, Copy, World, Device, alloc_for_dev, new_uninit, new_uninit_slice, alloc_in_pool,
  pool_ptr, raw_pool_ptr,
}
use geobacter.Copies.Groups.{
  Group, leaf, chain, Transfers, one, both, done, failed, waiting, dropping, signal_len,
  unchecked_memcopy, memcopy, drop_transfers, unchecked_memcopy_with_signal,
  unchecked_async_copy_into,
}
use geobacter.Copies.Account.{in_flight, leaves, Of}
use geobacter.Copies.Ends.{here, Tracked, memcopy_counts, refused_blocks}

abbrev rt : Runtime
rt = record {
  place = λ h len. some (1048576 + length h.live * 65536);
  free = λ bs p. some [];
  allow_access = λ h ids p. ok tt;
}

abbrev device : Device
device = record {
  agent = 7;
  first_host_agent = 1;
  live = true;
  alloc_allowed = true;
  alignment = ok (some 4096);
  granule = ok (some 4096);
  allocator = ok (record { granule = 4096; alignment = 4096 });
}

-- The HSA runtime takes a copy if none is in flight.
abbrev one_copy : List Copy → Copy → Result HsaError (Unit {0})
one_copy [] c = ok tt
one_copy (x ∷ xs) c = err out_of_resources

abbrev create : Signals → Result HsaError ℕ
create st = ok 90

abbrev word : Layout
word = record { size = 4; align = 4 }

-- Signal 5 is held by the caller alone.
abbrev idle : World
idle = record {
  signals = record { value = λ s. 0; strong = update (λ s. 0) 5 1 };
  pending = [];
  heap = record { live = []; bytes = λ a. 0; grants = λ a. [] };
}

abbrev pair : Group
pair =
    chain (leaf (lap_vec 4096 word 4 4) (44 ∷ []))
      (leaf (lap_box 8192 (record { size = 0; align = 1 })) [])

abbrev copy : Copy
copy = record {
  into = 1048576;
  from = 4096;
  bytes = 16;
  dst_agent = 7;
  src_agent = 1;
  deps = 33 ∷ 44 ∷ [];
  completion = 5;
}

abbrev start : Signals
start = record { value = update (λ s. 0) 5 2; strong = update (λ s. 0) 5 1 }

copied :
    (memcopy device rt general one_copy true create (33 ∷ []) 5 pair idle).1.pending ≡ copy ∷ []
unfolding memcopy unchecked_memcopy unchecked_memcopy_with_signal unchecked_async_copy_into
    alloc_for_dev new_uninit new_uninit_slice alloc_in_pool pool_ptr raw_pool_ptr signal_len
    reset_impl resettable_get_mut ℕ_discrete Pool.alloc Pool.alloc_sized padding_needed_for round_up
copied = refl

counted_down :
    (memcopy device rt general one_copy true create (33 ∷ []) 5 pair idle).1.signals.value 5 ≡ 1
unfolding memcopy unchecked_memcopy unchecked_memcopy_with_signal unchecked_async_copy_into
    alloc_for_dev new_uninit new_uninit_slice alloc_in_pool pool_ptr raw_pool_ptr signal_len
    reset_impl resettable_get_mut ℕ_discrete Pool.alloc Pool.alloc_sized padding_needed_for round_up
counted_down = refl

-- The copy of the vector is in flight, and the box without bytes was subtracted at once.
abbrev both_made : Transfers
both_made =
    both (one (record { signal = 5; dst = record { ptr = 1048576; len = 16 } }))
      (one (record { signal = 5; dst = record { ptr = 1114112; len = 0 } }))

started :
    (w : World) × (memcopy device rt general one_copy true create (33 ∷ []) 5 pair idle
      ≡ (done both_made, w))
unfolding memcopy unchecked_memcopy unchecked_memcopy_with_signal unchecked_async_copy_into
    alloc_for_dev new_uninit new_uninit_slice alloc_in_pool pool_ptr raw_pool_ptr signal_len
    reset_impl resettable_get_mut ℕ_discrete Pool.alloc Pool.alloc_sized padding_needed_for round_up
started = (_, refl)

nothing-Tracked : Tracked 5 idle
unfolding in_flight
nothing-Tracked j h = absurd (omega arith)

memcopy_counts_example :
    (h : ℕ) × Of h both_made × (started.0.signals.value h ≡ in_flight h started.0.pending)
unfolding ℕ_discrete leaves
memcopy_counts_example =
    memcopy_counts device rt general one_copy true create (33 ∷ []) 5 pair idle
      (λ h made. fresh h made) (omega arith) nothing-Tracked few started.1 here
  where
    fresh : (h : ℕ) → ◌≡◌ {A = Result HsaError ℕ} (ok 90) (ok h) → idle.signals.strong h ≡ 0
    fresh h made = subst (λ t. idle.signals.strong t ≡ 0) (ok-injective made) refl

    few : leaves pair < 2 ^ 63
    few = omega arith

-- Two vectors: the second copy is refused.
abbrev vectors : Group
vectors = chain (leaf (lap_vec 4096 word 4 4) []) (leaf (lap_vec 8192 word 4 4) [])

abbrev ready : World
ready = record idle { signals = start }

abbrev first_made : Transfers
first_made = one (record { signal = 5; dst = record { ptr = 1048576; len = 16 } })

first_started :
    (w : World) × (unchecked_memcopy device rt general one_copy true [] 5
        (leaf (lap_vec 4096 word 4 4) [])
        ready
      ≡ (done first_made, w))
unfolding memcopy unchecked_memcopy unchecked_memcopy_with_signal unchecked_async_copy_into
    alloc_for_dev new_uninit new_uninit_slice alloc_in_pool pool_ptr raw_pool_ptr signal_len
    reset_impl resettable_get_mut ℕ_discrete Pool.alloc Pool.alloc_sized padding_needed_for round_up
first_started = (_, refl)

second_refused :
    (w : World) × (unchecked_memcopy device rt general one_copy true [] 5
        (leaf (lap_vec 8192 word 4 4) [])
        first_started.0
      ≡ (failed (hsa out_of_resources), w))
unfolding first_started from_hsa_error memcopy unchecked_memcopy unchecked_memcopy_with_signal
    unchecked_async_copy_into alloc_for_dev new_uninit new_uninit_slice alloc_in_pool pool_ptr
    raw_pool_ptr signal_len reset_impl resettable_get_mut ℕ_discrete Pool.alloc Pool.alloc_sized
    padding_needed_for round_up
second_refused = (_, refl)

refused_blocks_example :
    (unchecked_memcopy device rt general one_copy true [] 5 vectors ready
      ≡ (waiting (hsa out_of_resources), second_refused.0))
    × (lt_i64 (second_refused.0.signals.value 5) 1 ≡ false)
    × (drop_transfers device rt general one_copy true first_made second_refused.0
        ≡ dropping second_refused.0)
unfolding ℕ_discrete in_flight leaves
refused_blocks_example =
    refused_blocks device rt general one_copy true [] 5 (leaf (lap_vec 4096 word 4 4) [])
      (leaf (lap_vec 8192 word 4 4) []) ready counted (omega arith) first_started.1 second_refused.1
      here
  where
    counted : ready.signals.value 5 ≡ in_flight 5 ready.pending + leaves vectors
    counted = omega arith
