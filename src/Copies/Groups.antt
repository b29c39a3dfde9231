-- ===== src/Copies/Groups.antt =====
-- `H2DMemcpyGroup` of runtime-amd/src/mem.rs: copies that share a completion signal, and what becomes
-- of the first ones where a later one is refused.
use geobacter.Prelude.{
  ℕ, ◌+◌, ◌-◌, Bool, ◌==◌, if◌then◌else◌, Option, none, some, List, [], ◌∷◌, ◌++◌, min, update,
  usize_mod, wrapping_add, wrapping_sub,
}
use geobacter.Prelude.Results.{Result, ok, err}
use geobacter.HsaErrors.{HsaError}
use geobacter.Errors
use geobacter.Errors.{Stop, Error, from_hsa_error}
use geobacter.Alloc.Heap.{Heap, Block, Runtime}
use geobacter.Signal.{Signals, counted, lt_i64, store_value, reset_impl}
use geobacter.Copies.{PoolPtr, Object, pool_ptr, raw_pool_ptr, Copy, World, Device, alloc_for_dev}

-- A tree of `chain`s, with the signals that each object depends on itself.
pub data Group : Type 0 where
  leaf : Object → List ℕ → Group
  chain : Group → Group → Group

-- `H2DMemoryTransfer`: the signal, of which it holds a reference, and the box on the device.
pub record Transfer : Type 0 where
  pub signal : ℕ
  pub dst : PoolPtr

pub data Transfers : Type 0 where
  one : Transfer → Transfers
  both : Transfers → Transfers → Transfers

-- `H2DMemcpyGroup::signal_len`.
unfoldable pub signal_len : Group → ℕ
signal_len (leaf o deps) = 1
signal_len (chain l r) = wrapping_add usize_mod (signal_len l) (signal_len r)

-- `subtract_screlease(1)`.
abbrev pub subtract : Signals → ℕ → Signals
subtract st s = store_value st s (wrapping_sub usize_mod (st.value s) 1)

abbrev pub retain : Signals → ℕ → Signals
retain st s = record st { strong = update st.strong s (st.strong s + 1) }

abbrev pub release : Signals → ℕ → Signals
release st s = record st { strong = update st.strong s (st.strong s - 1) }

-- How a call ends, or that it stands in the wait of a transfer that it drops.
pub data Outcome (A : Type 0) : Type 0 where
  done : A → Outcome A
  failed waiting : Error → Outcome A
  panicked : Outcome A

-- How the drop of a transfer goes on.
pub data Dropped : Type 0 where
  dropped dropping asserted : World → Dropped

module _ (d : Device) (rt : Runtime) (refusal : HsaError) where
  -- The drop of `RawPoolBox`, which ignores an error.
  abbrev pub freed : Heap → Option (List Block) → Heap
  freed h none = h
  freed h (some bs) = record h { live = bs }

  abbrev pub drop_box : PoolPtr → Heap → Heap
  drop_box b h = freed h (rt.free h.live b.ptr)

  module _ (submit : List Copy → Copy → Result HsaError (Unit {0})) (host_consumable : Bool) where
    -- `async_copy` and the `?` behind it.
    abbrev pub submitted :
        World → Copy → Result HsaError (Unit {0}) → Result Error (Unit {0}) × World
    submitted w c (err e) = (err (from_hsa_error e), w)
    submitted w c (ok _) = (ok tt, record w { pending = w.pending ++ c ∷ [] })

    -- `unchecked_async_copy_into`.
    unfoldable pub unchecked_async_copy_into :
        Option PoolPtr → Option PoolPtr → List ℕ → ℕ → World → Result Error (Unit {0}) × World
    unfolding from_hsa_error
    unchecked_async_copy_into none into deps completion w =
        (ok tt, record w { signals = subtract w.signals completion })
    unchecked_async_copy_into (some from) none deps completion w =
        (ok tt, record w { signals = subtract w.signals completion })
    unchecked_async_copy_into (some from) (some into) deps completion w =
        let c : Copy = record {
          into = into.ptr;
          from = from.ptr;
          bytes = min from.len into.len;
          dst_agent = d.agent;
          src_agent = d.first_host_agent;
          deps = deps;
          completion = completion;
        } in
        submitted w c (submit w.pending c)

    -- The end of `unchecked_memcopy_with_signal`: the transfer, or the box is dropped.
    abbrev pub transferred :
        PoolPtr → ℕ → Result Error (Unit {0}) × World → Outcome Transfers × World
    transferred b signal (ok _, w) = (
      done (one (record { signal = signal; dst = b })),
      record w { signals = retain w.signals signal },
    )
    transferred b signal (err e, w) = (failed e, record w { heap = drop_box b w.heap })

    abbrev pub copied :
        Object → List ℕ → ℕ → World → Result Stop PoolPtr × Heap → Outcome Transfers × World
    copied o deps signal w (ok b, h) = transferred b signal (
        unchecked_async_copy_into (pool_ptr o) (raw_pool_ptr b) deps signal (record w { heap = h }))
    copied o deps signal w (err (Errors.failed e), h) = (failed e, record w { heap = h })
    copied o deps signal w (err Errors.panic, h) = (panicked, record w { heap = h })

    -- `unchecked_memcopy_with_signal`.
    unfoldable pub unchecked_memcopy_with_signal :
        Object → List ℕ → List ℕ → ℕ → World → Outcome Transfers × World
    unfolding alloc_for_dev unchecked_async_copy_into pool_ptr raw_pool_ptr
    unchecked_memcopy_with_signal o own deps signal w =
        copied o (deps ++ own) signal w (alloc_for_dev d rt refusal o w.heap)

    -- `H2DMemoryTransfer::drop`, and then its fields'. The wait goes on while the signal is above zero.
    unfoldable pub drop_transfer : Transfer → World → Dropped
    drop_transfer t w =
        let w' = record w { signals = release w.signals t.signal; heap = drop_box t.dst w.heap } in
        if w.signals.value t.signal == 0
        then dropped w'
        else (if host_consumable
            then (if lt_i64 (w.signals.value t.signal) 1 then dropped w' else dropping w)
            else asserted w)

    unfoldable pub drop_transfers : Transfers → World → Dropped
    unfolding drop_transfer
    drop_transfers (one t) w = drop_transfer t w
    drop_transfers (both a b) w = elim (drop_transfers a w) [
      | dropped w' ↦ drop_transfers b w'
      | dropping w' ↦ dropping w'
      | asserted w' ↦ asserted w'
    ]

    -- The error of the second half, when the first half's transfers are dropped.
    abbrev pub refused : Error → Dropped → Outcome Transfers × World
    refused e (dropped w) = (failed e, w)
    refused e (dropping w) = (waiting e, w)
    refused e (asserted w) = (panicked, w)

    abbrev pub joined : Transfers → Outcome Transfers × World → Outcome Transfers × World
    joined t (done u, w) = (done (both t u), w)
    joined t (failed e, w) = refused e (drop_transfers t w)
    joined t (waiting e, w) = (waiting e, w)
    joined t (panicked, w) = (panicked, w)

    abbrev pub and_then :
        Outcome Transfers × World
        → (Transfers → World → Outcome Transfers × World)
        → Outcome Transfers × World
    and_then (done t, w) rest = rest t w
    and_then (failed e, w) rest = (failed e, w)
    and_then (waiting e, w) rest = (waiting e, w)
    and_then (panicked, w) rest = (panicked, w)

    -- `H2DMemcpyGroup::unchecked_memcopy`.
    unfoldable pub unchecked_memcopy : List ℕ → ℕ → Group → World → Outcome Transfers × World
    unfolding unchecked_memcopy_with_signal drop_transfers
    unchecked_memcopy deps signal (leaf o own) w = unchecked_memcopy_with_signal o own deps signal w
    unchecked_memcopy deps signal (chain l r) w =
        and_then (unchecked_memcopy deps signal l w)
          (λ t w'. joined t (unchecked_memcopy deps signal r w'))

    module _ (create : Signals → Result HsaError ℕ) where
      abbrev pub prepared :
          List ℕ → Group → World → Result HsaError ℕ × Signals → Outcome Transfers × World
      prepared deps g w (err e, st) = (failed (from_hsa_error e), record w { signals = st })
      prepared deps g w (ok s, st) = unchecked_memcopy deps s g (record w { signals = st })

      -- `H2DMemcpyGroup::memcopy` for an `Arc` or `Rc` of a signal.
      unfoldable pub memcopy : List ℕ → ℕ → Group → World → Outcome Transfers × World
      unfolding unchecked_memcopy signal_len reset_impl
      memcopy deps signal g w =
          prepared deps g w (reset_impl create counted w.signals signal (signal_len g))
