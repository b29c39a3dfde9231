-- ===== src/Launch/Success.antt =====
-- A launch of runtime-amd/src/module/mod.rs that goes through.
use geobacter.Prelude.{
  ℕ, suc, ◌+◌, ◌≡◌, refl, ap, ◌∙◌, none, some, List, [], ◌∷◌, ◌++◌, map, length, false, arith,
}
use geobacter.Prelude.Results.{ok}
use geobacter.ArgsPool.{ArgsPool, try_alloc}
use geobacter.Grid.Dims.{Fields, Dim3D}
use geobacter.Grid.Range.{Range}
use geobacter.Queue.Abi.{HsaAbi, IsHsaAbi}
use geobacter.Queue.Dispatch.{Slot, DispatchPacket, AllPositive, check_iff}
use geobacter.Queue.Ring.{Ring, try_enqueue_kernel_dispatch}
use geobacter.Queue.Ring.Enqueue.{IsRing}
use geobacter.Queue.Ring.Fifo.{contents}
use geobacter.Queue.Ring.Packets.{DispatchWritten, try_enqueue_kernel_dispatch_lem}
use geobacter.Launch.Barriers.{send_drained, enqueue_deps}
use geobacter.Launch.Batches.{batches}
use geobacter.Launch.Sending.{Room, BatchesWritten, enqueue_deps_lem, send_drained-Sends}
use geobacter.Launch.Completion.{length-BatchesWritten}
use geobacter.Launch.Shape.{launch_shape}
use geobacter.Launch.Call.{
  Invoc, Args, Machine, returned, try_unchecked_call_async, inner_call, place_args, enqueue_args,
  dispatch_args, dispatch_packet, kernel_object,
}

abbrev axes : Dim3D ℕ → ℕ × ℕ × ℕ
axes d = (d.x, d.y, d.z)

-- The packet that a launch is to write.
abbrev pub expected : Invoc → Dim3D ℕ → Dim3D ℕ → ℕ → ℕ → ℕ → Args → ℕ → DispatchPacket
expected i w g object group private args block = record {
  workgroup_size = axes w;
  grid_size = axes g;
  private_segment_size = private;
  group_segment_size = group;
  ordered = false;
  scaquire_scope = i.begin_fence;
  screlease_scope = i.end_fence;
  kernel_object = object;
  kernel_args = block + i.launch_args_ref_offset;
  completion_signal = some args.completion;
}

module _ (c : HsaAbi) (i : Invoc) (w g : Dim3D ℕ) (object group private block : ℕ) (args : Args)
    (group_eq : i.group_size ≡ ok group) (private_eq : i.private_size ≡ ok private) where
  dispatch_step :
      (m : Machine) (q : Ring Slot)
      → try_enqueue_kernel_dispatch c m.queue (expected i w g object group private args block)
        ≡ some (ok tt, q)
      → dispatch_args c i w g object args block m
        ≡ (ok (block + i.launch_args_offset), none, record m { queue = q })
  unfolding dispatch_args dispatch_packet
  dispatch_step m q done = rw (group_eq, private_eq, done, dispatch_args)

  enqueue_step :
      (m : Machine) (q₁ q : Ring Slot)
      → enqueue_deps (send_drained c) m.queue [] args.deps ≡ (ok tt, q₁)
      → try_enqueue_kernel_dispatch c q₁ (expected i w g object group private args block)
        ≡ some (ok tt, q)
      → enqueue_args c i w g object args block m
        ≡ (ok (block + i.launch_args_offset), none, record m { queue = q })
  unfolding enqueue_args
  enqueue_step m q₁ q sent done =
      rw (sent, enqueue_args)
        (ap (λ t. dispatch_args c i w g object args block (record m { queue = t.1 })) sent
          ∙ dispatch_step (record m { queue = q₁ }) q done)

  place_step :
      (m : Machine) (q₁ q : Ring Slot) (pool : ArgsPool)
      → try_alloc m.pool i.invoc_args m.spurious ≡ (some block, pool)
      → enqueue_deps (send_drained c) m.queue [] args.deps ≡ (ok tt, q₁)
      → try_enqueue_kernel_dispatch c q₁ (expected i w g object group private args block)
        ≡ some (ok tt, q)
      → place_args c i w g object args m
        ≡ (ok (block + i.launch_args_offset), none, record m { pool = pool; queue = q })
  unfolding place_args
  place_step m q₁ q pool granted sent done =
      rw (granted, place_args)
        (ap (λ t. enqueue_args c i w g object args block (record m { pool = t.1 })) granted
          ∙ enqueue_step (record m { pool = pool }) q₁ q sent done)

-- A launch with accepted dimensions, a compiled kernel, a block for its arguments and room in the
-- queue for its packets returns the arguments' address in that block. Behind what the reader has
-- before it stand then one AND barrier for every five dependencies, in order, and last the dispatch
-- packet with the workgroup's size, the rounded grid, the kernel and the completion signal.
pub launched_in_order :
    {D E : Type 0 → Type 0} (c : HsaAbi) (i : Invoc) (F : Fields D) (G : Fields E)
    (workgroup : D Range) (grid : E Range) (args : Args) (m : Machine) {w g : Dim3D ℕ}
    {object block group private : ℕ} {pool : ArgsPool}
    → IsHsaAbi c
    → launch_shape F G i.isa workgroup grid ≡ ok (w, g)
    → AllPositive (w.x, w.y, w.z) × AllPositive (g.x, g.y, g.z)
    → kernel_object c i ≡ ok object
    → try_alloc m.pool i.invoc_args m.spurious ≡ (some block, pool)
    → i.group_size ≡ ok group
    → i.private_size ≡ ok private
    → IsRing m.queue
    → Room m.queue (suc (length (batches [] args.deps)))
    → (ps : List Slot) × (p : Slot) × (q : Ring Slot) × (try_unchecked_call_async c i F G workgroup
          grid args m
        ≡ (returned (block + i.launch_args_offset), record m { pool = pool; queue = q }))
      × (contents q ≡ contents m.queue ++ map some ps ++ some p ∷ [])
      × BatchesWritten none (batches [] args.deps) ps
      × DispatchWritten (expected i w g object group private args block) p
unfolding try_unchecked_call_async inner_call
launched_in_order c i F G workgroup grid args m {w} {g} {object} {block} {group} {private} {pool} h
      shape pos found granted grp prv v room =
    let d = expected i w g object group private args block in
    let (ps, q₁, sent, extended, written) =
      enqueue_deps_lem (send_drained c) none (send_drained-Sends c h) m.queue [] args.deps v
        (omega arith) (omega (arith, room)) in
    let count = length-BatchesWritten none (batches [] args.deps) ps written in
    let (p, q₂, done, joined, dispatched, bell, valid) =
      try_enqueue_kernel_dispatch_lem c q₁ d h extended.valid ((check_iff d).0.1 pos)
        (omega (arith, room, count, extended.write_eq, extended.read_eq, extended.size_eq))
        (omega (arith, room, count, extended.write_eq)) in
    let placed =
      place_step c i w g object group private block args grp prv m q₁ q₂ pool granted sent done in
    let called : inner_call c i F G workgroup grid args m
        ≡ (ok (block + i.launch_args_offset), none, record m { pool = pool; queue = q₂ }) =
      rw (shape, found, inner_call) placed in
    (
      ps,
      p,
      q₂,
      rw (called, try_unchecked_call_async) refl,
      joined ∙ ap (λ t. t ++ some p ∷ []) extended.contents_eq,
      written,
      dispatched,
    )
