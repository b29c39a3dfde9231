-- ===== src/Launch/Outcomes.antt =====
-- What `Invoc::try_unchecked_call_async` of runtime-amd/src/module/mod.rs does.
use geobacter.Prelude.{ℕ, ◌≡◌, refl, some, [], arith, ◌⊎◌, Option-cases, inl, inr}
use geobacter.Prelude.Results.{ok, err, Result-cases}
use geobacter.Errors.{Error, failed}
use geobacter.ArgsPool.{try_alloc}
use geobacter.Grid.Dims.{Fields, Dim3D}
use geobacter.Grid.Range.{Range}
use geobacter.Queue.Abi.{HsaAbi}
use geobacter.Launch.Barriers.{enqueue_deps, send_drained}
use geobacter.Launch.Shape.{launch_shape}
use geobacter.Launch.Call.{
  Invoc, Args, Machine, inner_call, try_unchecked_call_async, place_args, enqueue_args,
  dispatch_args, dispatch_packet, kernel_object, refused,
}

dispatch_args_back :
    (c : HsaAbi) (i : Invoc) (wg grid : Dim3D ℕ) (object : ℕ) (args : Args) (block : ℕ)
    (m : Machine) {e : Error}
    → (dispatch_args c i wg grid object args block m).0 ≡ err (failed e)
    → (dispatch_args c i wg grid object args block m).1 ≡ some args
unfolding dispatch_args dispatch_packet
dispatch_args_back c i wg grid object args block m h = ground arith

enqueue_args_back :
    (c : HsaAbi) (i : Invoc) (wg grid : Dim3D ℕ) (object : ℕ) (args : Args) (block : ℕ)
    (m : Machine) {e : Error}
    → (enqueue_args c i wg grid object args block m).0 ≡ err (failed e)
    → (enqueue_args c i wg grid object args block m).1 ≡ some args
unfolding enqueue_args
enqueue_args_back c i wg grid object args block m h =
    let (sent, q) = enqueue_deps (send_drained c) m.queue [] args.deps in
    ground (arith, dispatch_args_back c i wg grid object args block (record m { queue = q }))

place_args_back :
    (c : HsaAbi) (i : Invoc) (wg grid : Dim3D ℕ) (object : ℕ) (args : Args) (m : Machine)
    {e : Error}
    → (place_args c i wg grid object args m).0 ≡ err (failed e)
    → (place_args c i wg grid object args m).1 ≡ some args
unfolding place_args
place_args_back c i wg grid object args m h =
    let pool = (try_alloc m.pool i.invoc_args m.spurious).1 in
    elim (Option-cases (try_alloc m.pool i.invoc_args m.spurious).0) [
      | inl full ↦ ground arith
      | inr (b, e) ↦
          ground (arith, enqueue_args_back c i wg grid object args b (record m { pool = pool }))
    ]

module _ {D E : Type 0 → Type 0} (c : HsaAbi) (i : Invoc) (F : Fields D) (G : Fields E)
    (workgroup : D Range) (grid : E Range) (args : Args) (m : Machine) where
  inner_call_back :
      {e : Error}
      → (inner_call c i F G workgroup grid args m).0 ≡ err (failed e)
      → (inner_call c i F G workgroup grid args m).1 ≡ some args
  unfolding inner_call
  inner_call_back h = elim (Result-cases (launch_shape F G i.isa workgroup grid)) [
    | inr (e, bad) ↦ ground arith
    | inl ((w, g), good) ↦ elim (Result-cases (kernel_object c i)) [
      | inr (e, bad) ↦ ground arith
      | inl (object, found) ↦ ground (arith, place_args_back c i w g object args m)
    ]
  ]

  -- A launch that fails with an error gives the caller back the arguments that it was called with:
  -- `args.take().unwrap()` does not panic.
  pub refused_with_args :
      {e : Error}
      → (inner_call c i F G workgroup grid args m).0 ≡ err (failed e)
      → (try_unchecked_call_async c i F G workgroup grid args m).0 ≡ refused e args
  unfolding try_unchecked_call_async
  refused_with_args h = rw (h, inner_call_back h) refl

  -- A launch whose dimensions are refused, or whose kernel does not compile, has not touched the pool
  -- or the queue.
  pub refused_early :
      (e : Error)
      → (launch_shape F G i.isa workgroup grid ≡ err (failed e))
        ⊎ ((s : Dim3D ℕ × Dim3D ℕ) × (launch_shape F G i.isa workgroup grid ≡ ok s)
            × (kernel_object c i ≡ err (failed e)))
      → try_unchecked_call_async c i F G workgroup grid args m ≡ (refused e args, m)
  unfolding try_unchecked_call_async inner_call
  refused_early e (inl bad) = ground arith
  refused_early e (inr (s, good, bad)) = ground arith
