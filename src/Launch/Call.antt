-- ===== src/Launch/Call.antt =====
-- `Invoc::try_unchecked_call_async` of runtime-amd/src/module/mod.rs. What the compiled kernel, the
-- device and the types of the call give it are fields of `Invoc`; the arguments are moved into the
-- block of the pool, and out of it again where the dispatch is refused.
use geobacter.Prelude.{ℕ, ◌+◌, Option, none, some, List, [], false, ◌==◌, if◌then◌else◌}
use geobacter.Prelude.Results.{Result, ok, err, ◌>>=◌}
use geobacter.Errors.{Stop, Error, panic, failed, kernel_args_pool_oom, from_queue_error}
use geobacter.Layout.{Layout}
use geobacter.ArgsPool.{ArgsPool, try_alloc}
use geobacter.Grid.Dims.{Fields, Dim3D}
use geobacter.Grid.Range.{Range}
use geobacter.Queue.Abi.{HsaAbi, FenceScope}
use geobacter.Queue.Dispatch.{Slot, DispatchPacket}
use geobacter.Queue.Ring.{Ring, try_enqueue_kernel_dispatch}
use geobacter.Launch.Barriers.{enqueue_deps, send_drained}
use geobacter.Launch.Shape.{IsaInfo, launch_shape}

-- What `compile_internal` gives: the kernel's object and the sizes in its descriptor.
pub record Kernel : Type 0 where
  pub kernel_object : ℕ
  pub kernarg_segment_size : ℕ

-- `args_ref_size` is `size_of::<(&KLaunchArgs<A>,)>()`, `invoc_args` the layout of `InvocArgs<A>`, and
-- the two offsets are those of its fields.
pub record Invoc : Type 0 where
  pub isa : IsaInfo
  pub compile_internal : Result Error Kernel
  pub args_ref_size : ℕ
  pub invoc_args : Layout
  pub launch_args_offset : ℕ
  pub launch_args_ref_offset : ℕ
  pub group_size : Result Error ℕ
  pub private_size : Result Error ℕ
  pub begin_fence : FenceScope
  pub end_fence : FenceScope

-- The kernel's arguments, as far as a launch reads them: the signals of its dependencies and its
-- completion.
pub record Args : Type 0 where
  pub deps : List ℕ
  pub completion : ℕ

-- `spurious` counts the failures of the weak compare-exchange that the pool's allocation will see.
pub record Machine : Type 0 where
  pub pool : ArgsPool
  pub queue : Ring Slot
  pub spurious : ℕ

-- What a call leaves: its result, the argument slot of the caller, and the machine. The result is the
-- address of the boxed arguments.
abbrev pub Outcome : Type 0
Outcome = Result Stop ℕ × Option Args × Machine

abbrev lift : Result Error Kernel → Result Stop Kernel
lift (ok a) = ok a
lift (err e) = err (failed e)

-- `unwrap` of a result.
abbrev unwrap : Result Error ℕ → Result Stop ℕ
unwrap (ok a) = ok a
unwrap (err e) = err panic

module _ (c : HsaAbi) (i : Invoc) where
  -- The kernel's object, once the size of its arguments is the expected one.
  unfoldable pub kernel_object : Result Stop ℕ
  kernel_object = do
    let kernel = (← lift i.compile_internal)
    if kernel.kernarg_segment_size == i.args_ref_size then ok kernel.kernel_object else err panic

  unfoldable pub dispatch_packet : Dim3D ℕ → Dim3D ℕ → ℕ → Args → ℕ → Result Stop DispatchPacket
  dispatch_packet wg grid object args block = do
    let group = (← unwrap i.group_size)
    let private = (← unwrap i.private_size)
    ok (record {
      workgroup_size = (wg.x, wg.y, wg.z);
      grid_size = (grid.x, grid.y, grid.z);
      private_segment_size = private;
      group_segment_size = group;
      ordered = false;
      scaquire_scope = i.begin_fence;
      screlease_scope = i.end_fence;
      kernel_object = object;
      kernel_args = block + i.launch_args_ref_offset;
      completion_signal = some args.completion;
    })

  -- From the write of the arguments into their block on.
  unfoldable pub dispatch_args : Dim3D ℕ → Dim3D ℕ → ℕ → Args → ℕ → Machine → Outcome
  unfolding dispatch_packet from_queue_error
  dispatch_args wg grid object args block m = elim (dispatch_packet wg grid object args block) [
    | err e ↦ (err e, none, m)
    | ok packet ↦ elim (try_enqueue_kernel_dispatch c m.queue packet) [
      | none ↦ (err panic, none, m)
      | some (err e, q) ↦ (err (failed (from_queue_error e)), some args, record m { queue = q })
      | some (ok _, q) ↦ (ok (block + i.launch_args_offset), none, record m { queue = q })
    ]
  ]

  unfoldable pub enqueue_args : Dim3D ℕ → Dim3D ℕ → ℕ → Args → ℕ → Machine → Outcome
  unfolding dispatch_args
  enqueue_args wg grid object args block m =
      let (sent, q) = enqueue_deps (send_drained c) m.queue [] args.deps in
      elim sent [
        | err e ↦ (err e, some args, record m { queue = q })
        | ok _ ↦ dispatch_args wg grid object args block (record m { queue = q })
      ]

  unfoldable pub place_args : Dim3D ℕ → Dim3D ℕ → ℕ → Args → Machine → Outcome
  unfolding enqueue_args
  place_args wg grid object args m =
      let (block, pool) = try_alloc m.pool i.invoc_args m.spurious in
      elim block [
        | none ↦ (err (failed kernel_args_pool_oom), some args, record m { pool = pool })
        | some b ↦ enqueue_args wg grid object args b (record m { pool = pool })
      ]

  unfoldable pub inner_call :
      {D E : Type 0 → Type 0} → Fields D → Fields E → D Range → E Range → Args → Machine → Outcome
  unfolding place_args kernel_object
  inner_call F G workgroup grid args m = elim (launch_shape F G i.isa workgroup grid) [
    | err e ↦ (err e, some args, m)
    | ok (wg, rounded) ↦ elim kernel_object [
      | err e ↦ (err e, some args, m)
      | ok object ↦ place_args wg rounded object args m
    ]
  ]

-- `Err((err, args.take().unwrap()))`: what the caller of `try_unchecked_call_async` gets.
pub data Called : Type 0 where
  returned : ℕ → Called
  refused : Error → Args → Called
  panicked : Called

abbrev give_back : Result Stop ℕ → Option Args → Called
give_back (ok a) rest = returned a
give_back (err panic) rest = panicked
give_back (err (failed e)) (some args) = refused e args
give_back (err (failed e)) none = panicked

unfoldable pub try_unchecked_call_async :
    {D E : Type 0 → Type 0}
    → HsaAbi
    → Invoc
    → Fields D
    → Fields E
    → D Range
    → E Range
    → Args
    → Machine
    → Called × Machine
unfolding inner_call
try_unchecked_call_async c i F G workgroup grid args m =
    let (result, rest, m') = inner_call c i F G workgroup grid args m in (give_back result rest, m')
