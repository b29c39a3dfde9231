-- ===== src/Launch/Tests.antt =====
-- A launch of a thousand items in workgroups of 64, with six dependencies, on a queue of four slots.
use geobacter.Prelude.{
  ℕ, suc, ◌*◌, ◌≡◌, ◌<◌, ◌≤◌, refl, none, some, List, [], ◌∷◌, ◌++◌, map, length, arith,
}
use geobacter.Prelude.Results.{Result, ok, err}
use geobacter.Errors.{Error, failed, kernel_args_pool_oom, zero_grid_launch_axis}
use geobacter.ArgsPool.{ArgsPool, try_alloc, attempt, alignment_padding}
use geobacter.Layout.{align_to, is_power_of_two}
use geobacter.Grid.Dims.{Dim1D, Dim3D, dim1d, dim3d}
use geobacter.Grid.Range.{Range, range, range_to, axis_len, axis_checked_len}
use geobacter.Grid.Indices.{
  as_, checked_linear_len, product_from, full_launch_grid, workgroup_full_launch_grid, len,
  checked_len,
}
use geobacter.Grid.Ops.{dim_sub, dim_div, dim_checked_add, dim_checked_mul}
use geobacter.Queue.Abi.{FenceScope, HsaAbi, IsHsaAbi}
use geobacter.Queue.Dispatch.{unset, Slot, AllPositive}
use geobacter.Queue.Ring.{Ring}
use geobacter.Queue.Ring.Enqueue.{IsRing}
use geobacter.Queue.Ring.Fifo.{contents}
use geobacter.Queue.Ring.Packets.{DispatchWritten}
use geobacter.Launch.Barriers.{barrier_impl}
use geobacter.Launch.Batches.{batches}
use geobacter.Launch.Sending.{Extended, Room, BatchesWritten}
use geobacter.Launch.Completion.{barrier_impl_lem}
use geobacter.Launch.Shape.{launch_shape, check_limits, round_grid}
use geobacter.Launch.Rounding.{ShapeOk}
use geobacter.Launch.Call.{
  Invoc, Args, Machine, returned, refused, inner_call, try_unchecked_call_async, kernel_object,
  place_args,
}
use geobacter.Launch.Outcomes.{refused_with_args}
use geobacter.Launch.Success.{launched_in_order, expected}

abbrev abi : HsaAbi
abi = record {
  packet_type_invalid = 1;
  packet_type_kernel_dispatch = 2;
  packet_type_barrier_and = 3;
  packet_type_barrier_or = 5;
  packet_header_type = 0;
  packet_header_barrier = 8;
  packet_header_scacquire_fence_scope = 9;
  packet_header_screlease_fence_scope = 11;
  fence_scope_none = 0;
  fence_scope_agent = 1;
  fence_scope_system = 2;
  setup_dimensions = 0;
  dep_signals = 5;
}

abi-IsHsaAbi : IsHsaAbi abi
abi-IsHsaAbi = omega arith

abbrev empty_slot : Slot
empty_slot = record { header = 1; setup = 0; body = unset; completion_signal = 0 }

abbrev idle : Ring Slot
idle = record {
  size = 4;
  packets = empty_slot ∷ empty_slot ∷ empty_slot ∷ empty_slot ∷ [];
  write_index = 6;
  read_index = 6;
  doorbell = 5;
}

idle-IsRing : IsRing idle
idle-IsRing = record {
  log = 2;
  log_lt = omega arith;
  size_eq = refl;
  slots = refl;
  ordered = omega arith;
  no_wrap = omega arith;
}

abbrev six_deps : List ℕ
six_deps = 11 ∷ 12 ∷ 13 ∷ 14 ∷ 15 ∷ 16 ∷ []

two_batches : batches [] six_deps ≡ (11 ∷ 12 ∷ 13 ∷ 14 ∷ 15 ∷ []) ∷ (16 ∷ []) ∷ []
unfolding batches
two_batches = refl

barriers-Room : Room idle (length (batches [] six_deps))
unfolding batches
barriers-Room = record { slots = omega arith; indices = omega arith }

dispatch-Room : Room idle (suc (length (batches [] six_deps)))
unfolding batches
dispatch-Room = record { slots = omega arith; indices = omega arith }

barrier_impl_example :
    (ps : List Slot) × (q : Ring Slot) × (barrier_impl abi ok 21 idle six_deps
      ≡ (some (length (batches [] six_deps)), (ok tt, q)))
    × Extended idle q ps
    × BatchesWritten (some 21) (batches [] six_deps) ps
    × (◌≡◌ {A = Result Error ℕ} (ok (length ps)) (ok (length (batches [] six_deps))))
    × (6 ≤ 5 * length ps)
    × (5 * length ps < 11)
barrier_impl_example =
    barrier_impl_lem abi ok 21 idle six_deps abi-IsHsaAbi idle-IsRing barriers-Room refl

abbrev dims : ℕ → ℕ → ℕ → Dim3D ℕ
dims x y z = record { x = x; y = y; z = z }

wide-ShapeOk : ShapeOk (dims 64 1 1) (dims 1000 1 1)
wide-ShapeOk = ground arith

abbrev invoc : Invoc
invoc = record {
  isa = record {
    workgroup_max_dim = dims 1024 1024 1024;
    workgroup_max_size = 1024;
    grid_max_dim = dims 100000 100000 100000;
    grid_max_size = 100000;
  };
  compile_internal = ok (record { kernel_object = 0x5000; kernarg_segment_size = 8 });
  args_ref_size = 8;
  invoc_args = record { size = 40; align = 8 };
  launch_args_offset = 0;
  launch_args_ref_offset = 32;
  group_size = ok 0;
  private_size = ok 16;
  begin_fence = FenceScope.system;
  end_fence = FenceScope.system;
}

abbrev args : Args
args = record { deps = six_deps; completion = 77 }

abbrev pool : ArgsPool
pool = record {
  device = record { alloc_granule = 4096; alloc_alignment = 64 };
  base = 4096;
  len = 4096;
  allocated = 4096;
}

abbrev machine : Machine
machine = record { pool = pool; queue = idle; spurious = 0 }

abbrev group_of_64 : Dim1D Range
group_of_64 = record { x = range_to 64 }

abbrev thousand : Dim1D Range
thousand = record { x = range 0 1000 }

shape_example :
    launch_shape dim1d dim1d invoc.isa group_of_64 thousand ≡ ok (dims 64 1 1, dims 1024 1 1)
unfolding launch_shape check_limits round_grid workgroup_full_launch_grid full_launch_grid len
    checked_len dim1d dim3d axis_len axis_checked_len as_ checked_linear_len product_from dim_sub
    dim_div dim_checked_add dim_checked_mul
shape_example = refl

object_example : kernel_object abi invoc ≡ ok 0x5000
unfolding kernel_object
object_example = refl

block_example : try_alloc pool invoc.invoc_args 0 ≡ (some 4096, record pool { allocated = 4136 })
unfolding try_alloc attempt alignment_padding align_to is_power_of_two
block_example = refl

axes_positive : AllPositive (64, 1, 1) × AllPositive (1024, 1, 1)
axes_positive = ground arith

launched_in_order_example :
    (ps : List Slot) × (p : Slot) × (q : Ring Slot) × (try_unchecked_call_async abi invoc dim1d
        dim1d group_of_64 thousand args machine
      ≡ (returned 4096, record machine { pool = record pool { allocated = 4136 }; queue = q }))
    × (contents q ≡ contents idle ++ map some ps ++ some p ∷ [])
    × BatchesWritten none (batches [] six_deps) ps
    × DispatchWritten (expected invoc (dims 64 1 1) (dims 1024 1 1) 0x5000 0 16 args 4096) p
launched_in_order_example =
    launched_in_order abi invoc dim1d dim1d group_of_64 thousand args machine abi-IsHsaAbi
      shape_example axes_positive object_example block_example refl refl idle-IsRing dispatch-Room

-- A grid without items.
abbrev nothing : Dim1D Range
nothing = record { x = range 7 7 }

refused_shape :
    launch_shape dim1d dim1d invoc.isa group_of_64 nothing ≡ err (failed zero_grid_launch_axis)
unfolding launch_shape check_limits round_grid workgroup_full_launch_grid full_launch_grid len
    checked_len dim1d dim3d axis_len axis_checked_len as_ checked_linear_len product_from dim_sub
    dim_div dim_checked_add dim_checked_mul
refused_shape = refl

-- A pool without room.
abbrev crowded : Machine
crowded = record machine { pool = record pool { allocated = 8192 } }

out_of_room :
    (inner_call abi invoc dim1d dim1d group_of_64 thousand args crowded).0
    ≡ err (failed kernel_args_pool_oom)
unfolding inner_call place_args kernel_object try_alloc attempt alignment_padding align_to
    is_power_of_two launch_shape check_limits round_grid workgroup_full_launch_grid full_launch_grid
    len checked_len dim1d dim3d axis_len axis_checked_len as_ checked_linear_len product_from
    dim_sub dim_div dim_checked_add dim_checked_mul
out_of_room = refl

refused_with_args_example :
    (try_unchecked_call_async abi invoc dim1d dim1d group_of_64 thousand args crowded).0
    ≡ refused kernel_args_pool_oom args
refused_with_args_example =
    refused_with_args abi invoc dim1d dim1d group_of_64 thousand args crowded out_of_room
