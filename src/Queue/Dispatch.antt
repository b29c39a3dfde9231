-- ===== src/Queue/Dispatch.antt =====
-- A packet slot of the queue, and `DispatchPacket` with `check` and `initialize_packet`.
use geobacter.Prelude.{
  ℕ, ◌≤◌, ◌≡◌, ◌≢◌, ◌⊎◌, Bool, ◌&&◌, ◌||◌, Option, none, some, List, arith, ◌==◌, if◌then◌else◌,
  ◌↔◌,
}
use geobacter.Prelude.Results.{Result, ok, err}
use geobacter.Errors.{QueueError, workgroup_dim_size, grid_dim_size}
use geobacter.Queue.Abi.{FenceScope}

-- What a slot holds between its first word and its completion signal: the fields of a kernel
-- dispatch, or the signals of a barrier.
pub data Body : Type 0 where
  kernel_dispatch :
      (workgroup_size grid_size : ℕ × ℕ × ℕ)
      → (private_segment_size group_segment_size kernel_object kernarg_address : ℕ) → Body
  barrier : List ℕ → Body
  unset : Body

-- A signal is its handle, and 0 is the null handle.
pub record Slot : Type 0 where
  pub header : ℕ
  pub setup : ℕ
  pub body : Body
  pub completion_signal : ℕ

-- `kernel_args` is an address.
pub record DispatchPacket : Type 0 where
  pub workgroup_size : ℕ × ℕ × ℕ
  pub grid_size : ℕ × ℕ × ℕ
  pub private_segment_size : ℕ
  pub group_segment_size : ℕ
  pub ordered : Bool
  pub scaquire_scope : FenceScope
  pub screlease_scope : FenceScope
  pub kernel_object : ℕ
  pub kernel_args : ℕ
  pub completion_signal : Option ℕ

abbrev pub unwrap_or_null : Option ℕ → ℕ
unwrap_or_null none = 0
unwrap_or_null (some s) = s

unfoldable pub check : DispatchPacket → Result QueueError (Unit {0})
check d =
    let wg = d.workgroup_size in
    let grid = d.grid_size in
    if wg.0 == 0 || wg.1 == 0 || wg.2 == 0
    then err workgroup_dim_size
    else if grid.0 == 0 || grid.1 == 0 || grid.2 == 0
    then err grid_dim_size
    else ok tt

-- The number that `initialize_packet` returns.
unfoldable pub dimensions : ℕ × ℕ × ℕ → ℕ
dimensions grid =
    if grid.0 == 1 && grid.1 == 1 && grid.2 == 1
    then 0
    else if grid.1 == 1 && grid.2 == 1
    then 1
    else if grid.2 == 1
    then 2
    else 3

unfoldable pub initialize_packet : DispatchPacket → Slot → Slot × ℕ
unfolding dimensions
initialize_packet d p = (
  record p {
    body =
        kernel_dispatch d.workgroup_size d.grid_size d.private_segment_size d.group_segment_size
          d.kernel_object d.kernel_args;
    completion_signal = unwrap_or_null d.completion_signal;
  },
  dimensions d.grid_size,
)

abbrev pub AllPositive : ℕ × ℕ × ℕ → Type 0
AllPositive t = (t.0 ≢ 0) × (t.1 ≢ 0) × (t.2 ≢ 0)

-- `check` accepts exactly the packets with no empty axis, and a fault of the workgroup is reported
-- before one of the grid.
pub check_iff :
    (d : DispatchPacket)
    → ((check d ≡ ok tt) ↔ (AllPositive d.workgroup_size × AllPositive d.grid_size))
      × (AllPositive d.workgroup_size ⊎ (check d ≡ err workgroup_dim_size))
unfolding check
check_iff d = ground arith

-- The number of dimensions is the least `n` such that every axis from the `n`-th on has length 1.
pub dimensions_lem :
    (g : ℕ × ℕ × ℕ)
    → (dimensions g ≤ 3)
      × ((dimensions g ≤ 2) ↔ (g.2 ≡ 1))
      × ((dimensions g ≤ 1) ↔ ((g.1 ≡ 1) × (g.2 ≡ 1)))
      × ((dimensions g ≡ 0) ↔ ((g.0 ≡ 1) × (g.1 ≡ 1) × (g.2 ≡ 1)))
unfolding dimensions
dimensions_lem g = ground arith
