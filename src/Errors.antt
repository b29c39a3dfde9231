-- ===== src/Errors.antt =====
-- The error enums of runtime-amd/src/error.rs and hsa-rt/src/queue.rs, as far as the modelled code
-- returns them: the variants that carry values of other crates are left out.
use geobacter.Layout.{Layout}
use geobacter.HsaErrors
use geobacter.HsaErrors.{HsaError}

pub data QueueError : Type 0 where
  full workgroup_dim_size grid_dim_size : QueueError

pub data Error : Type 0 where
  underflow overflow zero_grid_launch_axis kernel_args_pool_oom : Error
  hsa_queue : QueueError → Error
  hsa : HsaError → Error
  alloc : Layout → Error
  kernel_workgroup_dim_too_large_for_device kernel_workgroup_len_too_large_for_device : Error
  launch_grid_dim_too_large_for_device launch_grid_len_too_large_for_device : Error

-- `alloc_wg::collections::TryReserveError`.
pub data TryReserveError : Type 0 where
  capacity_overflow : TryReserveError
  alloc_error : Layout → TryReserveError

-- `impl From<TryReserveError> for Error`.
unfoldable pub from_try_reserve_error : TryReserveError → Error
from_try_reserve_error capacity_overflow = overflow
from_try_reserve_error (alloc_error l) = alloc l

-- `impl From<HsaError> for Error`.
unfoldable pub from_hsa_error : HsaError → Error
from_hsa_error HsaErrors.overflow = overflow
from_hsa_error e = hsa e

-- `impl From<QueueError> for Error`.
unfoldable pub from_queue_error : QueueError → Error
from_queue_error e = hsa_queue e

-- How a call ends that does not return `Ok`: it panics (`unreachable!`, `assert!`, `expect`), or it
-- returns an error.
pub data Stop : Type 0 where
  panic : Stop
  failed : Error → Stop
