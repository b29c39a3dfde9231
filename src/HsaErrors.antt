-- ===== src/HsaErrors.antt =====
-- hsa-rt/src/error.rs: the errors of the HSA wrapper, and what a status of the HSA runtime becomes.
use geobacter.Prelude.{◌≡◌, ◌↔◌, refl}
use geobacter.Prelude.Results.{Result, ok, err}
mod Tests

-- `enum Error`.
pub data HsaError : Type 0 where
  general exception frozen_executable incompatible_arguments invalid_agent : HsaError
  invalid_allocation invalid_argument invalid_cache invalid_code_object : HsaError
  invalid_code_object_reader invalid_code_symbol invalid_executable : HsaError
  invalid_executable_symbol invalid_file invalid_index invalid_isa invalid_isa_name : HsaError
  invalid_packet_format invalid_queue invalid_queue_creation invalid_region : HsaError
  invalid_runtime_state invalid_signal invalid_signal_group invalid_symbol_name : HsaError
  invalid_wavefront not_initialized out_of_resources overflow underflow resource_free : HsaError
  variable_already_defined variable_undefined image_format_unsupported : HsaError
  image_size_unsupported image_pitch_unsupported sampler_descriptor_unsupported : HsaError

-- The statuses that `from_status` names, and any other.
pub data HsaStatus : Type 0 where
  status_success status_error status_error_exception status_error_incompatible_arguments : HsaStatus
  status_error_invalid_agent status_error_invalid_allocation status_error_invalid_argument :
      HsaStatus
  status_error_invalid_cache status_error_invalid_code_object : HsaStatus
  status_error_invalid_code_object_reader status_error_invalid_code_symbol : HsaStatus
  status_error_invalid_executable status_error_invalid_executable_symbol : HsaStatus
  status_error_invalid_file status_error_invalid_index status_error_invalid_isa : HsaStatus
  status_error_invalid_isa_name status_error_invalid_packet_format : HsaStatus
  status_error_invalid_queue status_error_invalid_queue_creation status_error_invalid_region :
      HsaStatus
  status_error_invalid_runtime_state status_error_invalid_signal : HsaStatus
  status_error_invalid_signal_group status_error_invalid_symbol_name : HsaStatus
  status_error_invalid_wavefront status_error_not_initialized status_error_out_of_resources :
      HsaStatus
  status_error_refcount_overflow status_error_resource_free : HsaStatus
  status_error_variable_already_defined status_error_variable_undefined : HsaStatus
  status_error_image_size_unsupported status_error_image_pitch_unsupported : HsaStatus
  status_error_image_format_unsupported status_error_sampler_descriptor_unsupported : HsaStatus
  status_other : HsaStatus

unfoldable pub from_status : HsaStatus → Result HsaError (Unit {0})
from_status status_success = ok tt
from_status status_error = err general
from_status status_error_exception = err exception
from_status status_error_incompatible_arguments = err incompatible_arguments
from_status status_error_invalid_agent = err invalid_agent
from_status status_error_invalid_allocation = err invalid_allocation
from_status status_error_invalid_argument = err invalid_argument
from_status status_error_invalid_cache = err invalid_cache
from_status status_error_invalid_code_object = err invalid_code_object
from_status status_error_invalid_code_object_reader = err invalid_code_object_reader
from_status status_error_invalid_code_symbol = err invalid_code_symbol
from_status status_error_invalid_executable = err invalid_executable
from_status status_error_invalid_executable_symbol = err invalid_executable_symbol
from_status status_error_invalid_file = err invalid_file
from_status status_error_invalid_index = err invalid_index
from_status status_error_invalid_isa = err invalid_isa
from_status status_error_invalid_isa_name = err invalid_isa_name
from_status status_error_invalid_packet_format = err invalid_packet_format
from_status status_error_invalid_queue = err invalid_queue
from_status status_error_invalid_queue_creation = err invalid_queue_creation
from_status status_error_invalid_region = err invalid_region
from_status status_error_invalid_runtime_state = err invalid_runtime_state
from_status status_error_invalid_signal = err invalid_signal
from_status status_error_invalid_signal_group = err invalid_signal_group
from_status status_error_invalid_symbol_name = err invalid_symbol_name
from_status status_error_invalid_wavefront = err invalid_wavefront
from_status status_error_not_initialized = err not_initialized
from_status status_error_out_of_resources = err invalid_file
from_status status_error_refcount_overflow = err out_of_resources
from_status status_error_resource_free = err resource_free
from_status status_error_variable_already_defined = err variable_already_defined
from_status status_error_variable_undefined = err variable_undefined
from_status status_error_image_size_unsupported = err image_size_unsupported
from_status status_error_image_pitch_unsupported = err image_pitch_unsupported
from_status status_error_image_format_unsupported = err image_format_unsupported
from_status status_error_sampler_descriptor_unsupported = err sampler_descriptor_unsupported
from_status status_other = err general

-- A status becomes `Ok` exactly if it is the one of success.
pub from_status-success : (s : HsaStatus) → (from_status s ≡ ok tt) ↔ (s ≡ status_success)
unfolding from_status
from_status-success status_success = (λ h. refl, λ h. refl)
from_status-success status_error = (λ h. cc h, λ h. cc h)
from_status-success status_error_exception = (λ h. cc h, λ h. cc h)
from_status-success status_error_incompatible_arguments = (λ h. cc h, λ h. cc h)
from_status-success status_error_invalid_agent = (λ h. cc h, λ h. cc h)
from_status-success status_error_invalid_allocation = (λ h. cc h, λ h. cc h)
from_status-success status_error_invalid_argument = (λ h. cc h, λ h. cc h)
from_status-success status_error_invalid_cache = (λ h. cc h, λ h. cc h)
from_status-success status_error_invalid_code_object = (λ h. cc h, λ h. cc h)
from_status-success status_error_invalid_code_object_reader = (λ h. cc h, λ h. cc h)
from_status-success status_error_invalid_code_symbol = (λ h. cc h, λ h. cc h)
from_status-success status_error_invalid_executable = (λ h. cc h, λ h. cc h)
from_status-success status_error_invalid_executable_symbol = (λ h. cc h, λ h. cc h)
from_status-success status_error_invalid_file = (λ h. cc h, λ h. cc h)
from_status-success status_error_invalid_index = (λ h. cc h, λ h. cc h)
from_status-success status_error_invalid_isa = (λ h. cc h, λ h. cc h)
from_status-success status_error_invalid_isa_name = (λ h. cc h, λ h. cc h)
from_status-success status_error_invalid_packet_format = (λ h. cc h, λ h. cc h)
from_status-success status_error_invalid_queue = (λ h. cc h, λ h. cc h)
from_status-success status_error_invalid_queue_creation = (λ h. cc h, λ h. cc h)
from_status-success status_error_invalid_region = (λ h. cc h, λ h. cc h)
from_status-success status_error_invalid_runtime_state = (λ h. cc h, λ h. cc h)
from_status-success status_error_invalid_signal = (λ h. cc h, λ h. cc h)
from_status-success status_error_invalid_signal_group = (λ h. cc h, λ h. cc h)
from_status-success status_error_invalid_symbol_name = (λ h. cc h, λ h. cc h)
from_status-success status_error_invalid_wavefront = (λ h. cc h, λ h. cc h)
from_status-success status_error_not_initialized = (λ h. cc h, λ h. cc h)
from_status-success status_error_out_of_resources = (λ h. cc h, λ h. cc h)
from_status-success status_error_refcount_overflow = (λ h. cc h, λ h. cc h)
from_status-success status_error_resource_free = (λ h. cc h, λ h. cc h)
from_status-success status_error_variable_already_defined = (λ h. cc h, λ h. cc h)
from_status-success status_error_variable_undefined = (λ h. cc h, λ h. cc h)
from_status-success status_error_image_size_unsupported = (λ h. cc h, λ h. cc h)
from_status-success status_error_image_pitch_unsupported = (λ h. cc h, λ h. cc h)
from_status-success status_error_image_format_unsupported = (λ h. cc h, λ h. cc h)
from_status-success status_error_sampler_descriptor_unsupported = (λ h. cc h, λ h. cc h)
from_status-success status_other = (λ h. cc h, λ h. cc h)
