-- ===== src/HsaErrors/Tests.antt =====
-- Statuses and their errors.
use geobacter.Prelude.{◌≡◌, ◌↔◌, refl}
use geobacter.Prelude.Results.{ok, err}
use geobacter.HsaErrors.{
  from_status, from_status-success, status_success, status_error_out_of_resources, invalid_file,
}

from_status-success_example :
    (from_status status_error_out_of_resources ≡ ok tt)
    ↔ (status_error_out_of_resources ≡ status_success)
from_status-success_example = from_status-success status_error_out_of_resources

-- Resources that have run out are reported as a file that is not valid.
out_of_resources_test : from_status status_error_out_of_resources ≡ err invalid_file
unfolding from_status
out_of_resources_test = refl
