-- ===== src/Csd/Lease/Errors.antt =====
-- The errors of the shared disk (internal/csd/errors.go), and the results of calls that can fail.
use capper.Prelude.{String}

pub data Error : Type 0 where
  not_found access_denied store_failed : Error
  lease_conflict : String → Error

pub data Result {ℓ} (A : Type ℓ) : Type ℓ where
  ok : A → Result A
  err : Error → Result A
