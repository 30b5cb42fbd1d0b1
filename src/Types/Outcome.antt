-- ===== src/Types/Outcome.antt =====
-- `DeletionOutcome` and `DeletionError` of src/types/mod.rs.
use s3rm_rs.Base.{ℕ, Bool, true, false, Option, String, ◌<>◌}

pub data DeletionError : Type 0 where
  not_found access_denied precondition_failed throttled : DeletionError
  network_error service_error : String → DeletionError

unfoldable pub is_retryable : DeletionError → Bool
is_retryable throttled = true
is_retryable (network_error m) = true
is_retryable (service_error m) = true
is_retryable _ = false

-- `Display`
unfoldable pub display : DeletionError → String
display not_found = "Object not found"
display access_denied = "Access denied"
display precondition_failed = "Precondition failed (ETag mismatch)"
display throttled = "Request throttled"
display (network_error msg) = "Network error: " <> msg
display (service_error msg) = "Service error: " <> msg

pub data DeletionOutcome : Type 0 where
  success : String → Option String → DeletionOutcome
  failed : String → Option String → DeletionError → ℕ → DeletionOutcome

unfoldable pub is_success : DeletionOutcome → Bool
is_success (success k v) = true
is_success (failed k v e n) = false

unfoldable pub key : DeletionOutcome → String
key (success k v) = k
key (failed k v e n) = k

unfoldable pub version_id : DeletionOutcome → Option String
version_id (success k v) = v
version_id (failed k v e n) = v
