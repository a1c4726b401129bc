-- ===== src/Tasks/Errors.antt =====
-- The exceptions that the repository and the task services raise, and what a call returns.
pub data TaskError : Type 0 where
  idempotency_conflict approval_consumed approval_expired approval_digest_mismatch : TaskError
  invalid_request_identifier task_not_found approval_not_found invalid_pagination : TaskError
  -- `KeyError("task does not exist")`, and the `KeyError` of a projection that is missing
  task_does_not_exist : TaskError
  -- the `ValueError`s, by their text; `empty_max` is that of `max` over nothing
  projection_identity_is_immutable sequence_must_be_contiguous event_id_must_be_unique : TaskError
  approval_must_be_pending approval_ownership_mismatch empty_max : TaskError

pub data Result {ℓ} (A : Type ℓ) : Type ℓ where
  ok : A → Result A
  err : TaskError → Result A
