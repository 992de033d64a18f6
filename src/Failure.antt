-- ===== src/Failure.antt =====
-- The errors that the services return, one constructor for each errors.New and fmt.Errorf; an error
-- that only wraps another with more text is the wrapped one.
use triovexa.Prelude.{String}
use triovexa.Domain.{IncidentState, ExecutionRecord, RollbackRecord}

-- What an adapter's error can be asked: whether it is context.DeadlineExceeded, and whether it is a
-- RetryableError (internal/execution/service.go).
pub data AdapterError : Type 0 where
  deadline_exceeded : AdapterError
  retryable : String → AdapterError
  permanent : String → AdapterError

-- err.Error().
abbrev pub error_text : AdapterError → String
error_text deadline_exceeded = "context deadline exceeded"
error_text (retryable s) = s
error_text (permanent s) = s

pub data Failure : Type 0 where
  -- storage.ErrNotFound
  not_found : Failure
  invalid_transition : IncidentState → IncidentState → Failure
  state_changed : IncidentState → IncidentState → Failure
  -- internal/approval/service.go
  approver_required not_awaiting already_decided cannot_be_approved : Failure
  -- internal/execution/service.go; two of them come with the record that is returned beside them
  adapter_missing initiator_required not_in_catalog not_executable high_risk : Failure
  duplicate_execution : ExecutionRecord → Failure
  attempt_limit not_approved medium_not_approved : Failure
  approval_expired approval_mismatch no_approval_record kill_switch_enabled : Failure
  environment_not_allowed target_not_allowed : Failure
  no_evidence_references : Failure
  evidence_missing evidence_stale evidence_incomplete : String → Failure
  lost_claim : ExecutionRecord → Failure
  no_longer_executable : Failure
  execution_error : ExecutionRecord → AdapterError → Failure
  verification_error : ExecutionRecord → Failure
  -- internal/execution/rollback_service.go
  no_rollback_plan rollback_not_in_catalog rollback_not_executable : Failure
  rollback_error : RollbackRecord → AdapterError → Failure
  -- internal/incident/service.go
  resolved_alert_ignored : Failure
  triage_generation_failed action_generation_failed : Failure
  unsupported_job undecodable_job : Failure
  alert_rejected : Failure
  -- internal/auth/service.go
  invalid_credentials weak_account unknown_role username_exists random_failed : Failure
  -- internal/verification/service.go: the model's own bound on the observations is used up
  out_of_fuel : Failure
