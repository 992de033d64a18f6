-- ===== src/Execution/Recovery.antt =====
-- RecoverStartedExecutions of internal/execution/service.go, run when the process starts.
pub mod Effects
pub mod Exclusion
use triovexa.Prelude.{
  ℕ, String, List, [], ◌∷◌, Option, none, some, put, length, str_eq, if◌then◌else◌,
}
use triovexa.Domain.{
  Details, text, CandidateAction, CandidateActionStatus, succeeded, failed, Incident, IncidentState,
  verifying_action, failed_remediation, escalated, ExecutionRecord, VerificationResult,
  succeeded_execution, failed_execution, inconclusive, execution_status_text,
}
use triovexa.Failure.{not_found}
use triovexa.Storage.Incidents.{get_incident}
use triovexa.Storage.Actions.{get_candidate_action, update_candidate_action_status}
use triovexa.Storage.Executions.{save_execution_record, list_started_execution_records}
use triovexa.World.{
  Env, M, AdapterRequest, AdapterResult, ◌>>=◌, ◌>>◌, pure, fetch, look, update, now,
}
use triovexa.Transition.{transition_incident_state}
use triovexa.Execution.Checks.{audit_step}
use triovexa.Execution.Run.{Config}

pub data ReconciliationStatus : Type 0 where
  reconciliation_succeeded reconciliation_failed reconciliation_pending reconciliation_unknown :
      ReconciliationStatus
  -- Any other text.
  other_status : String → ReconciliationStatus

abbrev pub reconciliation_text : ReconciliationStatus → String
reconciliation_text reconciliation_succeeded = "succeeded"
reconciliation_text reconciliation_failed = "failed"
reconciliation_text reconciliation_pending = "pending"
reconciliation_text reconciliation_unknown = "unknown"
reconciliation_text (other_status s) = s

-- OperationReconciler, which an adapter may implement: the result, the status and the error's text.
abbrev pub Reconciler : Type 0
Reconciler = CandidateAction → AdapterRequest → AdapterResult × ReconciliationStatus × Option String

abbrev after_error :
    AdapterResult × ReconciliationStatus × Option String → AdapterResult × ReconciliationStatus
after_error (result, status, none) = (result, status)
after_error (result, status, some e) =
    (record result { payload = ("reconciliation_error", text e) ∷ [] }, reconciliation_unknown)

module _ (env : Env) (c : Config) (reconciler : Option Reconciler) where
  -- What the adapter says of the execution.
  abbrev pub reconcile : CandidateAction → ExecutionRecord → AdapterResult × ReconciliationStatus
  reconcile action r = elim reconciler [
    | none ↦ (record { executor_type = r.executor_type; payload = [] }, reconciliation_unknown)
    | some ask ↦ after_error (
        ask action (record {
          idempotency_key = r.idempotency_key;
          timeout = c.timeout;
          initiated_by = r.initiated_by;
        }))
  ]

  -- The three branches save the record and move the action and the incident.
  unfoldable pub settle :
      CandidateAction
      → Incident
      → ExecutionRecord
      → CandidateActionStatus
      → IncidentState
      → M Incident
  settle action incident r status next = do
    update (save_execution_record r)
    update (update_candidate_action_status action.id status)
    transition_incident_state env incident next

  -- The verifier's error is returned as it is.
  unfoldable pub verify_recovered :
      Option (CandidateAction → ExecutionRecord → M VerificationResult)
      → CandidateAction
      → ExecutionRecord
      → M (Unit {0})
  verify_recovered none action r = pure tt
  verify_recovered (some verify) action r = do _ ← verify action r; pure tt

  -- The `switch` on the status.
  unfoldable pub settle_by :
      CandidateAction
      → Incident
      → ExecutionRecord
      → AdapterResult
      → ReconciliationStatus
      → M ExecutionRecord
  settle_by action incident r result reconciliation_succeeded = do
    let after : ExecutionRecord = record r { status = succeeded_execution; result = result.payload }
    _ ← settle action incident after succeeded verifying_action
    verify_recovered c.verifier action after
    pure after
  settle_by action incident r result reconciliation_failed = do
    let after : ExecutionRecord = record r { status = failed_execution; result = result.payload }
    _ ← settle action incident after failed failed_remediation
    pure after
  settle_by action incident r result status = do
    let after : ExecutionRecord = record r {
      status = inconclusive;
      result = put "reconciliation_status" (text (reconciliation_text status)) result.payload;
    }
    _ ← settle action incident after failed escalated
    pure after

  unfoldable pub recover_one : ExecutionRecord → M (Unit {0})
  recover_one r = do
    action ← fetch (get_candidate_action r.candidate_action_id) not_found
    let reconciled : AdapterResult × ReconciliationStatus = reconcile action r
    at ← now env
    incident ← fetch (get_incident action.incident_id) not_found
    after ←
        settle_by action incident
          (record r {
            executor_type =
                if str_eq reconciled.0.executor_type ""
                then "unknown"
                else reconciled.0.executor_type;
            finished_at = at;
          })
          reconciled.0 reconciled.1
    audit_step env action.incident_id "execution_reconciled" (
        ("execution_record_id", text after.id)
        ∷ ("status", text (execution_status_text after.status))
        ∷ [])

  unfoldable pub recover_each : List ExecutionRecord → M (Unit {0})
  recover_each [] = pure tt
  recover_each (r ∷ rs) = recover_one r >> recover_each rs

  unfoldable pub recover_started_executions : M ℕ
  recover_started_executions = do
    records ← look list_started_execution_records
    recover_each records
    pure (length records)
