-- ===== src/Verification/Conclude.antt =====
-- VerifyExecution of internal/verification/service.go.
use triovexa.Prelude.{
  String, Bool, true, false, not, ◌&&◌, List, [], ◌∷◌, Option, none, some, str_eq, if◌then◌else◌,
}
use triovexa.Domain.{
  Time, Incident, resolved, failed_remediation, rolled_back, escalated, CandidateAction, failed,
  ExecutionRecord, VerificationStatus, success, failed_verification, inconclusive_verification,
  VerificationResult, RollbackRecord, Details, text, number, flag, formatted, checks, snapshot,
  snapshots,
}
use triovexa.Failure.{not_found}
use triovexa.Storage.Incidents.{get_incident}
use triovexa.Storage.Actions.{update_candidate_action_status}
use triovexa.Storage.Outcomes.{save_verification_result}
use triovexa.Catalog.{ActionDefinition, get_definition}
use triovexa.World.{Env, M, ◌>>=◌, ◌>>◌, pure, fetch, update, now, new_id, audit, caught}
use triovexa.Transition.{transition_incident_state}
use triovexa.Execution.Rollback.{RollbackConfig, rollback_action}
use triovexa.Verification.Checks.{Checks}
use triovexa.Verification.Evaluate.{VerificationConfig, Evaluation, evaluate}

abbrev pub verification_status_text : VerificationStatus → String
verification_status_text success = "success"
verification_status_text failed_verification = "failed"
verification_status_text inconclusive_verification = "inconclusive"

abbrev pub is_success : VerificationStatus → Bool
is_success success = true
is_success _ = false

abbrev checks_map : Option Checks → List (String × Bool)
checks_map none = []
checks_map (some c) =
    ("alert_cleared", c.alert_cleared)
    ∷ ("health_check_normal", c.health_check_normal)
    ∷ ("error_rate_improved", c.error_rate_improved)
    ∷ ("latency_improved", c.latency_improved)
    ∷ ("queue_backlog_improved", c.queue_backlog_improved)
    ∷ ("error_rate_worsened", c.error_rate_worsened)
    ∷ ("latency_worsened", c.latency_worsened)
    ∷ ("queue_backlog_worsened", c.queue_backlog_worsened)
    ∷ []

-- %t of a check, which is false where the map has no such key.
abbrev bool_text : Bool → String
bool_text true = "true"
bool_text false = "false"

abbrev check_text : (Checks → Bool) → Option Checks → String
check_text f none = "false"
check_text f (some c) = bool_text (f c)

abbrev outcome_text : VerificationStatus → String
outcome_text success = "appears mitigated"
outcome_text failed_verification = "remains degraded and requires escalation"
outcome_text inconclusive_verification = "shows mixed signals and requires escalation"

-- buildDraftStatusUpdate: the format and its arguments.
abbrev pub build_draft_status_update :
    Incident → CandidateAction → ExecutionRecord → Evaluation → List String
build_draft_status_update incident action r e =
    "Incident %q for service %s %s after action %s executed by %s. Checks: alert_cleared=%t health_check_normal=%t error_rate_improved=%t latency_improved=%t queue_backlog_improved=%t."
    ∷ incident.title
    ∷ incident.service_name
    ∷ outcome_text e.status
    ∷ action.action_type
    ∷ r.initiated_by
    ∷ check_text (λ c. c.alert_cleared) e.checks
    ∷ check_text (λ c. c.health_check_normal) e.checks
    ∷ check_text (λ c. c.error_rate_improved) e.checks
    ∷ check_text (λ c. c.latency_improved) e.checks
    ∷ check_text (λ c. c.queue_backlog_improved) e.checks
    ∷ []

module _ (env : Env) (c : VerificationConfig) where
  abbrev pub comparison : Evaluation → Details → Details
  comparison e rest =
      ("before", snapshot e.before)
      ∷ ("after", snapshot e.after)
      ∷ ("observations", snapshots e.observations)
      ∷ ("required_observations", number c.required_observations)
      ∷ ("checks", checks (checks_map e.checks))
      ∷ rest

  abbrev pub result_of :
      String → Time → Incident → CandidateAction → ExecutionRecord → Evaluation → VerificationResult
  result_of id at incident action r e = record {
    id = id;
    execution_record_id = r.id;
    status = e.status;
    evidence = comparison e (
        ("draft_status_update", formatted (build_draft_status_update incident action r e))
        ∷ ("escalation_recommended", flag (not (is_success e.status)))
        ∷ []);
    notes = e.notes;
    created_at = at;
  }

  abbrev pub details_of : CandidateAction → ExecutionRecord → VerificationResult → Details → Details
  details_of action r result rest =
      ("candidate_action_id", text action.id)
      ∷ ("execution_record_id", text r.id)
      ∷ ("verification_id", text result.id)
      ∷ rest

  -- An audit event from the begin of the verification to a new reading of the clock.
  unfoldable pub audit_since : Time → CandidateAction → String → Details → M (Unit {0})
  audit_since started_at action step_name details = do
    at ← now env
    audit env action.incident_id step_name "completed" details started_at at

  -- The last steps of the branches that do not return before.
  unfoldable pub escalate :
      Time
      → CandidateAction
      → ExecutionRecord
      → Evaluation
      → Incident
      → VerificationResult
      → M VerificationResult
  escalate started_at action r e incident result = do
    _ ← transition_incident_state env incident escalated
    audit_since started_at action "escalation_triggered" (
        details_of action r result (
          ("verification_status", text (verification_status_text e.status))
          ∷ ("reason", text e.notes)
          ∷ []))
    pure result

  abbrev pub rollback_failed_result :
      Evaluation → Incident → String → VerificationResult → VerificationResult
  rollback_failed_result e incident key result = record result {
    evidence = comparison e (
        (
          "draft_status_update",
          formatted (
              "Incident %q still requires escalation because verification failed and rollback %q also failed."
              ∷ incident.title ∷ key ∷ []),
        )
        ∷ ("escalation_recommended", flag true)
        ∷ ("rollback_attempted", flag true)
        ∷ ("rollback_succeeded", flag false)
        ∷ ("rollback_action_key", text key)
        ∷ []);
    notes = "verification failed and automatic rollback also failed; incident requires escalation";
  }

  abbrev pub rolled_back_result :
      Evaluation
      → Incident
      → CandidateAction
      → RollbackRecord
      → VerificationResult
      → VerificationResult
  rolled_back_result e incident action rolled result = record result {
    evidence = comparison e (
        (
          "draft_status_update",
          formatted (
              "Incident %q was safely rolled back after action %s degraded the service."
              ∷ incident.title ∷ action.action_type ∷ []),
        )
        ∷ ("escalation_recommended", flag false)
        ∷ ("rollback_attempted", flag true)
        ∷ ("rollback_succeeded", flag true)
        ∷ ("rollback_record_id", text rolled.id)
        ∷ ("rollback_action_key", text rolled.rollback_action_key)
        ∷ []);
    notes =
        "verification failed, but automatic rollback succeeded and incident was moved to rolled_back";
  }

  -- After the rollback: `none` is its failure.
  unfoldable pub after_rollback :
      Time
      → CandidateAction
      → ExecutionRecord
      → Evaluation
      → Incident
      → VerificationResult
      → String
      → Option RollbackRecord
      → M VerificationResult
  after_rollback started_at action r e incident result key none = do
    update (save_verification_result (rollback_failed_result e incident key result))
    audit_since started_at action "rollback_failed"
        (details_of action r result (("rollback_action_key", text key) ∷ []))
    escalate started_at action r e incident (rollback_failed_result e incident key result)
  after_rollback started_at action r e incident result key (some rolled) = do
    update (save_verification_result (rolled_back_result e incident action rolled result))
    _ ← transition_incident_state env incident rolled_back
    audit_since started_at action "rollback_succeeded" (
        details_of action r result (
          ("rollback_record_id", text rolled.id)
          ∷ ("rollback_action_key", text rolled.rollback_action_key)
          ∷ []))
    pure (rolled_back_result e incident action rolled result)

  unfoldable pub roll_back :
      Time
      → CandidateAction
      → ExecutionRecord
      → Evaluation
      → Incident
      → VerificationResult
      → String
      → RollbackConfig
      → M VerificationResult
  roll_back started_at action r e incident result key rollbacker = do
    audit env action.incident_id "rollback_triggered" "started"
        (details_of action r result (("rollback_action_key", text key) ∷ [])) started_at started_at
    rolled ← caught (
        rollback_action env rollbacker action "system:auto-rollback"
          "automatic rollback triggered after failed verification")
    after_rollback started_at action r e incident result key rolled

  -- Where the catalog has a plan to take the action back and there is a rollback service.
  unfoldable pub try_rollback :
      Time
      → CandidateAction
      → ExecutionRecord
      → Evaluation
      → Incident
      → VerificationResult
      → Option ActionDefinition
      → Option RollbackConfig
      → M VerificationResult
  try_rollback started_at action r e incident result (some d) (some rollbacker) =
      if d.supports_rollback && not (str_eq d.rollback_action_key "")
      then roll_back started_at action r e incident result d.rollback_action_key rollbacker
      else escalate started_at action r e incident result
  try_rollback started_at action r e incident result _ _ =
      escalate started_at action r e incident result

  -- The `switch` on the status.
  unfoldable pub conclude :
      Time
      → CandidateAction
      → ExecutionRecord
      → Evaluation
      → Incident
      → VerificationResult
      → VerificationStatus
      → M VerificationResult
  conclude started_at action r e incident result success = do
    _ ← transition_incident_state env incident resolved
    audit_since started_at action "verification_succeeded" (details_of action r result [])
    pure result
  conclude started_at action r e incident result failed_verification = do
    update (update_candidate_action_status action.id failed)
    moved ← transition_incident_state env incident failed_remediation
    audit_since started_at action "verification_failed" (details_of action r result [])
    try_rollback started_at action r e moved result (get_definition c.catalog action.action_type)
        c.rollbacker
  conclude started_at action r e incident result inconclusive_verification = do
    update (update_candidate_action_status action.id failed)
    audit_since started_at action "verification_inconclusive" (details_of action r result [])
    escalate started_at action r e incident result

  unfoldable pub verify_execution : CandidateAction → ExecutionRecord → M VerificationResult
  verify_execution action r = do
    started_at ← now env
    audit env action.incident_id "verification_started" "started"
        (("candidate_action_id", text action.id) ∷ ("execution_record_id", text r.id) ∷ [])
        started_at started_at
    e ← evaluate env c action
    incident ← fetch (get_incident action.incident_id) not_found
    id ← new_id env
    created_at ← now env
    update (save_verification_result (result_of id created_at incident action r e))
    conclude started_at action r e incident (result_of id created_at incident action r e) e.status
