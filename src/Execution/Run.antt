-- ===== src/Execution/Run.antt =====
-- ExecuteAction of internal/execution/service.go: the tests, the claim, and the run.
use triovexa.Prelude.{
  ℕ, String, Bool, not, ◌&&◌, ◌||◌, List, [], ◌∷◌, Option, none, some, last, length, str_eq, ltb,
  leb, if◌then◌else◌,
}
use Prim.Native.String.{◌++◌}
use triovexa.Domain.{
  Time, Incident, executing_action, verifying_action, failed_remediation, CandidateAction,
  is_executable_status, is_approved, failed, succeeded, ExecutionRecord, started,
  succeeded_execution, execution_status_text, Details, text, number, VerificationResult,
}
use triovexa.Failure.{
  Failure, AdapterError, error_text, not_found, adapter_missing, initiator_required, not_in_catalog,
  not_executable, high_risk, duplicate_execution, attempt_limit, not_approved, medium_not_approved,
  kill_switch_enabled, lost_claim, no_longer_executable, execution_error, verification_error,
}
use triovexa.World.{
  Env, M, Dispatch, ◌>>=◌, ◌>>◌, pure, raise, when, handle, fetch, look, or_fail, attempt, guard,
  update, kill_switch_on, now, new_id,
}
use triovexa.Storage.Incidents.{get_incident}
use triovexa.Storage.Actions.{get_candidate_action, update_candidate_action_status}
use triovexa.Storage.Executions.{
  claim_execution, save_execution_record, list_execution_records_by_action,
}
use triovexa.Catalog.{Catalog, ActionDefinition, get_definition}
use triovexa.Policy.{is_medium, is_high}
use triovexa.Transition.{transition_incident_state}
use triovexa.Execution.Checks.{
  audit_step, find_duplicate_execution, validate_execution_scope, validate_approval,
  validate_evidence_freshness,
}
use triovexa.Execution.Retry.{Reply, execute_with_retry, map_execution_error_to_status}

-- Service of internal/execution/service.go. The verifier, if there is one, is a step of the state.
pub record Config : Type 0 where
  pub catalog : Catalog
  -- Whether an adapter and a kill switch are set.
  pub has_adapter : Bool
  pub has_kill_switch : Bool
  pub verifier : Option (CandidateAction → ExecutionRecord → M VerificationResult)
  pub timeout : Time
  pub retries : ℕ
  pub cooldown : Time
  pub evidence_max_age : Time

-- An action that passed the tests, with the incident it belongs to.
pub record Ticket : Type 0 where
  pub action : CandidateAction
  pub definition : ActionDefinition
  pub incident : Incident

abbrev pub idempotency_key : CandidateAction → String
idempotency_key action = "execute:" ++ action.id

module _ (env : Env) (c : Config) where
  -- A test that failed is audited before its error is returned.
  unfoldable pub refuse {ℓ} : {A : Type ℓ} → CandidateAction → String → Details → Failure → M A
  refuse action step_name details failure =
      audit_step env action.incident_id step_name
        (("candidate_action_id", text action.id) ∷ details)
      >> raise failure

  unfoldable pub refuse_duplicate : CandidateAction → Option ExecutionRecord → M (Unit {0})
  refuse_duplicate action none = pure tt
  refuse_duplicate action (some r) =
      refuse action "duplicate_execution_prevented" (("execution_record_id", text r.id) ∷ [])
        (duplicate_execution r)

  unfoldable pub refuse_scope : CandidateAction → Option Failure → M (Unit {0})
  refuse_scope action none = pure tt
  refuse_scope action (some e) = refuse action "execution_scope_validation_failed" [] e

  abbrev pub cooldown_of : ActionDefinition → Time
  cooldown_of d = if ltb 0 d.execution_cooldown then d.execution_cooldown else c.cooldown

  -- From the catalog to the limit of attempts.
  unfoldable pub check_history : CandidateAction → ActionDefinition → M (Unit {0})
  check_history action d = do
    existing ← look (list_execution_records_by_action action.id)
    at ← now env
    refuse_duplicate action
        (find_duplicate_execution existing (idempotency_key action) (cooldown_of d) at)
    when (ltb 0 d.max_execution_attempts && leb d.max_execution_attempts (length existing)) (
        refuse action "execution_attempt_limit_reached"
          (("max_attempts", number d.max_execution_attempts) ∷ []) attempt_limit)

  -- The approval and the kill switch.
  unfoldable pub check_permission : CandidateAction → ActionDefinition → M (Unit {0})
  check_permission action d = do
    guard (is_executable_status action.status) not_approved
    guard (not (is_medium d.risk_level) || is_approved action.status) medium_not_approved
    when (is_approved action.status) (validate_approval env action)
    killed ← kill_switch_on
    when (c.has_kill_switch && killed)
        (refuse action "execution_blocked_by_kill_switch" [] kill_switch_enabled)

  -- All the tests before the claim.
  unfoldable pub authorize : String → String → M Ticket
  authorize action_id initiated_by = do
    guard c.has_adapter adapter_missing
    guard (not (str_eq initiated_by "")) initiator_required
    action ← fetch (get_candidate_action action_id) not_found
    d ← or_fail (get_definition c.catalog action.action_type) not_in_catalog
    guard d.executable not_executable
    guard (not (is_high d.risk_level)) high_risk
    check_history action d
    check_permission action d
    incident ← fetch (get_incident action.incident_id) not_found
    refuse_scope action (validate_execution_scope action incident d)
    handle (validate_evidence_freshness env c.evidence_max_age action)
        (refuse action "execution_evidence_validation_failed" [])
    pure (record { action = action; definition = d; incident = incident })

  abbrev pub started_record : String → Ticket → String → Time → Time → ExecutionRecord
  started_record id t initiated_by from to = record {
    id = id;
    candidate_action_id = t.action.id;
    idempotency_key = idempotency_key t.action;
    initiated_by = initiated_by;
    executor_type = "demo-http-adapter";
    status = started;
    started_at = from;
    finished_at = to;
    result = ("status", text "execution_requested") ∷ [];
  }

  -- The claim lost: the last record of the action, if any, comes with the error.
  unfoldable pub claim_lost {ℓ} : {A : Type ℓ} → List ExecutionRecord → M A
  claim_lost existing = elim (last existing) [
    | none ↦ raise no_longer_executable
    | some r ↦ raise (lost_claim r)
  ]

  unfoldable pub claim : Ticket → String → M ExecutionRecord
  claim t initiated_by = do
    id ← new_id env
    from ← now env
    to ← now env
    stored_at ← now env
    claimed ← attempt (
        claim_execution stored_at t.incident.id t.action.id
          (started_record id t initiated_by from to))
    when (not claimed)
        do existing ← look (list_execution_records_by_action t.action.id); claim_lost existing
    pure (started_record id t initiated_by from to)

  abbrev pub call_of : CandidateAction → String → Dispatch
  call_of action initiated_by = record {
    action = action;
    request = record {
      idempotency_key = idempotency_key action;
      timeout = c.timeout;
      initiated_by = initiated_by;
    };
  }

  -- The adapter failed.
  unfoldable pub finish_failed :
      Ticket → Incident → ExecutionRecord → AdapterError → M ExecutionRecord
  finish_failed t incident r e = do
    update (save_execution_record r)
    update (update_candidate_action_status t.action.id failed)
    _ ← transition_incident_state env incident failed_remediation
    audit_step env t.action.incident_id "execution_failed" (
        ("candidate_action_id", text t.action.id)
        ∷ ("execution_record_id", text r.id)
        ∷ ("status", text (execution_status_text r.status))
        ∷ ("error", text (error_text e))
        ∷ [])
    raise (execution_error r e)

  unfoldable pub verify_with :
      Option (CandidateAction → ExecutionRecord → M VerificationResult)
      → CandidateAction
      → ExecutionRecord
      → M (Unit {0})
  verify_with none action r = pure tt
  verify_with (some verify) action r = do
    _ ← handle (verify action r) (λ e. raise (verification_error r))
    pure tt

  -- The adapter succeeded.
  unfoldable pub finish_succeeded : Ticket → Incident → ExecutionRecord → M ExecutionRecord
  finish_succeeded t incident r = do
    update (save_execution_record r)
    update (update_candidate_action_status t.action.id succeeded)
    _ ← transition_incident_state env incident verifying_action
    audit_step env t.action.incident_id "execution_completed" (
        ("candidate_action_id", text t.action.id)
        ∷ ("execution_record_id", text r.id)
        ∷ ("status", text (execution_status_text r.status))
        ∷ [])
    verify_with c.verifier t.action r
    pure r

  abbrev pub finish : Ticket → Incident → ExecutionRecord → Time → Reply → M ExecutionRecord
  finish t incident r at (result, none) = finish_succeeded t incident (record r {
    executor_type = result.executor_type;
    status = succeeded_execution;
    finished_at = at;
    result = result.payload;
  })
  finish t incident r at (result, some e) =
      finish_failed t incident
        (record r {
          executor_type = result.executor_type;
          status = map_execution_error_to_status e;
          finished_at = at;
          result = ("error", text (error_text e)) ∷ [];
        })
        e

  -- From the claim to the end.
  unfoldable pub run : Ticket → ExecutionRecord → String → M ExecutionRecord
  run t r initiated_by = do
    updated_at ← now env
    audit_step env t.action.incident_id "execution_requested" (
        ("candidate_action_id", text t.action.id)
        ∷ ("execution_record_id", text r.id)
        ∷ ("initiated_by", text initiated_by)
        ∷ [])
    audit_step env t.action.incident_id "execution_started"
        (("candidate_action_id", text t.action.id) ∷ ("execution_record_id", text r.id) ∷ [])
    reply ← execute_with_retry env (call_of t.action initiated_by) c.retries
    at ← now env
    finish t (record t.incident { state = executing_action; updated_at = updated_at }) r at reply

  unfoldable pub execute_action : String → String → M ExecutionRecord
  execute_action action_id initiated_by = do
    t ← authorize action_id initiated_by
    r ← claim t initiated_by
    run t r initiated_by
