-- ===== src/Approval.antt =====
-- internal/approval/service.go over the store in memory, whose DecideApproval is one step. The
-- metrics are left out.
pub mod Moves
pub mod Once
pub mod Verdicts
pub mod Rejection
pub mod Exclusion
pub mod Silence
use triovexa.Prelude.{
  ℕ, suc, ◌+◌, ◌*◌, ltb, String, Bool, true, false, not, ◌&&◌, ◌||◌, List, [], ◌∷◌, Option, none,
  some, keep, length, str_eq, trim_space, join, if◌then◌else◌,
}
use triovexa.Domain.{
  Time, minute, Incident, IncidentState, same_state, action_proposed, awaiting_approval, approved,
  CandidateAction, CandidateActionStatus, is_invalid, is_executable_status, is_awaiting, awaiting,
  allowed, denied, approved_status, risk_text, PolicyDecision, PolicyDecisionType, allow,
  approval_required, deny, ApprovalRecord, approved_decision, rejected_decision, Json, text, number,
  flag,
}
use triovexa.Failure.{
  not_found, approver_required, not_awaiting, already_decided, cannot_be_approved,
}
use triovexa.World.{
  World, Env, M, ok, ◌>>=◌, ◌>>◌, pure, when, fetch, look, attempt, guard, modify, update,
  kill_switch_on, now, new_id, audit, audit_now,
}
use triovexa.StateMachine.{can_transition}
use triovexa.Storage.Incidents.{get_incident, put_setting}
use triovexa.Storage.Actions.{
  list_candidate_actions, get_candidate_action, update_candidate_action_status,
  save_policy_decisions, get_policy_decision,
}
use triovexa.Storage.Approvals.{decide_approval}
use triovexa.Transition.{transition_incident_state}
use triovexa.Policy.{Evaluator, evaluate, is_empty}

-- strings.Join of the fields with NUL between them, and the hash of the result
-- (internal/domain/approval.go).
unfoldable pub action_approval_digest : Env → CandidateAction → String → String
action_approval_digest env action policy_version = env.sha256_hex (
    join (
      action.id
      ∷ action.action_type
      ∷ action.target_resource
      ∷ action.parameters_json
      ∷ risk_text action.risk_level
      ∷ trim_space policy_version
      ∷ []))

abbrev pub filter_evaluable_actions : List CandidateAction → List CandidateAction
filter_evaluable_actions = keep (λ (a : CandidateAction). not (is_invalid a.status))

abbrev pub status_from_decision : PolicyDecisionType → CandidateActionStatus
status_from_decision allow = allowed
status_from_decision approval_required = awaiting
status_from_decision deny = denied

-- How many of the decisions are of a kind.
abbrev pub count_decisions : (PolicyDecisionType → Bool) → List PolicyDecision → ℕ
count_decisions p ds = length (keep (λ (d : PolicyDecision). p d.decision) ds)

abbrev pub is_allow : PolicyDecisionType → Bool
is_allow allow = true
is_allow _ = false

abbrev pub is_asking : PolicyDecisionType → Bool
is_asking approval_required = true
is_asking _ = false

abbrev pub is_deny : PolicyDecisionType → Bool
is_deny deny = true
is_deny _ = false

-- The loop of refreshIncidentState, with its `break`.
unfoldable pub refreshed_state : List CandidateAction → IncidentState → IncidentState
refreshed_state [] next = next
refreshed_state (action ∷ actions) next =
    let rest =
      refreshed_state actions (if is_awaiting action.status then awaiting_approval else next) in
    if is_executable_status action.status then approved else rest

module _ (env : Env) where
  unfoldable pub refresh_incident_state : Incident → M Incident
  refresh_incident_state incident = do
    actions ← look (list_candidate_actions incident.id)
    transition_incident_state env incident (refreshed_state actions action_proposed)

  module _ (evaluator : Evaluator) where
    -- One round of the loop: the action is judged under the kill switch of that moment.
    unfoldable pub decide_one : String → CandidateAction → M PolicyDecision
    decide_one environment action = do
      killed ← kill_switch_on
      at ← now env
      id ← new_id env
      let decision = record (evaluate evaluator at action environment killed) { id = id }
      update (update_candidate_action_status action.id (status_from_decision decision.decision))
      pure decision

    unfoldable pub decide_all : String → List CandidateAction → M (List PolicyDecision)
    decide_all environment [] = pure []
    decide_all environment (action ∷ actions) = do
      decision ← decide_one environment action
      decisions ← decide_all environment actions
      pure (decision ∷ decisions)

    unfoldable pub evaluate_filtered : Incident → List CandidateAction → M Incident
    evaluate_filtered incident filtered = do
      started_at ← now env
      audit env incident.id "policy_evaluation" "started"
          (("action_count", number (length filtered)) ∷ []) started_at started_at
      decisions ← decide_all incident.environment filtered
      modify (save_policy_decisions decisions)
      killed ← kill_switch_on
      finished_at ← now env
      audit env incident.id "policy_evaluation" "completed"
          (("allowed_count", number (count_decisions is_allow decisions))
            ∷ ("approval_required_count", number (count_decisions is_asking decisions))
            ∷ ("denied_count", number (count_decisions is_deny decisions))
            ∷ ("kill_switch_enabled", flag killed)
            ∷ [])
          started_at finished_at
      when (ltb 0 (count_decisions is_deny decisions)) (
          audit_now env incident.id "policy_denied" "completed"
            (("denied_count", number (count_decisions is_deny decisions)) ∷ []))
      when (ltb 0 (count_decisions is_asking decisions)) (
          audit_now env incident.id "approval_requested" "completed"
            (("approval_required_count", number (count_decisions is_asking decisions)) ∷ []))
      refresh_incident_state incident

    unfoldable pub evaluate_actions : Incident → List CandidateAction → M Incident
    evaluate_actions incident actions =
        if is_empty (filter_evaluable_actions actions)
        then pure incident
        else evaluate_filtered incident (filter_evaluable_actions actions)

  -- The record that an approval or a rejection leaves.
  abbrev pub approval_record :
      String → String → CandidateAction → PolicyDecision → String → String → Time → ApprovalRecord
  approval_record id action_id action decision approved_by note at = record {
    id = id;
    candidate_action_id = action_id;
    approved_by = approved_by;
    decision = approved_decision;
    note = note;
    action_digest = action_approval_digest env action decision.policy_rule_ref;
    policy_version = decision.policy_rule_ref;
    expires_at = at + 15 * minute;
    created_at = at;
  }

  abbrev pub rejection_record : String → String → String → String → Time → ApprovalRecord
  rejection_record id action_id rejected_by note at = record {
    id = id;
    candidate_action_id = action_id;
    approved_by = rejected_by;
    decision = rejected_decision;
    note = note;
    action_digest = "";
    policy_version = "";
    expires_at = 0;
    created_at = at;
  }

  -- The second half of ApproveAction: the incident's state is checked, and the record is stored.
  unfoldable pub store_approval : String → Incident → ApprovalRecord → M CandidateAction
  store_approval incident_id incident record_ = do
    guard (same_state incident.state approved || can_transition incident.state approved)
        cannot_be_approved
    stored_at ← now env
    updated ← attempt (
        decide_approval stored_at incident_id record_ awaiting approved_status (some incident.state)
          (some approved))
    guard updated already_decided
    audit_now env incident.id "action_approved" "completed" (
        ("candidate_action_id", text record_.candidate_action_id)
        ∷ ("approved_by", text record_.approved_by)
        ∷ [])
    fetch (get_candidate_action record_.candidate_action_id) not_found

  unfoldable pub approve_action : String → String → String → M CandidateAction
  approve_action action_id approved_by note = do
    guard (not (str_eq (trim_space approved_by) "")) approver_required
    action ← fetch (get_candidate_action action_id) not_found
    guard (is_awaiting action.status) not_awaiting
    decision ← fetch (get_policy_decision action_id) not_found
    at ← now env
    id ← new_id env
    incident ← fetch (get_incident action.incident_id) not_found
    store_approval action.incident_id incident
        (approval_record id action_id action decision approved_by note at)

  unfoldable pub reject_action : String → String → String → M CandidateAction
  reject_action action_id rejected_by note = do
    guard (not (str_eq (trim_space rejected_by) "")) approver_required
    action ← fetch (get_candidate_action action_id) not_found
    guard (is_awaiting action.status) not_awaiting
    id ← new_id env
    at ← now env
    incident ← fetch (get_incident action.incident_id) not_found
    stored_at ← now env
    updated ← attempt (
        decide_approval stored_at action.incident_id
          (rejection_record id action_id rejected_by note at) awaiting denied none none)
    guard updated already_decided
    _ ← refresh_incident_state incident
    audit_now env action.incident_id "action_rejected" "completed"
        (("candidate_action_id", text action_id) ∷ ("approved_by", text rejected_by) ∷ [])
    fetch (get_candidate_action action_id) not_found

  -- SetKillSwitch: PutSetting of the store in memory does not fail.
  unfoldable pub set_kill_switch : Bool → M Bool
  set_kill_switch enabled w = ok enabled (record w {
    store = put_setting "safety.kill_switch" (if enabled then "true" else "false") w.store;
    kill_switch = enabled;
    kill_switch_at = env.clock w.reads;
    reads = suc w.reads;
  })
