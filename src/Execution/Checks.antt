-- ===== src/Execution/Checks.antt =====
-- The tests of ExecuteAction in internal/execution/service.go.
use triovexa.Prelude.{
  ◌+◌, String, Bool, true, false, not, ◌&&◌, ◌||◌, List, [], ◌∷◌, Option, none, some, find, keep,
  last, get, contains, str_eq, ltb, ◌==◌, if◌then◌else◌,
}
use triovexa.Domain.{
  Time, Incident, CandidateAction, PolicyDecision, ApprovalRecord, is_approval, EvidenceItem,
  ExecutionRecord, ExecutionStatus, started, succeeded_execution, Details, flag,
}
use triovexa.Failure.{
  Failure, not_found, approval_expired, approval_mismatch, no_approval_record,
  environment_not_allowed, target_not_allowed, no_evidence_references, evidence_missing,
  evidence_stale, evidence_incomplete,
}
use triovexa.World.{Env, M, ◌>>=◌, ◌>>◌, pure, fetch, look, or_fail, guard, now, audit}
use triovexa.Storage.Incidents.{list_evidence_items}
use triovexa.Storage.Actions.{get_policy_decision}
use triovexa.Storage.Approvals.{list_approval_records}
use triovexa.Catalog.{ActionDefinition}
use triovexa.Policy.{is_empty}
use triovexa.Approval.{action_approval_digest}

-- `record.Status == started || record.Status == succeeded`.
abbrev pub is_live_status : ExecutionStatus → Bool
is_live_status started = true
is_live_status succeeded_execution = true
is_live_status _ = false

-- `now.Sub(finished) < cooldown` is `now < finished + cooldown`.
abbrev pub is_duplicate : String → Time → Time → ExecutionRecord → Bool
is_duplicate key cooldown at r =
    str_eq r.idempotency_key key
    && (is_live_status r.status || (not (r.finished_at == 0) && ltb at (r.finished_at + cooldown)))

unfoldable pub find_duplicate_execution :
    List ExecutionRecord → String → Time → Time → Option ExecutionRecord
find_duplicate_execution records key cooldown at = find (is_duplicate key cooldown at) records

unfoldable pub validate_execution_scope :
    CandidateAction → Incident → ActionDefinition → Option Failure
validate_execution_scope action incident d =
    if not (is_empty d.allowed_environments)
      && not (contains d.allowed_environments incident.environment)
    then some environment_not_allowed
    else if not (is_empty d.allowed_targets)
        && not (contains d.allowed_targets action.target_resource)
    then some target_not_allowed
    else none

-- The records that the loop of validateApproval does not skip.
abbrev pub is_approval_of : String → ApprovalRecord → Bool
is_approval_of action_id r = str_eq r.candidate_action_id action_id && is_approval r.decision

module _ (env : Env) where
  -- `s.audit(ctx, incident, step, "completed", details)`: two readings of the clock.
  unfoldable pub audit_step : String → String → Details → M (Unit {0})
  audit_step incident_id step_name details = do
    started_at ← now env
    finished_at ← now env
    audit env incident_id step_name "completed" details started_at finished_at

  -- The tests of one record; a zero expiry is refused before the clock is read.
  unfoldable pub check_approval : CandidateAction → PolicyDecision → ApprovalRecord → M (Unit {0})
  check_approval action decision r = do
    guard (not (r.expires_at == 0)) approval_expired
    at ← now env
    guard (ltb at r.expires_at) approval_expired
    guard
        (str_eq r.action_digest (action_approval_digest env action decision.policy_rule_ref)
          && str_eq r.policy_version decision.policy_rule_ref)
        approval_mismatch

  -- The loop from the last record back ends at the last one that is not skipped.
  unfoldable pub validate_approval : CandidateAction → M (Unit {0})
  validate_approval action = do
    decision ← fetch (get_policy_decision action.id) not_found
    records ← look (list_approval_records action.incident_id)
    r ← or_fail (last (keep (is_approval_of action.id) records)) no_approval_record
    check_approval action decision r

  -- metadata["complete"] is a bool and false.
  unfoldable pub is_incomplete : EvidenceItem → Bool
  is_incomplete item = elim (env.unmarshal item.metadata_json) [
    | none ↦ false
    | some metadata ↦ elim (get "complete" metadata) [
      | none ↦ false
      | some value ↦ elim value [ flag b ↦ not b | _ ↦ false ]
    ]
  ]

  -- `s.now().Sub(item.Timestamp) > maxAge` is `timestamp + maxAge < now`.
  unfoldable pub check_reference : List EvidenceItem → Time → String → M (Unit {0})
  check_reference items max_age reference = do
    item ←
        or_fail (last (keep (λ (i : EvidenceItem). str_eq i.id reference) items))
          (evidence_missing reference)
    guard (not (item.timestamp == 0)) (evidence_stale reference)
    at ← now env
    guard (not (ltb (item.timestamp + max_age) at)) (evidence_stale reference)
    guard (not (is_incomplete item)) (evidence_incomplete reference)

  unfoldable pub check_references : List EvidenceItem → Time → List String → M (Unit {0})
  check_references items max_age [] = pure tt
  check_references items max_age (reference ∷ references) =
      check_reference items max_age reference >> check_references items max_age references

  unfoldable pub validate_evidence_freshness : Time → CandidateAction → M (Unit {0})
  validate_evidence_freshness max_age action = do
    items ← look (list_evidence_items action.incident_id)
    guard (not (is_empty action.evidence_refs)) no_evidence_references
    check_references items max_age action.evidence_refs
