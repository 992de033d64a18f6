-- ===== src/Tests/Executions.antt =====
-- Executions of the approved action.
use triovexa.Prelude.{join, List, [], ◌≡◌, ◌≢◌, refl, get, put, trim_space, sort_by, length, ap}
use triovexa.Domain.{same_state, approved_status}
use triovexa.Catalog.Default.{default_catalog}
use triovexa.World.{
  pure, raise, fetch, look, or_fail, attempt, handle, guard, modify, update, kill_switch_on, now,
  new_id, audit, dispatch, Dispatch, final, ◌>>=◌,
}
use triovexa.World.Ensures.{Ensures}
use triovexa.Execution.Checks.{
  audit_step, find_duplicate_execution, check_approval, validate_execution_scope, check_references,
  check_reference, is_incomplete, validate_approval, validate_evidence_freshness,
}
use triovexa.Execution.Validity.{
  ApprovalValid, EvidenceValid, validate_approval-Valid, validate_evidence-Valid,
}
use triovexa.Execution.Attempts.{Attempted, retry-Attempted}
use triovexa.Execution.Run.{
  authorize, claim, run, check_history, check_permission, refuse_duplicate, refuse_scope,
  finish_succeeded, verify_with, execute_action, call_of,
}
use triovexa.Execution.Gate.{Cleared, execute_action-Cleared}
use triovexa.Execution.Retry.{execute_with_retry}
use triovexa.Storage.Executions.{
  claim_execution, list_execution_records_by_action, target_busy, save_execution_record,
}
use triovexa.Storage.Actions.{
  get_candidate_action, get_policy_decision, update_candidate_action_status, update_status_in,
}
use triovexa.Storage.Incidents.{
  get_incident, list_evidence_items, compare_and_swap_incident_state, add_audit_event,
}
use triovexa.Catalog.{get_definition}
use triovexa.Storage.Approvals.{list_approval_records, records_of}
use triovexa.Approval.{action_approval_digest}
use triovexa.Storage.{new_memory_store}
use triovexa.Transition.{transition_incident_state}
use triovexa.StateMachine.{can_transition}
use triovexa.Tests.Scenario.{process, restart, consented, config}

retry-Attempted_example :
    Attempted process (call_of process config (restart approved_status) "op") 2 consented
retry-Attempted_example =
    retry-Attempted process (call_of process config (restart approved_status) "op") 2 consented

validate_approval-Valid_example :
    Ensures
      (validate_approval process (restart approved_status))
      consented
      (λ _ v. ApprovalValid process (restart approved_status) consented consented.reads v.reads)
validate_approval-Valid_example =
    validate_approval-Valid process (restart approved_status) consented

validate_evidence-Valid_example :
    Ensures
      (validate_evidence_freshness process 300 (restart approved_status))
      consented
      (λ _ v. EvidenceValid process 300 (restart approved_status) consented consented.reads v.reads)
validate_evidence-Valid_example =
    validate_evidence-Valid process 300 (restart approved_status) consented

one_call : length (final (execute_action process config "a" "op" consented)).dispatched ≡ 1
unfolding execute_action authorize claim run ◌>>=◌ pure raise fetch look or_fail attempt handle
    guard modify update kill_switch_on now new_id audit dispatch audit_step execute_with_retry
    check_history check_permission refuse_duplicate refuse_scope claim_execution
    get_candidate_action get_incident get_definition default_catalog get put sort_by
    list_execution_records_by_action find_duplicate_execution validate_approval check_approval
    get_policy_decision list_approval_records records_of action_approval_digest join trim_space
    validate_execution_scope validate_evidence_freshness list_evidence_items check_references
    check_reference is_incomplete new_memory_store target_busy finish_succeeded
    save_execution_record update_candidate_action_status update_status_in transition_incident_state
    compare_and_swap_incident_state add_audit_event can_transition same_state verify_with
one_call = refl

call_made : (final (execute_action process config "a" "op" consented)).dispatched ≢ []
call_made h = cc (one_call, ap (λ (l : List Dispatch). length l) h)

execute_action-Cleared_example : Cleared process config "a" "op" consented
execute_action-Cleared_example = execute_action-Cleared process config "a" "op" consented call_made
