-- ===== src/Execution/Rollback.antt =====
-- RollbackAction of internal/execution/rollback_service.go.
pub mod Calls
use triovexa.Prelude.{
  ℕ, String, Bool, true, false, not, ◌&&◌, List, [], ◌∷◌, Option, none, some, str_eq,
}
use Prim.Native.String.{◌++◌}
use triovexa.Domain.{
  Time, Details, text, CandidateAction, unset, rolled_back_status, RollbackRecord, rollback_started,
  rollback_succeeded, rollback_failed,
}
use triovexa.Failure.{
  AdapterError, error_text, adapter_missing, initiator_required, not_in_catalog, no_rollback_plan,
  rollback_not_in_catalog, rollback_not_executable, rollback_error,
}
use triovexa.Storage.Actions.{update_candidate_action_status}
use triovexa.Storage.Outcomes.{save_rollback_record}
use triovexa.Catalog.{Catalog, ActionDefinition, get_definition}
use triovexa.World.{
  Env, M, Dispatch, ◌>>=◌, ◌>>◌, pure, raise, or_fail, guard, update, now, new_id, dispatch,
}
use triovexa.Execution.Retry.{Reply}

-- RollbackService.
pub record RollbackConfig : Type 0 where
  pub catalog : Catalog
  pub has_adapter : Bool
  pub timeout : Time

-- The definitions of the action and of the action that takes it back.
pub record RollbackPlan : Type 0 where
  pub definition : ActionDefinition
  pub rollback : ActionDefinition

module _ (env : Env) (c : RollbackConfig) where
  unfoldable pub check_plan : CandidateAction → String → M RollbackPlan
  check_plan action triggered_by = do
    guard c.has_adapter adapter_missing
    guard (not (str_eq triggered_by "")) initiator_required
    d ← or_fail (get_definition c.catalog action.action_type) not_in_catalog
    guard (d.supports_rollback && not (str_eq d.rollback_action_key "")) no_rollback_plan
    r ← or_fail (get_definition c.catalog d.rollback_action_key) rollback_not_in_catalog
    guard r.executable rollback_not_executable
    pure (record { definition = d; rollback = r })

  -- The record of the request, which is stored before the call.
  unfoldable pub request_rollback :
      CandidateAction → RollbackPlan → String → String → M RollbackRecord
  request_rollback action plan triggered_by note = do
    id ← new_id env
    from ← now env
    to ← now env
    let requested : RollbackRecord = record {
      id = id;
      candidate_action_id = action.id;
      rollback_action_key = plan.definition.rollback_action_key;
      triggered_by = triggered_by;
      status = rollback_started;
      started_at = from;
      finished_at = to;
      result = ("status", text "rollback_requested") ∷ [];
      note = note;
    }
    update (save_rollback_record requested)
    pure requested

  abbrev pub rollback_call : CandidateAction → RollbackPlan → String → Time → Dispatch
  rollback_call action plan triggered_by created_at = record {
    action = record {
      id = "rollback-" ++ action.id;
      incident_id = action.incident_id;
      action_type = plan.definition.rollback_action_key;
      target_resource = action.target_resource;
      parameters_json = "{}";
      risk_level = plan.rollback.risk_level;
      rationale = "rollback for " ++ action.action_type;
      evidence_refs = [];
      approval_hint = "";
      status = unset;
      created_at = created_at;
    };
    request = record {
      idempotency_key = "rollback:" ++ action.id;
      timeout = c.timeout;
      initiated_by = triggered_by;
    };
  }

  -- A failed call leaves the action's status as it is.
  unfoldable pub finish_rollback :
      CandidateAction → RollbackRecord → Time → Reply → M RollbackRecord
  finish_rollback action requested at (result, some e) = do
    let after : RollbackRecord = record requested {
      finished_at = at;
      status = rollback_failed;
      result = ("error", text (error_text e)) ∷ [];
    }
    update (save_rollback_record after)
    raise (rollback_error after e)
  finish_rollback action requested at (result, none) = do
    let after : RollbackRecord = record requested {
      finished_at = at;
      status = rollback_succeeded;
      result = result.payload;
    }
    update (save_rollback_record after)
    update (update_candidate_action_status action.id rolled_back_status)
    pure after

  unfoldable pub call_rollback :
      CandidateAction → RollbackPlan → String → RollbackRecord → M RollbackRecord
  call_rollback action plan triggered_by requested = do
    created_at ← now env
    reply ← dispatch env (rollback_call action plan triggered_by created_at)
    at ← now env
    finish_rollback action requested at reply

  unfoldable pub rollback_action : CandidateAction → String → String → M RollbackRecord
  rollback_action action triggered_by note = do
    plan ← check_plan action triggered_by
    requested ← request_rollback action plan triggered_by note
    call_rollback action plan triggered_by requested
