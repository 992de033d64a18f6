-- ===== src/Tests/Rollbacks.antt =====
-- A rollback of an executed action, and a recovery.
use triovexa.Prelude.{false, true, List, [], ◌∷◌, ◌≡◌, ◌≢◌, refl, ap, length, none, some, get, put}
use triovexa.Domain.{CandidateAction, executing, executing_action, approved, low}
use triovexa.Storage.{new_memory_store}
use triovexa.Storage.Actions.{update_candidate_action_status, update_status_in}
use triovexa.Storage.Executions.{incident_of}
use triovexa.Storage.Outcomes.{save_rollback_record}
use triovexa.Catalog.{get_definition}
use triovexa.Catalog.Default.{default_catalog}
use triovexa.World.{
  World, Dispatch, final, ◌>>=◌, pure, or_fail, guard, update, now, new_id, dispatch,
}
use triovexa.World.Within.{Within}
use triovexa.World.Silent.{Silent}
use triovexa.Transition.Once.{MovesOnce}
use triovexa.Execution.Run.{Ticket, run}
use triovexa.Execution.Rollback.{
  RollbackConfig, rollback_action, check_plan, request_rollback, call_rollback, finish_rollback,
}
use triovexa.Execution.Rollback.Calls.{RolledBack, rollback_action-RolledBack}
use triovexa.Execution.Recovery.{Reconciler, recover_started_executions, reconciliation_failed}
use triovexa.Execution.Recovery.Effects.{recover-Silent}
use triovexa.Execution.Once.{run-MovesOnce}
use triovexa.Tests.Scenario.{process, config, restart, incident_in, started_by, store_in, world_of}

abbrev pause : CandidateAction
pause = record (restart executing) { action_type = "pause_consumer" }

abbrev running : World
running = world_of (store_in executing_action executing [])

abbrev rollback_config : RollbackConfig
rollback_config = record { catalog = default_catalog; has_adapter = true; timeout = 500 }

one_call :
    length (final (rollback_action process rollback_config pause "op" "" running)).dispatched ≡ 1
unfolding rollback_action check_plan request_rollback call_rollback finish_rollback ◌>>=◌ pure
    or_fail guard update now new_id dispatch get_definition default_catalog get put
    save_rollback_record incident_of update_candidate_action_status update_status_in
    new_memory_store
one_call = refl

call_made : (final (rollback_action process rollback_config pause "op" "" running)).dispatched ≢ []
call_made h = cc (one_call, ap (λ (l : List Dispatch). length l) h)

rollback_action-RolledBack_example :
    RolledBack process rollback_config pause "op" running
      (final (rollback_action process rollback_config pause "op" "" running))
rollback_action-RolledBack_example =
    rollback_action-RolledBack process rollback_config pause "op" "" running call_made

abbrev reconciler : Reconciler
reconciler action request =
    (record { executor_type = "control"; payload = [] }, reconciliation_failed, none)

recover-Silent_example : Within Silent (recover_started_executions process config (some reconciler))
recover-Silent_example = recover-Silent process config (some reconciler) tt

abbrev ticket : Ticket
ticket = record {
  action = restart executing;
  definition = record {
    key = "restart_worker";
    description = "";
    risk_level = low;
    needs_approval = true;
    executable = true;
    supports_rollback = false;
    rollback_action_key = "";
    allowed_environments = "staging" ∷ [];
    allowed_targets = "queue-worker" ∷ [];
    max_execution_attempts = 2;
    execution_cooldown = 0;
    parameters = [];
  };
  incident = incident_in approved;
}

run-MovesOnce_example : Within MovesOnce (run process config ticket (started_by "x") "op")
run-MovesOnce_example = run-MovesOnce process config tt ticket (started_by "x") "op"
