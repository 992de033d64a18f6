-- ===== src/Execution/Rollback/Calls.antt =====
-- What RollbackAction of internal/execution/rollback_service.go calls, and on what condition.
use triovexa.Prelude.{String, true, refl, ◌≡◌, ◌≢◌, ap, ◌∙◌, List, ◌∷◌, none, some, arith, eq_iff}
use Prim.Native.String.{◌++◌ as append}
use triovexa.Domain.{Time, CandidateAction, RollbackRecord}
use triovexa.Catalog.{get_definition}
use triovexa.World.{World, Env, final, Dispatch, ◌>>=◌, now, dispatch}
use triovexa.World.Within.{Within}
use triovexa.World.Silent.{Silent, silent_rules, bind-WentOn}
use triovexa.World.Ensures.{Ensures, bind-Ensures, guard-Ensures, or_fail-Ensures, pure-Ensures}
use triovexa.Execution.Retry.{Reply}
use triovexa.Execution.Rollback.{
  RollbackConfig, RollbackPlan, check_plan, request_rollback, rollback_call, finish_rollback,
  call_rollback, rollback_action,
}

module _ (env : Env) (c : RollbackConfig) where
  -- The catalog lists the action with an executable action that takes it back.
  pub record Planned (action : CandidateAction) (triggered_by : String) (plan : RollbackPlan)
      : Type 0 where
    pub adapter_set : c.has_adapter ≡ true
    pub named : triggered_by ≢ ""
    pub listed : get_definition c.catalog action.action_type ≡ some plan.definition
    pub can_roll_back : plan.definition.supports_rollback ≡ true
    pub rollback_listed :
        get_definition c.catalog plan.definition.rollback_action_key ≡ some plan.rollback
    pub can_execute : plan.rollback.executable ≡ true

  check_plan-Planned :
      (action : CandidateAction) (triggered_by : String) (w : World)
      → Ensures
          (check_plan env c action triggered_by)
          w
          (λ plan _. Planned action triggered_by plan)
  unfolding check_plan
  check_plan-Planned action triggered_by w = bind-Ensures _ _ (
      guard-Ensures _ _ λ adapter_set. bind-Ensures _ _ (
        guard-Ensures _ _ λ named. bind-Ensures _ _ (
          or_fail-Ensures _ _ λ d listed. bind-Ensures _ _ (
            guard-Ensures _ _ λ planned. bind-Ensures _ _ (
              or_fail-Ensures _ _ λ r rollback_listed. bind-Ensures _ _ (
                guard-Ensures _ _ λ can_execute. pure-Ensures _ (record {
                  adapter_set = adapter_set;
                  named = ground (arith, named, eq_iff triggered_by "");
                  listed = listed;
                  can_roll_back = ground (arith, planned);
                  rollback_listed = rollback_listed;
                  can_execute = can_execute;
                })))))))

  check_plan-Silent :
      (action : CandidateAction) (triggered_by : String)
      → Within Silent (check_plan env c action triggered_by)
  unfolding check_plan
  check_plan-Silent action triggered_by = search silent_rules depth 24

  request_rollback-Silent :
      (action : CandidateAction) (plan : RollbackPlan) (triggered_by note : String)
      → Within Silent (request_rollback env c action plan triggered_by note)
  unfolding request_rollback
  request_rollback-Silent action plan triggered_by note = search silent_rules depth 24

  finish_rollback-Silent :
      (action : CandidateAction) (requested : RollbackRecord) (at : Time) (reply : Reply)
      → Within Silent (finish_rollback env c action requested at reply)
  unfolding finish_rollback
  finish_rollback-Silent action requested at (result, some e) = search silent_rules depth 24
  finish_rollback-Silent action requested at (result, none) = search silent_rules depth 24

  call_rollback-dispatched :
      (action : CandidateAction) (plan : RollbackPlan) (triggered_by : String)
      (requested : RollbackRecord) (w : World)
      → (final (call_rollback env c action plan triggered_by requested w)).dispatched
        ≡ rollback_call env c action plan triggered_by (env.clock w.reads) ∷ w.dispatched
  unfolding call_rollback ◌>>=◌ now dispatch
  call_rollback-dispatched action plan triggered_by requested w =
      ((finish_rollback-Silent action requested _ _).at _).calls

  -- One call: the plan's action on the same target, under a key of its own.
  pub record RolledBack (action : CandidateAction) (triggered_by : String) (w w' : World)
      : Type 0 where
    pub plan : RollbackPlan
    pub planned : Planned action triggered_by plan
    pub call : Dispatch
    pub one_call : w'.dispatched ≡ call ∷ w.dispatched
    pub takes_back : call.action.action_type ≡ plan.definition.rollback_action_key
    pub same_target : call.action.target_resource ≡ action.target_resource
    pub same_incident : call.action.incident_id ≡ action.incident_id
    pub at_its_risk : call.action.risk_level ≡ plan.rollback.risk_level
    pub own_key : call.request.idempotency_key ≡ append "rollback:" action.id
    pub by_whom : call.request.initiated_by ≡ triggered_by

  -- If RollbackAction calls the adapter at all, it calls it once, whether it returns or fails, with the
  -- action that the catalog gives for taking this one back, which is executable, on the same target and
  -- under an idempotency key of its own.
  pub rollback_action-RolledBack :
      (action : CandidateAction) (triggered_by note : String) (w : World)
      → (final (rollback_action env c action triggered_by note w)).dispatched ≢ w.dispatched
      → RolledBack action triggered_by w (final (rollback_action env c action triggered_by note w))
  unfolding rollback_action
  rollback_action-RolledBack action triggered_by note w called =
      let a =
        bind-WentOn (check_plan env c action triggered_by) _ w
          (check_plan-Silent action triggered_by) called in
      let b =
        bind-WentOn (request_rollback env c action a.answer triggered_by note) _ a.after
          (request_rollback-Silent action a.answer triggered_by note) a.called in
      record {
        plan = a.answer;
        planned = (check_plan-Planned action triggered_by w).at a.answer a.after a.returned;
        call = rollback_call env c action a.answer triggered_by (env.clock b.after.reads);
        one_call =
            ap (λ (v : World). v.dispatched) (a.ends ∙ b.ends)
            ∙ call_rollback-dispatched action a.answer triggered_by b.answer b.after
            ∙ ap
                (λ (l : List Dispatch).
                  rollback_call env c action a.answer triggered_by (env.clock b.after.reads) ∷ l)
                (b.silent ∙ a.silent);
        takes_back = refl;
        same_target = refl;
        same_incident = refl;
        at_its_risk = refl;
        own_key = refl;
        by_whom = refl;
      }
