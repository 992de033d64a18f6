-- ===== src/Execution/Authorize.antt =====
-- The tests of ExecuteAction in internal/execution/service.go write nothing but audit events.
use triovexa.Prelude.{List, [], ◌∷◌, String, Option, none, some}
use triovexa.Domain.{Time, EvidenceItem, Details, CandidateAction, ExecutionRecord}
use triovexa.Failure.{Failure}
use triovexa.Catalog.{ActionDefinition}
use triovexa.World.{Env}
use triovexa.World.Within.{Within, Within-bind}
use triovexa.World.Quiet.{Quiet, Quiet-frame, quiet_rules}
use triovexa.Execution.Checks.{
  audit_step, check_approval, validate_approval, check_reference, check_references,
  validate_evidence_freshness,
}
use triovexa.Execution.Run.{
  Config, refuse, refuse_duplicate, refuse_scope, check_history, check_permission, authorize,
}

module _ (env : Env) where
  pub validate_approval-Quiet :
      (action : CandidateAction) → Within Quiet (validate_approval env action)
  unfolding validate_approval check_approval
  validate_approval-Quiet action = search quiet_rules depth 20

  pub check_reference-Quiet :
      (items : List EvidenceItem) (max_age : Time) (reference : String)
      → Within Quiet (check_reference env items max_age reference)
  unfolding check_reference
  check_reference-Quiet items max_age reference = search quiet_rules depth 20

  pub check_references-Quiet :
      (items : List EvidenceItem) (max_age : Time) (references : List String)
      → Within Quiet (check_references env items max_age references)
  unfolding check_references
  check_references-Quiet items max_age [] = search quiet_rules
  check_references-Quiet items max_age (r ∷ rs) =
      Within-bind Quiet-frame (check_reference env items max_age r) _
        (check_reference-Quiet items max_age r) λ _. check_references-Quiet items max_age rs

  pub validate_evidence-Quiet :
      (max_age : Time) (action : CandidateAction)
      → Within Quiet (validate_evidence_freshness env max_age action)
  unfolding validate_evidence_freshness
  validate_evidence-Quiet max_age action = search (quiet_rules, check_references-Quiet) depth 20

module _ (env : Env) (c : Config) where
  pub audit_step-Quiet :
      (incident_id step_name : String) (details : Details)
      → Within Quiet (audit_step env incident_id step_name details)
  unfolding audit_step
  audit_step-Quiet incident_id step_name details = search quiet_rules depth 12

  pub refuse-Quiet :
      {A : Type 0} (action : CandidateAction) (step_name : String) (details : Details) (e : Failure)
      → Within Quiet (refuse env c {A = A} action step_name details e)
  unfolding refuse
  refuse-Quiet action step_name details e = search (quiet_rules, audit_step-Quiet) depth 12

  pub refuse_duplicate-Quiet :
      (action : CandidateAction) (o : Option ExecutionRecord)
      → Within Quiet (refuse_duplicate env c action o)
  unfolding refuse_duplicate
  refuse_duplicate-Quiet action none = search quiet_rules
  refuse_duplicate-Quiet action (some r) = refuse-Quiet action _ _ _

  pub refuse_scope-Quiet :
      (action : CandidateAction) (o : Option Failure) → Within Quiet (refuse_scope env c action o)
  unfolding refuse_scope
  refuse_scope-Quiet action none = search quiet_rules
  refuse_scope-Quiet action (some e) = refuse-Quiet action _ _ _

  pub check_history-Quiet :
      (action : CandidateAction) (d : ActionDefinition)
      → Within Quiet (check_history env c action d)
  unfolding check_history
  check_history-Quiet action d = search (quiet_rules, refuse_duplicate-Quiet, refuse-Quiet) depth 24

  pub check_permission-Quiet :
      (action : CandidateAction) (d : ActionDefinition)
      → Within Quiet (check_permission env c action d)
  unfolding check_permission
  check_permission-Quiet action d =
      search (quiet_rules, validate_approval-Quiet env, refuse-Quiet) depth 24

  -- The tests write nothing but audit events, passed or not.
  pub authorize-Quiet :
      (action_id initiated_by : String) → Within Quiet (authorize env c action_id initiated_by)
  unfolding authorize
  authorize-Quiet action_id initiated_by =
      search
        (
          quiet_rules,
          check_history-Quiet,
          check_permission-Quiet,
          refuse_scope-Quiet,
          validate_evidence-Quiet env,
          refuse-Quiet,
        )
        depth 32
