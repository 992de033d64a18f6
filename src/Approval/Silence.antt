-- ===== src/Approval/Silence.antt =====
-- The approval service of internal/approval/service.go does not call the adapter.
use triovexa.Prelude.{String, List, [], ◌∷◌}
use triovexa.Domain.{Time, Incident, CandidateAction, Details}
use triovexa.World.{Env, audit, audit_now}
use triovexa.World.Within.{Within, Within-bind, Within-pure}
use triovexa.World.Quiet.{audit-Quiet, audit_now-Quiet}
use triovexa.World.Silent.{Silent, Silent-frame, silent_rules, Quiet-Silent}
use triovexa.Policy.{Evaluator}
use triovexa.Execution.Recovery.Effects.{transition-Silent}
use triovexa.Approval.{
  refresh_incident_state, decide_one, decide_all, evaluate_filtered, evaluate_actions,
}

module _ (env : Env) where
  audit-Silent :
      (incident_id step_name status : String) (details : Details) (from to : Time)
      → Within Silent (audit env incident_id step_name status details from to)
  audit-Silent incident_id step_name status details from to =
      Quiet-Silent _ (audit-Quiet env incident_id step_name status details from to)

  audit_now-Silent :
      (incident_id step_name status : String) (details : Details)
      → Within Silent (audit_now env incident_id step_name status details)
  audit_now-Silent incident_id step_name status details =
      Quiet-Silent _ (audit_now-Quiet env incident_id step_name status details)

  refresh-Silent : (incident : Incident) → Within Silent (refresh_incident_state env incident)
  unfolding refresh_incident_state
  refresh-Silent incident = search (silent_rules, transition-Silent env) depth 12

  module _ (e : Evaluator) where
    decide_one-Silent :
        (environment : String) (action : CandidateAction)
        → Within Silent (decide_one env e environment action)
    unfolding decide_one
    decide_one-Silent environment action = search silent_rules depth 16

    decide_all-Silent :
        (environment : String) (actions : List CandidateAction)
        → Within Silent (decide_all env e environment actions)
    unfolding decide_all
    decide_all-Silent environment [] = search silent_rules
    decide_all-Silent environment (a ∷ actions) =
        Within-bind Silent-frame (decide_one env e environment a) _
          (decide_one-Silent environment a)
          λ d.
            Within-bind Silent-frame (decide_all env e environment actions) _
              (decide_all-Silent environment actions) λ ds. Within-pure Silent-frame (d ∷ ds)

    evaluate_filtered-Silent :
        (incident : Incident) (actions : List CandidateAction)
        → Within Silent (evaluate_filtered env e incident actions)
    unfolding evaluate_filtered
    evaluate_filtered-Silent incident actions =
        search (silent_rules, decide_all-Silent, refresh-Silent, audit-Silent, audit_now-Silent)
          depth 28

    pub evaluate_actions-Silent :
        (incident : Incident) (actions : List CandidateAction)
        → Within Silent (evaluate_actions env e incident actions)
    unfolding evaluate_actions
    evaluate_actions-Silent incident actions =
        search (silent_rules, evaluate_filtered-Silent) depth 12
