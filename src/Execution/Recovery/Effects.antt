-- ===== src/Execution/Recovery/Effects.antt =====
-- What RecoverStartedExecutions of internal/execution/service.go leaves alone.
use triovexa.Prelude.{String, List, [], ◌∷◌, Option, none, some}
use triovexa.Domain.{
  CandidateAction, CandidateActionStatus, Incident, IncidentState, ExecutionRecord,
  VerificationResult, Details,
}
use triovexa.World.{Env, M, AdapterResult}
use triovexa.World.Within.{Within, Within-bind}
use triovexa.World.Silent.{Silent, Silent-frame, silent_rules, Quiet-Silent}
use triovexa.Transition.{transition_incident_state}
use triovexa.Execution.Authorize.{audit_step-Quiet}
use triovexa.Execution.Checks.{audit_step}
use triovexa.Execution.Run.{Config}
use triovexa.Execution.Steps.{VerifierKeeps}
use triovexa.Execution.Recovery.{
  ReconciliationStatus, reconciliation_succeeded, Reconciler, verify_recovered, settle, settle_by,
  recover_one, recover_each, recover_started_executions,
}

pub transition-Silent :
    (env : Env) (incident : Incident) (next : IncidentState)
    → Within Silent (transition_incident_state env incident next)
unfolding transition_incident_state
transition-Silent env incident next = search silent_rules depth 24

module _ (env : Env) (c : Config) (reconciler : Option Reconciler) where
  audit_step-Silent :
      (incident_id step_name : String) (details : Details)
      → Within Silent (audit_step env incident_id step_name details)
  audit_step-Silent incident_id step_name details =
      Quiet-Silent _ (audit_step-Quiet env c incident_id step_name details)

  verify_recovered-Silent :
      (verifier : Option (CandidateAction → ExecutionRecord → M VerificationResult))
      → VerifierKeeps Silent verifier
      → (action : CandidateAction) (r : ExecutionRecord)
      → Within Silent (verify_recovered env c reconciler verifier action r)
  unfolding verify_recovered
  verify_recovered-Silent none keeps action r = search silent_rules
  verify_recovered-Silent (some verify) keeps action r = search (silent_rules, keeps) depth 10

  settle-Silent :
      (action : CandidateAction) (incident : Incident) (r : ExecutionRecord)
      (status : CandidateActionStatus) (next : IncidentState)
      → Within Silent (settle env c reconciler action incident r status next)
  unfolding settle
  settle-Silent action incident r status next = search (silent_rules, transition-Silent) depth 24

  module _ (keeps : VerifierKeeps Silent c.verifier) where
    settle_by-Silent :
        (action : CandidateAction) (incident : Incident) (r : ExecutionRecord)
        (result : AdapterResult) (status : ReconciliationStatus)
        → Within Silent (settle_by env c reconciler action incident r result status)
    unfolding settle_by
    settle_by-Silent action incident r result reconciliation_succeeded =
        search (silent_rules, settle-Silent, verify_recovered-Silent c.verifier keeps) depth 24
    settle_by-Silent action incident r result _ = search (silent_rules, settle-Silent) depth 24

    recover_one-Silent : (r : ExecutionRecord) → Within Silent (recover_one env c reconciler r)
    unfolding recover_one
    recover_one-Silent r = search (silent_rules, settle_by-Silent, audit_step-Silent) depth 24

    recover_each-Silent :
        (rs : List ExecutionRecord) → Within Silent (recover_each env c reconciler rs)
    unfolding recover_each
    recover_each-Silent [] = search silent_rules
    recover_each-Silent (r ∷ rs) =
        Within-bind Silent-frame (recover_one env c reconciler r) _ (recover_one-Silent r)
          λ _. recover_each-Silent rs

    -- Where the verifier does not call the adapter, a recovery never does, whether or not it fails: a
    -- restart does not repeat an execution.
    pub recover-Silent : Within Silent (recover_started_executions env c reconciler)
    unfolding recover_started_executions
    recover-Silent = search (silent_rules, recover_each-Silent) depth 10
