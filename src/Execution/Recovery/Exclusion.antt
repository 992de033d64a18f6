-- ===== src/Execution/Recovery/Exclusion.antt =====
-- RecoverStartedExecutions of internal/execution/service.go keeps each target to one started
-- execution.
use triovexa.Prelude.{List, [], ◌∷◌, ◌≡◌, Option, none, some}
use triovexa.Domain.{
  CandidateAction, CandidateActionStatus, Incident, IncidentState, ExecutionRecord,
  VerificationResult,
}
use triovexa.World.{Env, M, AdapterResult}
use triovexa.World.Within.{Within, Within-bind}
use triovexa.Execution.Run.{Config}
use triovexa.Execution.Recovery.{
  ReconciliationStatus, reconciliation_succeeded, Reconciler, verify_recovered, settle, settle_by,
  recover_one, recover_each, recover_started_executions,
}
use triovexa.Domain.{is_started}
use triovexa.Prelude.{false}
use triovexa.Execution.Steps.{VerifierKeeps}
use triovexa.Execution.Exclusion.{
  StaysSafe, StaysSafe-frame, safe_rules, transition-StaysSafe, step-StaysSafe,
}

module _ (env : Env) (c : Config) (keeps : VerifierKeeps StaysSafe c.verifier) where
  module _ (reconciler : Option Reconciler) where
    verify_recovered-StaysSafe :
        (verifier : Option (CandidateAction → ExecutionRecord → M VerificationResult))
        → VerifierKeeps StaysSafe verifier
        → (action : CandidateAction) (r : ExecutionRecord)
        → Within StaysSafe (verify_recovered env c reconciler verifier action r)
    unfolding verify_recovered
    verify_recovered-StaysSafe none k action r = search safe_rules
    verify_recovered-StaysSafe (some verify) k action r = search (safe_rules, k) depth 10

    settle-StaysSafe :
        (action : CandidateAction) (incident : Incident) (r : ExecutionRecord)
        (status : CandidateActionStatus) (next : IncidentState)
        → is_started r.status ≡ false
        → Within StaysSafe (settle env c reconciler action incident r status next)
    unfolding settle
    settle-StaysSafe action incident r status next idle =
        search (safe_rules, idle, transition-StaysSafe env) depth 24

    settle_by-StaysSafe :
        (action : CandidateAction) (incident : Incident) (r : ExecutionRecord)
        (result : AdapterResult) (status : ReconciliationStatus)
        → Within StaysSafe (settle_by env c reconciler action incident r result status)
    unfolding settle_by
    settle_by-StaysSafe action incident r result reconciliation_succeeded =
        search (safe_rules, settle-StaysSafe, verify_recovered-StaysSafe c.verifier keeps) depth 24
    settle_by-StaysSafe action incident r result _ = search (safe_rules, settle-StaysSafe) depth 24

    recover_one-StaysSafe :
        (r : ExecutionRecord) → Within StaysSafe (recover_one env c reconciler r)
    unfolding recover_one
    recover_one-StaysSafe r =
        search (safe_rules, settle_by-StaysSafe, step-StaysSafe env c) depth 24

    recover_each-StaysSafe :
        (rs : List ExecutionRecord) → Within StaysSafe (recover_each env c reconciler rs)
    unfolding recover_each
    recover_each-StaysSafe [] = search safe_rules
    recover_each-StaysSafe (r ∷ rs) =
        Within-bind StaysSafe-frame (recover_one env c reconciler r) _ (recover_one-StaysSafe r)
          λ _. recover_each-StaysSafe rs

    -- A recovery keeps the ids of each incident's actions distinct and each target to one started
    -- execution, whether or not it fails, where the verifier does.
    pub recover-StaysSafe : Within StaysSafe (recover_started_executions env c reconciler)
    unfolding recover_started_executions
    recover-StaysSafe = search (safe_rules, recover_each-StaysSafe) depth 10
