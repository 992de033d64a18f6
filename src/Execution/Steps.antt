-- ===== src/Execution/Steps.antt =====
-- Which way the incidents go after a restart.
use triovexa.Prelude.{String, List, [], ◌∷◌, ◌≡◌, Option, Option-cases, none, some, arith}
use triovexa.Domain.{
  CandidateAction, CandidateActionStatus, Incident, IncidentState, ExecutionRecord,
  VerificationResult, Details,
}
use triovexa.Storage.{MemoryStore}
use triovexa.Storage.Executions.{save_execution_record, incident_of}
use triovexa.World.{World, Env, M, AdapterResult, update}
use triovexa.World.Within.{Within, Within-bind, Within-update}
use triovexa.Transition.Moves.{Moves, Moves-frame, same_incidents}
use triovexa.Approval.Moves.{moves_rules}
use triovexa.Execution.Checks.{audit_step}
use triovexa.Execution.Run.{Config}
use triovexa.Execution.Recovery.{
  ReconciliationStatus, reconciliation_succeeded, Reconciler, verify_recovered, settle, settle_by,
  recover_one, recover_each, recover_started_executions,
}

-- A relation that the verifier, if there is one, keeps.
abbrev pub VerifierKeeps :
    (World → World → Type 0)
    → Option (CandidateAction → ExecutionRecord → M VerificationResult)
    → Type 0
VerifierKeeps R none = Unit {0}
VerifierKeeps R (some verify) =
    (action : CandidateAction) (r : ExecutionRecord) → Within R (verify action r)

pub save_execution-incidents :
    (r : ExecutionRecord) (s t : MemoryStore)
    → save_execution_record r s ≡ some t
    → t.incidents ≡ s.incidents
unfolding save_execution_record
save_execution-incidents r s t h =
    ground (arith, Option-cases (incident_of r.candidate_action_id s.actions))

save_execution-Moves : (r : ExecutionRecord) → Within Moves (update (save_execution_record r))
save_execution-Moves r =
    Within-update Moves-frame _
      λ w s h. same_incidents w.store s (save_execution-incidents r w.store s h)

module _ (env : Env) where
  audit_step-Moves :
      (incident_id step_name : String) (details : Details)
      → Within Moves (audit_step env incident_id step_name details)
  unfolding audit_step
  audit_step-Moves incident_id step_name details = search moves_rules depth 12

module _ (env : Env) (c : Config) (keeps : VerifierKeeps Moves c.verifier) where
  module _ (reconciler : Option Reconciler) where
    verify_recovered-Moves :
        (verifier : Option (CandidateAction → ExecutionRecord → M VerificationResult))
        → VerifierKeeps Moves verifier
        → (action : CandidateAction) (r : ExecutionRecord)
        → Within Moves (verify_recovered env c reconciler verifier action r)
    unfolding verify_recovered
    verify_recovered-Moves none k action r = search moves_rules
    verify_recovered-Moves (some verify) k action r = search (moves_rules, k) depth 10

    settle-Moves :
        (action : CandidateAction) (incident : Incident) (r : ExecutionRecord)
        (status : CandidateActionStatus) (next : IncidentState)
        → Within Moves (settle env c reconciler action incident r status next)
    unfolding settle
    settle-Moves action incident r status next = search (moves_rules, save_execution-Moves) depth 24

    settle_by-Moves :
        (action : CandidateAction) (incident : Incident) (r : ExecutionRecord)
        (result : AdapterResult) (status : ReconciliationStatus)
        → Within Moves (settle_by env c reconciler action incident r result status)
    unfolding settle_by
    settle_by-Moves action incident r result reconciliation_succeeded =
        search (moves_rules, settle-Moves, verify_recovered-Moves c.verifier keeps) depth 24
    settle_by-Moves action incident r result _ = search (moves_rules, settle-Moves) depth 24

    recover_one-Moves : (r : ExecutionRecord) → Within Moves (recover_one env c reconciler r)
    unfolding recover_one
    recover_one-Moves r = search (moves_rules, settle_by-Moves, audit_step-Moves env) depth 24

    recover_each-Moves :
        (rs : List ExecutionRecord) → Within Moves (recover_each env c reconciler rs)
    unfolding recover_each
    recover_each-Moves [] = search moves_rules
    recover_each-Moves (r ∷ rs) =
        Within-bind Moves-frame (recover_one env c reconciler r) _ (recover_one-Moves r)
          λ _. recover_each-Moves rs

    -- A recovery leaves each incident in a state that the table reaches from the one before, whether or
    -- not it fails, where the verifier does.
    pub recover-Moves : Within Moves (recover_started_executions env c reconciler)
    unfolding recover_started_executions
    recover-Moves = search (moves_rules, recover_each-Moves) depth 10
