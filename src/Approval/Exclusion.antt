-- ===== src/Approval/Exclusion.antt =====
-- The approval service of internal/approval/service.go keeps each target to one started execution.
use triovexa.Prelude.{
  String, Bool, true, false, ◌≡◌, refl, ap, ◌∙◌, Option, Option-cases, some, arith, List, [], ◌∷◌,
  get, put, sym, get_list, subst, update_first,
}
use triovexa.Domain.{
  Time, Incident, IncidentState, CandidateAction, CandidateActionStatus, Details, ApprovalRecord,
  PolicyDecision,
}
use triovexa.Storage.{MemoryStore}
use triovexa.Storage.Actions.{save_policy_decisions, has_id, with_status}
use triovexa.Storage.Approvals.{decide_approval, decide_write}
use triovexa.Storage.Approvals.Atomic.{decide-refused, decide-Decided}
use triovexa.Storage.Executions.Safe.{IsSafe, decided-IsSafe}
use triovexa.World.{Env, attempt, modify, audit, audit_now}
use triovexa.World.Within.{Within, Within-attempt, Within-modify, Within-bind, Within-pure}
use triovexa.World.Quiet.{audit-Quiet, audit_now-Quiet}
use triovexa.Policy.{Evaluator}
use triovexa.Execution.Exclusion.{
  StaysSafe, StaysSafe-frame, safe_rules, transition-StaysSafe, same-IsSafe, Quiet-StaysSafe,
}
use triovexa.Approval.{
  refresh_incident_state, decide_one, decide_all, evaluate_filtered, evaluate_actions,
  store_approval, approve_action, reject_action,
}

module _ (now : Time) (incident_id : String) (r : ApprovalRecord) (next : CandidateActionStatus)
    (new : Option IncidentState) (s : MemoryStore) where
  actions-decide_write :
      (decide_write now incident_id r next new s).actions
      ≡ put incident_id
          (update_first
            (has_id r.candidate_action_id)
            (with_status next)
            (get_list incident_id s.actions))
          s.actions
  unfolding decide_write
  actions-decide_write =
      ground (arith, Option-cases new, Option-cases (get incident_id s.incidents))

  executions-decide_write : (decide_write now incident_id r next new s).executions ≡ s.executions
  unfolding decide_write
  executions-decide_write =
      ground (arith, Option-cases new, Option-cases (get incident_id s.incidents))

  decide-IsSafe :
      (expected : CandidateActionStatus) (old : Option IncidentState) (b : Bool) (t : MemoryStore)
      → decide_approval now incident_id r expected next old new s ≡ some (b, t)
      → IsSafe s
      → IsSafe t
  decide-IsSafe expected old false t h safe =
      subst IsSafe (sym (decide-refused now incident_id r expected next old new s h)) safe
  decide-IsSafe expected old true t h safe =
      let d = decide-Decided now incident_id r expected next old new s t h in
      decided-IsSafe s t incident_id r.candidate_action_id next
        (ap (λ (u : MemoryStore). u.actions) d.written ∙ actions-decide_write)
        (ap (λ (u : MemoryStore). u.executions) d.written ∙ executions-decide_write) safe

decide-StaysSafe :
    (now : Time) (incident_id : String) (r : ApprovalRecord) (expected next : CandidateActionStatus)
    (old new : Option IncidentState)
    → Within StaysSafe (attempt (decide_approval now incident_id r expected next old new))
decide-StaysSafe now incident_id r expected next old new =
    Within-attempt StaysSafe-frame _
      λ w b s h. decide-IsSafe now incident_id r next new w.store expected old b s h

save_policy-actions :
    (ds : List PolicyDecision) (s : MemoryStore) → (save_policy_decisions ds s).actions ≡ s.actions
unfolding save_policy_decisions
save_policy-actions [] s = refl
save_policy-actions (d ∷ ds) s =
    save_policy-actions ds (record s { policies = put d.candidate_action_id d s.policies })

save_policy-executions :
    (ds : List PolicyDecision) (s : MemoryStore)
    → (save_policy_decisions ds s).executions ≡ s.executions
unfolding save_policy_decisions
save_policy-executions [] s = refl
save_policy-executions (d ∷ ds) s =
    save_policy-executions ds (record s { policies = put d.candidate_action_id d s.policies })

save_policy-StaysSafe :
    (ds : List PolicyDecision) → Within StaysSafe (modify (save_policy_decisions ds))
save_policy-StaysSafe ds = Within-modify StaysSafe-frame (save_policy_decisions ds) λ w.
    same-IsSafe w.store (save_policy_decisions ds w.store) (save_policy-actions ds w.store)
      (save_policy-executions ds w.store)

module _ (env : Env) where
  audit-StaysSafe :
      (incident_id step_name status : String) (details : Details) (from to : Time)
      → Within StaysSafe (audit env incident_id step_name status details from to)
  audit-StaysSafe incident_id step_name status details from to =
      Quiet-StaysSafe _ (audit-Quiet env incident_id step_name status details from to)

  audit_now-StaysSafe :
      (incident_id step_name status : String) (details : Details)
      → Within StaysSafe (audit_now env incident_id step_name status details)
  audit_now-StaysSafe incident_id step_name status details =
      Quiet-StaysSafe _ (audit_now-Quiet env incident_id step_name status details)

  refresh-StaysSafe : (incident : Incident) → Within StaysSafe (refresh_incident_state env incident)
  unfolding refresh_incident_state
  refresh-StaysSafe incident = search (safe_rules, transition-StaysSafe env) depth 12

  store_approval-StaysSafe :
      (incident_id : String) (incident : Incident) (r : ApprovalRecord)
      → Within StaysSafe (store_approval env incident_id incident r)
  unfolding store_approval
  store_approval-StaysSafe incident_id incident r =
      search (safe_rules, decide-StaysSafe, audit_now-StaysSafe) depth 24

  -- An approval keeps the ids of each incident's actions distinct and each target to one started
  -- execution, whether or not it fails.
  pub approve_action-StaysSafe :
      (action_id approved_by note : String)
      → Within StaysSafe (approve_action env action_id approved_by note)
  unfolding approve_action
  approve_action-StaysSafe action_id approved_by note =
      search (safe_rules, store_approval-StaysSafe) depth 24

  -- A rejection keeps the ids of each incident's actions distinct and each target to one started
  -- execution, whether or not it fails.
  pub reject_action-StaysSafe :
      (action_id rejected_by note : String)
      → Within StaysSafe (reject_action env action_id rejected_by note)
  unfolding reject_action
  reject_action-StaysSafe action_id rejected_by note =
      search (safe_rules, decide-StaysSafe, refresh-StaysSafe, audit_now-StaysSafe) depth 24

  module _ (e : Evaluator) where
    decide_one-StaysSafe :
        (environment : String) (action : CandidateAction)
        → Within StaysSafe (decide_one env e environment action)
    unfolding decide_one
    decide_one-StaysSafe environment action = search safe_rules depth 16

    decide_all-StaysSafe :
        (environment : String) (actions : List CandidateAction)
        → Within StaysSafe (decide_all env e environment actions)
    unfolding decide_all
    decide_all-StaysSafe environment [] = search safe_rules
    decide_all-StaysSafe environment (a ∷ actions) =
        Within-bind StaysSafe-frame (decide_one env e environment a) _
          (decide_one-StaysSafe environment a)
          λ d.
            Within-bind StaysSafe-frame (decide_all env e environment actions) _
              (decide_all-StaysSafe environment actions) λ ds. Within-pure StaysSafe-frame (d ∷ ds)

    evaluate_filtered-StaysSafe :
        (incident : Incident) (actions : List CandidateAction)
        → Within StaysSafe (evaluate_filtered env e incident actions)
    unfolding evaluate_filtered
    evaluate_filtered-StaysSafe incident actions =
        search
          (
            safe_rules, decide_all-StaysSafe, save_policy-StaysSafe, refresh-StaysSafe,
            audit-StaysSafe, audit_now-StaysSafe,
          )
          depth 28

    -- An evaluation keeps the ids of each incident's actions distinct and each target to one started
    -- execution, whether or not it fails.
    pub evaluate_actions-StaysSafe :
        (incident : Incident) (actions : List CandidateAction)
        → Within StaysSafe (evaluate_actions env e incident actions)
    unfolding evaluate_actions
    evaluate_actions-StaysSafe incident actions =
        search (safe_rules, evaluate_filtered-StaysSafe) depth 12
