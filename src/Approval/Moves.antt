-- ===== src/Approval/Moves.antt =====
-- The evaluation of internal/approval/service.go leaves each incident in a state that the transition table
-- reaches from the one before.
use triovexa.Prelude.{String, ◌≡◌, refl, Option-cases, none, some, arith, List, [], ◌∷◌, get, put}
use triovexa.Domain.{
  Time, Incident, IncidentState, CandidateAction, CandidateActionStatus, Details, AuditEvent,
  ApprovalRecord, PolicyDecision,
}
use triovexa.Storage.{MemoryStore}
use triovexa.Storage.Incidents.{add_audit_event, with_state}
use triovexa.Storage.Actions.{
  update_candidate_action_status, update_status_in, save_policy_decisions,
}
use triovexa.Storage.Approvals.{decide_write}
use triovexa.World.{Env, modify, update, audit, audit_now}
use triovexa.World.Within
use triovexa.World.Within.{Within, IsFrame, within_rules}
use triovexa.Transition.Moves.{
  CanReach, here, next, Moves, StoreMoves, Moves-frame, same_incidents, put-StoreMoves,
  transition-Moves,
}
use triovexa.Policy.{Evaluator}
use triovexa.Approval.{
  refresh_incident_state, decide_one, decide_all, evaluate_filtered, evaluate_actions,
}

add_audit-incidents :
    (e : AuditEvent) (s : MemoryStore) → (add_audit_event e s).incidents ≡ s.incidents
unfolding add_audit_event
add_audit-incidents e s = refl

pub audit-Moves :
    (env : Env) (incident_id step_name status : String) (details : Details) (from to : Time)
    → Within Moves (audit env incident_id step_name status details from to)
unfolding audit
audit-Moves env incident_id step_name status details from to =
    search (within_rules, Moves-frame, added) depth 10
  where
    added : (e : AuditEvent) → Within Moves (modify (add_audit_event e))
    added e =
        Within.Within-modify Moves-frame (add_audit_event e)
          λ w. same_incidents w.store (add_audit_event e w.store) (add_audit-incidents e w.store)

pub audit_now-Moves :
    (env : Env) (incident_id step_name status : String) (details : Details)
    → Within Moves (audit_now env incident_id step_name status details)
unfolding audit_now
audit_now-Moves env incident_id step_name status details =
    search (within_rules, Moves-frame, audit-Moves) depth 10

pub update_status-Moves :
    (id : String) (status : CandidateActionStatus)
    → Within Moves (update (update_candidate_action_status id status))
update_status-Moves id status =
    Within.Within-update Moves-frame _ λ w s h. same_incidents w.store s (kept w.store s h)
  where
    kept :
        (s t : MemoryStore)
        → update_candidate_action_status id status s ≡ some t
        → t.incidents ≡ s.incidents
    kept s t h =
        unfold update_candidate_action_status in
        ground (arith, Option-cases (update_status_in id status s.actions))

pub save_policy-incidents :
    (ds : List PolicyDecision) (s : MemoryStore)
    → (save_policy_decisions ds s).incidents ≡ s.incidents
unfolding save_policy_decisions
save_policy-incidents [] s = refl
save_policy-incidents (d ∷ ds) s =
    save_policy-incidents ds (record s { policies = put d.candidate_action_id d s.policies })

save_policy-Moves : (ds : List PolicyDecision) → Within Moves (modify (save_policy_decisions ds))
save_policy-Moves ds = Within.Within-modify Moves-frame (save_policy_decisions ds) λ w.
    same_incidents w.store (save_policy_decisions ds w.store) (save_policy-incidents ds w.store)

pub ruleset moves_rules =
    (within_rules, Moves-frame, transition-Moves, audit-Moves, audit_now-Moves, update_status-Moves)

refresh-Moves :
    (env : Env) (incident : Incident) → Within Moves (refresh_incident_state env incident)
unfolding refresh_incident_state
refresh-Moves env incident = search moves_rules depth 10

decide_one-Moves :
    (env : Env) (e : Evaluator) (environment : String) (action : CandidateAction)
    → Within Moves (decide_one env e environment action)
unfolding decide_one
decide_one-Moves env e environment action = search moves_rules depth 16

decide_all-Moves :
    (env : Env) (e : Evaluator) (environment : String) (actions : List CandidateAction)
    → Within Moves (decide_all env e environment actions)
unfolding decide_all
decide_all-Moves env e environment [] = search moves_rules
decide_all-Moves env e environment (a ∷ actions) =
    Within.Within-bind Moves-frame (decide_one env e environment a) _
      (decide_one-Moves env e environment a)
      λ d.
        Within.Within-bind Moves-frame (decide_all env e environment actions) _
          (decide_all-Moves env e environment actions) λ ds. Within.Within-pure Moves-frame (d ∷ ds)

evaluate_filtered-Moves :
    (env : Env) (e : Evaluator) (incident : Incident) (actions : List CandidateAction)
    → Within Moves (evaluate_filtered env e incident actions)
unfolding evaluate_filtered
evaluate_filtered-Moves env e incident actions =
    search (moves_rules, decide_all-Moves, save_policy-Moves, refresh-Moves) depth 24

-- Judging an incident's actions leaves each incident in a state that the table reaches from the one
-- before, whether or not it fails.
pub evaluate_actions-Moves :
    (env : Env) (e : Evaluator) (incident : Incident) (actions : List CandidateAction)
    → Within Moves (evaluate_actions env e incident actions)
unfolding evaluate_actions
evaluate_actions-Moves env e incident actions = search (moves_rules, evaluate_filtered-Moves)

-- A decision moves its incident as the caller says, from the state that the caller expects.
module _ (at : Time) (incident_id : String) (record_ : ApprovalRecord)
    (expected target : CandidateActionStatus) (s : MemoryStore) where
  pub decide_write-incidents_none :
      (decide_write at incident_id record_ target none s).incidents ≡ s.incidents
  unfolding decide_write
  decide_write-incidents_none = refl

  pub decide_write-incidents_some :
      (to : IncidentState) (incident : Incident)
      → get incident_id s.incidents ≡ some incident
      → (decide_write at incident_id record_ target (some to) s).incidents
        ≡ put incident_id (with_state at to incident) s.incidents
  unfolding decide_write
  decide_write-incidents_some to incident h = ground arith
