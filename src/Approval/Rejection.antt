-- ===== src/Approval/Rejection.antt =====
-- Rejecting the last action that awaits an approval (internal/approval/service.go).
use triovexa.Prelude.{
  suc, String, Bool, true, false, ◌≡◌, refl, inl, inr, none, some, arith, List, [], ◌∷◌, str_eq,
  trim_space, any, if◌then◌else◌, Bool-cases,
}
use triovexa.Domain.{
  Incident, IncidentState, same_state, awaiting_approval, action_proposed, approved,
  CandidateAction, is_awaiting, is_executable_status, awaiting, denied,
}
use triovexa.Failure.{invalid_transition}
use triovexa.Storage.{MemoryStore}
use triovexa.Storage.Incidents.{get_incident}
use triovexa.Storage.Actions.{get_candidate_action, list_candidate_actions}
use triovexa.Storage.Approvals.{decide_approval}
use triovexa.StateMachine.{can_transition}
use triovexa.World.{World, Env, err, ◌>>=◌, fetch, look, attempt, guard, now, new_id}
use triovexa.Transition.{transition_incident_state}
use triovexa.Approval.{refreshed_state, refresh_incident_state, reject_action, rejection_record}

abbrev pub is_ready : CandidateAction → Bool
is_ready a = is_executable_status a.status

abbrev pub is_open : CandidateAction → Bool
is_open a = is_awaiting a.status

refreshed_ready :
    (actions : List CandidateAction) (next : IncidentState)
    → any is_ready actions ≡ true
    → refreshed_state actions next ≡ approved
unfolding refreshed_state
refreshed_ready [] next h = cc
refreshed_ready (a ∷ actions) next h =
    ground (arith, refreshed_ready actions awaiting_approval, refreshed_ready actions next)

refreshed_open :
    (actions : List CandidateAction) (next : IncidentState)
    → any is_ready actions ≡ false
    → refreshed_state actions next ≡ (if any is_open actions then awaiting_approval else next)
unfolding refreshed_state
refreshed_open [] next h = refl
refreshed_open (a ∷ actions) next h =
    ground (arith, refreshed_open actions awaiting_approval, refreshed_open actions next)

-- The state that the actions call for: approved if one may be executed, else awaiting an approval
-- if one awaits it, else proposed; the order of the actions does not matter.
pub refreshed_state_lem :
    (actions : List CandidateAction)
    → refreshed_state actions action_proposed ≡ (
        if any is_ready actions
        then approved
        else if any is_open actions
        then awaiting_approval
        else action_proposed)
refreshed_state_lem actions = elim (Bool-cases (any is_ready actions)) [
  | inl e ↦ rw e (refreshed_ready actions action_proposed e)
  | inr e ↦ rw e (refreshed_open actions action_proposed e)
]

module _ (env : Env) (action_id rejected_by note : String) (w : World) (s : MemoryStore)
    (action : CandidateAction) (incident : Incident) where
  -- When the incident awaits an approval and the rejection leaves no action that
  -- awaits one or may be executed, the rejection is stored and yet RejectAction fails, with no
  -- audit event: the table has no way from awaiting_approval to action_proposed.
  pub reject_last :
      str_eq (trim_space rejected_by) "" ≡ false
      → get_candidate_action action_id w.store ≡ some action
      → is_awaiting action.status ≡ true
      → get_incident action.incident_id w.store ≡ some incident
      → incident.state ≡ awaiting_approval
      → decide_approval
          (env.clock (suc w.reads))
          action.incident_id
          (rejection_record env (env.uuid w.ids) action_id rejected_by note (env.clock w.reads))
          awaiting
          denied
          none
          none
          w.store
        ≡ some (true, s)
      → any is_ready (list_candidate_actions incident.id s) ≡ false
      → any is_open (list_candidate_actions incident.id s) ≡ false
      → reject_action env action_id rejected_by note w
        ≡ err
            (invalid_transition awaiting_approval action_proposed)
            (record w { store = s; reads = suc (suc w.reads); ids = suc w.ids })
  unfolding reject_action refresh_incident_state transition_incident_state ◌>>=◌ guard fetch look
      attempt now new_id can_transition same_state
  reject_last named found awaits incident_found state decided not_ready not_open =
      ground (arith, refreshed_state_lem (list_candidate_actions incident.id s))
