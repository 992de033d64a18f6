-- ===== src/Storage/Approvals.antt =====
-- The approval records of internal/storage/memory.go, and the decision that is one step.
pub mod Atomic
use triovexa.Prelude.{
  String, Bool, true, false, not, ◌&&◌, List, [], ◌∷◌, ◌++◌, Option, none, some, ltb, if◌then◌else◌,
  find, update_first, Map, get, put, get_list, sort_by,
}
use triovexa.Domain.{
  Time, IncidentState, same_state, CandidateAction, CandidateActionStatus, same_status,
  ApprovalRecord,
}
use triovexa.Storage.Store.{MemoryStore}
use triovexa.Storage.Incidents.{with_state}
use triovexa.Storage.Actions.{has_id, with_status}

unfoldable pub add_approval : ApprovalRecord → MemoryStore → MemoryStore
add_approval record_ s = record s {
  approvals =
      put record_.candidate_action_id
        (get_list record_.candidate_action_id s.approvals ++ record_ ∷ []) s.approvals;
}

-- An `expectedIncident` or `nextIncident` of "" is `none`.
abbrev pub state_expected : Option IncidentState → IncidentState → Bool
state_expected none state = true
state_expected (some expected) state = same_state state expected

-- The writes of a decision that passed its tests.
unfoldable pub decide_write :
    Time
    → String
    → ApprovalRecord
    → CandidateActionStatus
    → Option IncidentState
    → MemoryStore
    → MemoryStore
unfolding add_approval
decide_write now incident_id record_ next_action next_incident s =
    let s' : MemoryStore = add_approval record_ (record s {
      actions =
          put incident_id
            (update_first (has_id record_.candidate_action_id) (with_status next_action)
              (get_list incident_id s.actions))
            s.actions;
    }) in
    elim next_incident [
      | none ↦ s'
      | some next ↦ elim (get incident_id s.incidents) [
        | none ↦ s'
        | some incident ↦ record s' {
          incidents = put incident_id (with_state now next incident) s.incidents;
        }
      ]
    ]

unfoldable pub decide_approval :
    Time
    → String
    → ApprovalRecord
    → CandidateActionStatus
    → CandidateActionStatus
    → Option IncidentState
    → Option IncidentState
    → MemoryStore
    → Option (Bool × MemoryStore)
decide_approval now incident_id record_ expected_action next_action expected_incident next_incident
      s =
    elim (find (has_id record_.candidate_action_id) (get_list incident_id s.actions)) [
      | none ↦ none
      | some action ↦
          if not (same_status action.status expected_action)
          then some (false, s)
          else elim (get incident_id s.incidents) [
            | none ↦ none
            | some incident ↦
                if not (state_expected expected_incident incident.state)
                then some (false, s)
                else some (true, decide_write now incident_id record_ next_action next_incident s)
          ]
    ]

-- The records of all the incident's actions, action after action.
unfoldable pub records_of : List CandidateAction → Map (List ApprovalRecord) → List ApprovalRecord
records_of [] approvals = []
records_of (action ∷ actions) approvals =
    get_list action.id approvals ++ records_of actions approvals

unfoldable pub list_approval_records : String → MemoryStore → List ApprovalRecord
unfolding records_of
list_approval_records incident_id s =
    sort_by (λ (a b : ApprovalRecord). ltb a.created_at b.created_at)
      (records_of (get_list incident_id s.actions) s.approvals)
