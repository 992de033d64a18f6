-- ===== src/Storage/Actions.antt =====
-- The candidate actions and the policy decisions of internal/storage/memory.go.
use triovexa.Prelude.{
  String, Bool, List, [], ◌∷◌, ◌++◌, Option, none, some, ltb, str_eq, if◌then◌else◌, any, find,
  update_first, Map, get, put, get_list, values, sort_by,
}
use triovexa.Domain.{CandidateAction, CandidateActionStatus, PolicyDecision}
use triovexa.Storage.Store.{MemoryStore}

abbrev pub has_id : String → CandidateAction → Bool
has_id id action = str_eq action.id id

abbrev pub with_status : CandidateActionStatus → CandidateAction → CandidateAction
with_status status action = record action { status = status }

-- The first loop of SaveCandidateActions: the actions by incident.
unfoldable pub group_by_incident :
    List CandidateAction → Map (List CandidateAction) → Map (List CandidateAction)
group_by_incident [] grouped = grouped
group_by_incident (action ∷ rest) grouped =
    group_by_incident rest
      (put action.incident_id (get_list action.incident_id grouped ++ action ∷ []) grouped)

-- The second loop: an incident's group replaces what it had.
unfoldable pub replace_groups :
    Map (List CandidateAction) → Map (List CandidateAction) → Map (List CandidateAction)
replace_groups [] actions = actions
replace_groups ((id, group) ∷ groups) actions = replace_groups groups (put id group actions)

unfoldable pub save_candidate_actions : List CandidateAction → MemoryStore → MemoryStore
unfolding group_by_incident replace_groups
save_candidate_actions actions s = record s {
  actions = replace_groups (group_by_incident actions []) s.actions;
}

unfoldable pub list_candidate_actions : String → MemoryStore → List CandidateAction
list_candidate_actions incident_id s =
    sort_by (λ (a b : CandidateAction). ltb a.created_at b.created_at)
      (get_list incident_id s.actions)

unfoldable pub get_candidate_action : String → MemoryStore → Option CandidateAction
get_candidate_action id s = find (has_id id) (values s.actions)

unfoldable pub update_status_in :
    String
    → CandidateActionStatus
    → Map (List CandidateAction)
    → Option (Map (List CandidateAction))
update_status_in id status [] = none
update_status_in id status ((incident_id, xs) ∷ m) =
    let rest = update_status_in id status m in
    if any (has_id id) xs
    then some ((incident_id, update_first (has_id id) (with_status status) xs) ∷ m)
    else elim rest [ none ↦ none | some m' ↦ some ((incident_id, xs) ∷ m') ]

unfoldable pub update_candidate_action_status :
    String → CandidateActionStatus → MemoryStore → Option MemoryStore
unfolding update_status_in
update_candidate_action_status id status s = elim (update_status_in id status s.actions) [
  | none ↦ none
  | some actions ↦ some (record s { actions = actions })
]

unfoldable pub save_policy_decisions : List PolicyDecision → MemoryStore → MemoryStore
save_policy_decisions [] s = s
save_policy_decisions (decision ∷ rest) s =
    save_policy_decisions rest
      (record s { policies = put decision.candidate_action_id decision s.policies })

unfoldable pub get_policy_decision : String → MemoryStore → Option PolicyDecision
get_policy_decision id s = get id s.policies
