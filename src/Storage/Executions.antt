-- ===== src/Storage/Executions.antt =====
-- The execution records of internal/storage/memory.go, and the claim that is one step.
pub mod Claim
pub mod Exclusive
pub mod Safe
use triovexa.Prelude.{
  String, Bool, true, false, not, ◌&&◌, ◌||◌, List, [], ◌∷◌, ◌++◌, Option, none, some, ltb, str_eq,
  if◌then◌else◌, any, keep, find, update_first, Map, get, put, get_list, values, sort_by,
}
use triovexa.Domain.{
  Time, executing_action, CandidateAction, is_executable_status, executing, ExecutionRecord,
  ExecutionStatus, is_started,
}
use triovexa.Storage.Store.{MemoryStore}
use triovexa.Storage.Incidents.{with_state}
use triovexa.Storage.Actions.{has_id, with_status}

-- The incident whose actions hold the id; the empty id counts as none.
unfoldable pub incident_of : String → Map (List CandidateAction) → Option String
incident_of action_id [] = none
incident_of action_id ((incident_id, xs) ∷ m) =
    let rest = incident_of action_id m in
    if any (has_id action_id) xs && not (str_eq incident_id "") then some incident_id else rest

abbrev pub same_record : ExecutionRecord → ExecutionRecord → Bool
same_record record_ existing = str_eq existing.id record_.id

-- A record with the id is overwritten in place; else the new one goes to the end.
unfoldable pub upsert_execution : ExecutionRecord → List ExecutionRecord → List ExecutionRecord
upsert_execution record_ xs =
    if any (same_record record_) xs
    then update_first (same_record record_) (λ _. record_) xs
    else xs ++ record_ ∷ []

unfoldable pub save_execution_record : ExecutionRecord → MemoryStore → Option MemoryStore
unfolding incident_of upsert_execution
save_execution_record record_ s = elim (incident_of record_.candidate_action_id s.actions) [
  | none ↦ none
  | some incident_id ↦ some (record s {
    executions =
        put incident_id (upsert_execution record_ (get_list incident_id s.executions)) s.executions;
  })
]

abbrev pub is_for : String → ExecutionRecord → Bool
is_for action_id record_ = str_eq record_.candidate_action_id action_id

-- The record is started, and its action, one of `actions`, has the target.
abbrev pub holds : List CandidateAction → String → ExecutionRecord → Bool
holds actions target record_ =
    is_started record_.status
    && any
        (λ candidate.
          str_eq candidate.id record_.candidate_action_id
          && str_eq candidate.target_resource target)
        actions

-- Some started execution, of any incident, works on the target.
unfoldable pub target_busy : Map (List CandidateAction) → String → Map (List ExecutionRecord) → Bool
target_busy actions target [] = false
target_busy actions target ((incident_id, records) ∷ m) =
    any (holds (get_list incident_id actions) target) records || target_busy actions target m

unfoldable pub claim_execution :
    Time → String → String → ExecutionRecord → MemoryStore → Option (Bool × MemoryStore)
claim_execution now incident_id action_id record_ s = elim (get incident_id s.incidents) [
  | none ↦ none
  | some incident ↦ elim (find (has_id action_id) (get_list incident_id s.actions)) [
    | none ↦ none
    | some action ↦
        if not (is_executable_status action.status)
        then some (false, s)
        else if any (is_for action_id) (get_list incident_id s.executions)
        then some (false, s)
        else if target_busy s.actions action.target_resource s.executions
        then some (false, s)
        else some (
          true,
          record s {
            actions =
                put incident_id
                  (update_first (has_id action_id) (with_status executing)
                    (get_list incident_id s.actions))
                  s.actions;
            incidents = put incident_id (with_state now executing_action incident) s.incidents;
            executions =
                put incident_id (get_list incident_id s.executions ++ record_ ∷ []) s.executions;
          },
        )
  ]
]

abbrev by_start : List ExecutionRecord → List ExecutionRecord
by_start = sort_by (λ (a b : ExecutionRecord). ltb a.started_at b.started_at)

unfoldable pub list_execution_records_by_action : String → MemoryStore → List ExecutionRecord
list_execution_records_by_action action_id s =
    by_start (keep (is_for action_id) (values s.executions))

-- ListExecutionRecordsByStatus, at the one status that the services ask for.
unfoldable pub list_started_execution_records : MemoryStore → List ExecutionRecord
list_started_execution_records s =
    by_start (keep (λ (r : ExecutionRecord). is_started r.status) (values s.executions))
