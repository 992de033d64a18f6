-- ===== src/Storage/Queries.antt =====
-- The lists of internal/storage/memory.go that the HTTP layer reads. The `nil` and the empty slice are one
-- list here.
use triovexa.Prelude.{
  String, List, [], ◌∷◌, Option, none, some, str_eq, ltb, if◌then◌else◌, any, find, keep, sort_by,
  get, get_list, values, contains, Map,
}
use triovexa.Domain.{
  Incident, DocumentReference, TriageResult, CandidateAction, PolicyDecision, ExecutionRecord,
  VerificationResult, RollbackRecord,
}
use triovexa.Storage.Store.{MemoryStore}

abbrev values_of : Map Incident → List Incident
values_of [] = []
values_of ((id, incident) ∷ m) = incident ∷ values_of m

-- The latest creation first.
unfoldable pub list_incidents : MemoryStore → List Incident
list_incidents s =
    sort_by (λ (a b : Incident). ltb b.created_at a.created_at) (values_of s.incidents)

unfoldable pub list_document_references : String → MemoryStore → List DocumentReference
list_document_references incident_id s = get_list incident_id s.documents

unfoldable pub get_triage_result : String → MemoryStore → Option TriageResult
get_triage_result incident_id s = get incident_id s.triage_by_id

unfoldable pub decisions_of : Map PolicyDecision → List CandidateAction → List PolicyDecision
decisions_of policies [] = []
decisions_of policies (action ∷ actions) =
    let rest = decisions_of policies actions in
    elim (get action.id policies) [ none ↦ rest | some decision ↦ decision ∷ rest ]

unfoldable pub list_policy_decisions : String → MemoryStore → List PolicyDecision
unfolding decisions_of
list_policy_decisions incident_id s =
    sort_by (λ (a b : PolicyDecision). ltb a.decided_at b.decided_at)
      (decisions_of s.policies (get_list incident_id s.actions))

unfoldable pub list_execution_records : String → MemoryStore → List ExecutionRecord
list_execution_records incident_id s =
    sort_by (λ (a b : ExecutionRecord). ltb a.started_at b.started_at)
      (get_list incident_id s.executions)

-- The first result in the map's order.
unfoldable pub get_verification_result : String → MemoryStore → Option VerificationResult
get_verification_result execution_record_id s =
    find (λ (r : VerificationResult). str_eq r.execution_record_id execution_record_id)
      (values s.verify)

unfoldable pub list_verification_results : String → MemoryStore → List VerificationResult
list_verification_results incident_id s =
    sort_by (λ (a b : VerificationResult). ltb a.created_at b.created_at)
      (get_list incident_id s.verify)

unfoldable pub ids_of : String → List ExecutionRecord → List String
ids_of action_id [] = []
ids_of action_id (r ∷ rs) =
    if str_eq r.candidate_action_id action_id
    then r.id ∷ ids_of action_id rs
    else ids_of action_id rs

-- `none` where no incident has the action.
unfoldable pub list_verification_results_by_action :
    String → MemoryStore → Option (List VerificationResult)
list_verification_results_by_action action_id s =
    if any (λ (action : CandidateAction). str_eq action.id action_id) (values s.actions)
    then some (
        sort_by (λ (a b : VerificationResult). ltb a.created_at b.created_at)
          (keep
            (λ (r : VerificationResult).
              contains (ids_of action_id (values s.executions)) r.execution_record_id)
            (values s.verify)))
    else none

unfoldable pub list_rollback_records : String → MemoryStore → List RollbackRecord
list_rollback_records incident_id s =
    sort_by (λ (a b : RollbackRecord). ltb a.started_at b.started_at)
      (get_list incident_id s.rollbacks)

unfoldable pub list_rollback_records_by_action : String → MemoryStore → List RollbackRecord
list_rollback_records_by_action action_id s =
    sort_by (λ (a b : RollbackRecord). ltb a.started_at b.started_at)
      (keep (λ (r : RollbackRecord). str_eq r.candidate_action_id action_id) (values s.rollbacks))
