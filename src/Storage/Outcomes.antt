-- ===== src/Storage/Outcomes.antt =====
-- The verification results and the rollback records of internal/storage/memory.go.
use triovexa.Prelude.{
  String, Bool, ◌&&◌, ◌||◌, not, List, [], ◌∷◌, ◌++◌, Option, none, some, str_eq, if◌then◌else◌,
  any, update_first, Map, put, get_list,
}
use triovexa.Domain.{ExecutionRecord, VerificationResult, RollbackRecord}
use triovexa.Storage.Store.{MemoryStore}
use triovexa.Storage.Executions.{incident_of}

-- The incident whose executions hold the id; the empty id counts as none.
unfoldable pub incident_of_execution : String → Map (List ExecutionRecord) → Option String
incident_of_execution id [] = none
incident_of_execution id ((incident_id, xs) ∷ m) =
    let rest = incident_of_execution id m in
    if any (λ (r : ExecutionRecord). str_eq r.id id) xs && not (str_eq incident_id "")
    then some incident_id
    else rest

abbrev pub same_result : VerificationResult → VerificationResult → Bool
same_result result existing =
    str_eq existing.id result.id || str_eq existing.execution_record_id result.execution_record_id

unfoldable pub save_verification_result : VerificationResult → MemoryStore → Option MemoryStore
unfolding incident_of_execution
save_verification_result result s =
    elim (incident_of_execution result.execution_record_id s.executions) [
      | none ↦ none
      | some incident_id ↦
          let results = get_list incident_id s.verify in
          some (record s {
            verify =
                put incident_id
                  (if any (same_result result) results
                    then update_first (same_result result) (λ _. result) results
                    else results ++ result ∷ [])
                  s.verify;
          })
    ]

abbrev pub same_rollback : RollbackRecord → RollbackRecord → Bool
same_rollback record_ existing = str_eq existing.id record_.id

unfoldable pub save_rollback_record : RollbackRecord → MemoryStore → Option MemoryStore
save_rollback_record record_ s = elim (incident_of record_.candidate_action_id s.actions) [
  | none ↦ none
  | some incident_id ↦
      let records = get_list incident_id s.rollbacks in
      some (record s {
        rollbacks =
            put incident_id
              (if any (same_rollback record_) records
                then update_first (same_rollback record_) (λ _. record_) records
                else records ++ record_ ∷ [])
              s.rollbacks;
      })
]
