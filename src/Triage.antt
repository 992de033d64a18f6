-- ===== src/Triage.antt =====
-- The read-only triage of internal/incident/service.go (runReadOnlyTriage and its callers), over the
-- store in memory. The collector, the retriever and the two generators are interfaces: what they
-- answer is a parameter.
pub mod Effects
pub mod Failures
use triovexa.Prelude.{
  ℕ, String, Bool, true, false, List, [], ◌∷◌, Option, none, some, length, suc, ltb, ◌==◌, str_eq,
  trim_space, if◌then◌else◌,
}
use triovexa.Domain.{
  Time, Incident, triaging, action_proposed, escalated, EvidenceItem, DocumentReference,
  TriageResult, CandidateAction, is_invalid, Details, text, number,
}
use triovexa.Failure.{
  Failure, triage_generation_failed, action_generation_failed, not_found, unsupported_job,
  undecodable_job,
}
use triovexa.Storage.Incidents.{
  get_incident, save_evidence_items, save_document_references, save_triage_result,
}
use triovexa.Storage.Actions.{save_candidate_actions}
use triovexa.StateMachine.{is_terminal_incident_state}
use triovexa.World.{
  Env, M, ◌>>=◌, ◌>>◌, pure, raise, when, fetch, or_fail, ask, modify, now, audit, audit_now,
  swallow,
}
use triovexa.Transition.{transition_incident_state}
use triovexa.Policy.{Evaluator}
use triovexa.Approval.{evaluate_actions}

-- A result, or the text of an error.
pub data Answer {ℓ} (A : Type ℓ) : Type ℓ where
  answer : A → Answer A
  failure : String → Answer A

-- ActionGenerator, with the CatalogMode that it may offer.
pub record ActionGenerator : Type 0 where
  pub catalog_mode : Option String
  pub generate :
      Incident
      → TriageResult
      → List EvidenceItem
      → List DocumentReference
      → ℕ
      → Answer (List CandidateAction)

-- The parts of Service that a triage uses; the workflow is the approval service.
pub record TriageConfig : Type 0 where
  pub collect : Incident → ℕ → Answer (List EvidenceItem)
  pub retrieve : Incident → List EvidenceItem → ℕ → Answer (List DocumentReference)
  pub generate : Incident → List EvidenceItem → List DocumentReference → ℕ → Answer TriageResult
  pub actions : Option ActionGenerator
  pub workflow : Option Evaluator

unfoldable pub count_invalid : List CandidateAction → ℕ
count_invalid [] = 0
count_invalid (a ∷ actions) =
    if is_invalid a.status then suc (count_invalid actions) else count_invalid actions

unfoldable pub count_valid : List CandidateAction → ℕ
count_valid [] = 0
count_valid (a ∷ actions) =
    if is_invalid a.status then count_valid actions else suc (count_valid actions)

mode_label : String → String
mode_label label = if str_eq label "" then "heuristic-constrained" else label

unfoldable pub action_catalog_mode : ActionGenerator → String
unfolding mode_label
action_catalog_mode g = elim g.catalog_mode [
  | none ↦ "heuristic-constrained"
  | some label ↦ mode_label (trim_space label)
]

module _ (env : Env) (c : TriageConfig) where
  -- A stage ends with an audit event, from the stage's begin to a new reading of the clock.
  unfoldable pub audit_stage : Incident → String → String → Details → Time → M (Unit {0})
  audit_stage incident stage status details started_at = do
    finished_at ← now env
    audit env incident.id stage status details started_at finished_at

  unfoldable pub keep_evidence :
      Incident → Time → Answer (List EvidenceItem) → M (List EvidenceItem)
  keep_evidence incident at (failure e) = do
    audit_stage incident "context_collection" "partial_failure" (("error", text e) ∷ []) at
    pure []
  keep_evidence incident at (answer items) = do
    modify (save_evidence_items items)
    audit_stage incident "context_collection" "completed"
        (("evidence_count", number (length items)) ∷ []) at
    pure items

  unfoldable pub keep_documents :
      Incident → Time → Answer (List DocumentReference) → M (List DocumentReference)
  keep_documents incident at (failure e) = do
    audit_stage incident "knowledge_retrieval" "partial_failure" (("error", text e) ∷ []) at
    pure []
  keep_documents incident at (answer documents) = do
    modify (save_document_references documents)
    audit_stage incident "knowledge_retrieval" "completed"
        (("document_count", number (length documents)) ∷ []) at
    pure documents

  unfoldable pub keep_triage : Incident → Time → Answer TriageResult → M TriageResult
  keep_triage incident at (failure e) = do
    audit_stage incident "triage_generation" "failed" (("error", text e) ∷ []) at
    raise triage_generation_failed
  keep_triage incident at (answer result) = do
    modify (save_triage_result result)
    audit_stage incident "triage_generation" "completed"
        (("hypotheses_count", number (length result.hypotheses))
          ∷ ("next_steps_count", number (length result.next_steps))
          ∷ [])
        at
    pure result

  -- The second snapshot, for the choice of actions; where it fails the first one serves.
  unfoldable pub keep_refreshed :
      Incident → Time → List EvidenceItem → Answer (List EvidenceItem) → M (List EvidenceItem)
  keep_refreshed incident at evidence (failure e) = do
    audit_stage incident "action_evidence_refresh" "partial_failure" (("error", text e) ∷ []) at
    pure evidence
  keep_refreshed incident at evidence (answer items) = do
    modify (save_evidence_items items)
    audit_stage incident "action_evidence_refresh" "completed"
        (("evidence_count", number (length items)) ∷ []) at
    pure items

  unfoldable pub keep_actions :
      Incident → Time → Answer (List CandidateAction) → M (List CandidateAction)
  keep_actions incident at (failure e) = do
    audit_stage incident "action_generation" "failed" (("error", text e) ∷ []) at
    raise action_generation_failed
  keep_actions incident at (answer actions) = do
    when (ltb 0 (length actions)) (modify (save_candidate_actions actions))
    audit_stage incident "action_generation" "completed"
        (("candidate_count", number (count_valid actions))
          ∷ ("invalid_count", number (count_invalid actions))
          ∷ [])
        at
    when (ltb 0 (count_invalid actions)) (
        audit_now env incident.id "action_validation" "completed"
          (("invalid_count", number (count_invalid actions)) ∷ []))
    pure actions

  unfoldable pub run_workflow : Option Evaluator → Incident → List CandidateAction → M Incident
  run_workflow none incident actions = pure incident
  run_workflow (some evaluator) incident actions = evaluate_actions env evaluator incident actions

  -- With no valid action the incident is escalated, else its actions go to the approval service.
  unfoldable pub follow_up : Incident → List CandidateAction → M Incident
  follow_up incident actions =
      if count_valid actions == 0
      then (do
        audit_now env incident.id "action_follow_up" "escalated" (
            ("reason", text "no valid candidate actions generated")
            ∷ ("invalid_count", number (count_invalid actions))
            ∷ ("candidate_count", number (length actions))
            ∷ [])
        transition_incident_state env incident escalated)
      else (do
        proposed ← transition_incident_state env incident action_proposed
        run_workflow c.workflow proposed actions)

  unfoldable pub propose_actions :
      Option ActionGenerator
      → Incident
      → TriageResult
      → List EvidenceItem
      → List DocumentReference
      → M Incident
  propose_actions none incident result evidence documents = pure incident
  propose_actions (some g) incident result evidence documents = do
    refreshed_at ← now env
    refreshed ← ask (c.collect incident)
    action_evidence ← keep_refreshed incident refreshed_at evidence refreshed
    started_at ← now env
    audit env incident.id "action_generation" "started"
        (("catalog_mode", text (action_catalog_mode g)) ∷ []) started_at started_at
    generated ← ask (g.generate incident result action_evidence documents)
    actions ← keep_actions incident started_at generated
    follow_up incident actions

  unfoldable pub run_read_only_triage : Incident → M Incident
  run_read_only_triage given = do
    incident ← transition_incident_state env given triaging
    collected_at ← now env
    collected ← ask (c.collect incident)
    evidence ← keep_evidence incident collected_at collected
    retrieved_at ← now env
    retrieved ← ask (c.retrieve incident evidence)
    documents ← keep_documents incident retrieved_at retrieved
    triaged_at ← now env
    generated ← ask (c.generate incident evidence documents)
    result ← keep_triage incident triaged_at generated
    propose_actions c.actions incident result evidence documents

  -- The latest incident is escalated where the table allows it; a failure to do so is dropped.
  unfoldable pub escalate_latest : Incident → M (Unit {0})
  escalate_latest incident = do
    latest ← fetch (get_incident incident.id) not_found
    _ ← transition_incident_state env latest escalated
    audit_now env incident.id "background_triage" "escalated"
        (("reason", text "background triage failed") ∷ [])

  -- The body of the goroutine, which has no caller to return an error to.
  unfoldable pub run_triage_in_background : Incident → M (Unit {0})
  run_triage_in_background incident = swallow (run_read_only_triage incident) (do
    audit_now env incident.id "background_triage" "failed" []
    swallow (escalate_latest incident) (pure tt))

  -- ProcessWorkflowJob, from the decoded payload on; `none` is a payload that does not decode.
  unfoldable pub process_workflow_job : String → Option String → M (Unit {0})
  process_workflow_job job_type payload =
      if str_eq job_type "triage"
      then (do
        incident_id ← or_fail payload undecodable_job
        incident ← fetch (get_incident incident_id) not_found
        if is_terminal_incident_state incident.state
            then pure tt
            else (do _ ← run_read_only_triage incident; pure tt))
      else raise unsupported_job
