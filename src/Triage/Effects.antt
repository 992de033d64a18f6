-- ===== src/Triage/Effects.antt =====
-- What a triage of internal/incident/service.go may change: for any relation that its writes keep, and
-- then for two of them.
use triovexa.Prelude.{String, List, [], ◌∷◌, Option, none, some, ◌≡◌, refl, put, get_list, ◌++◌}
use triovexa.Domain.{
  Time, Incident, IncidentState, EvidenceItem, DocumentReference, TriageResult, CandidateAction,
  Details,
}
use triovexa.Storage.{MemoryStore}
use triovexa.Storage.Incidents.{save_evidence_items, save_document_references, save_triage_result}
use triovexa.Storage.Actions.{save_candidate_actions}
use triovexa.World.{World, Env, modify, audit, audit_now}
use triovexa.World.Within.{Within, IsFrame, within_rules, Within-modify}
use triovexa.World.Quiet.{audit-Quiet, audit_now-Quiet}
use triovexa.World.Silent.{Silent, Silent-frame, silent_rules, Quiet-Silent}
use triovexa.Transition.{transition_incident_state}
use triovexa.Transition.Moves.{Moves, Moves-frame, same_incidents, transition-Moves}
use triovexa.Policy.{Evaluator}
use triovexa.Approval.{evaluate_actions}
use triovexa.Approval.Moves.{audit-Moves, audit_now-Moves, evaluate_actions-Moves}
use triovexa.Approval.Silence.{evaluate_actions-Silent}
use triovexa.Execution.Recovery.Effects.{transition-Silent}
use triovexa.Triage.{
  Answer, answer, failure, ActionGenerator, TriageConfig, audit_stage, keep_evidence,
  keep_documents, keep_triage, keep_refreshed, keep_actions, run_workflow, follow_up,
  propose_actions, run_read_only_triage, escalate_latest, run_triage_in_background,
  process_workflow_job,
}

-- A relation that each write of a triage keeps.
pub record IsTriageFrame (env : Env) (R : World → World → Type 0) : Type 0 where
  pub frame : IsFrame R
  pub audits :
      (incident_id step_name status : String) (details : Details) (from to : Time)
      → Within R (audit env incident_id step_name status details from to)
  pub audits_now :
      (incident_id step_name status : String) (details : Details)
      → Within R (audit_now env incident_id step_name status details)
  pub transits :
      (incident : Incident) (next : IncidentState)
      → Within R (transition_incident_state env incident next)
  pub saves_evidence : (items : List EvidenceItem) → Within R (modify (save_evidence_items items))
  pub saves_documents :
      (ds : List DocumentReference) → Within R (modify (save_document_references ds))
  pub saves_triage : (result : TriageResult) → Within R (modify (save_triage_result result))
  pub saves_actions :
      (actions : List CandidateAction) → Within R (modify (save_candidate_actions actions))
  pub evaluates :
      (e : Evaluator) (incident : Incident) (actions : List CandidateAction)
      → Within R (evaluate_actions env e incident actions)

module _ (env : Env) (c : TriageConfig) {R : World → World → Type 0} (k : IsTriageFrame env R) where
  audit_stage-Within :
      (incident : Incident) (stage status : String) (details : Details) (started_at : Time)
      → Within R (audit_stage env c incident stage status details started_at)
  unfolding audit_stage
  audit_stage-Within incident stage status details started_at =
      search (within_rules, k.frame, k.audits) depth 12

  keep_evidence-Within :
      (incident : Incident) (at : Time) (a : Answer (List EvidenceItem))
      → Within R (keep_evidence env c incident at a)
  unfolding keep_evidence
  keep_evidence-Within incident at (failure e) =
      search (within_rules, k.frame, audit_stage-Within) depth 12
  keep_evidence-Within incident at (answer items) =
      search (within_rules, k.frame, k.saves_evidence, audit_stage-Within) depth 12

  keep_documents-Within :
      (incident : Incident) (at : Time) (a : Answer (List DocumentReference))
      → Within R (keep_documents env c incident at a)
  unfolding keep_documents
  keep_documents-Within incident at (failure e) =
      search (within_rules, k.frame, audit_stage-Within) depth 12
  keep_documents-Within incident at (answer ds) =
      search (within_rules, k.frame, k.saves_documents, audit_stage-Within) depth 12

  keep_triage-Within :
      (incident : Incident) (at : Time) (a : Answer TriageResult)
      → Within R (keep_triage env c incident at a)
  unfolding keep_triage
  keep_triage-Within incident at (failure e) =
      search (within_rules, k.frame, audit_stage-Within) depth 12
  keep_triage-Within incident at (answer result) =
      search (within_rules, k.frame, k.saves_triage, audit_stage-Within) depth 12

  keep_refreshed-Within :
      (incident : Incident) (at : Time) (evidence : List EvidenceItem)
      (a : Answer (List EvidenceItem))
      → Within R (keep_refreshed env c incident at evidence a)
  unfolding keep_refreshed
  keep_refreshed-Within incident at evidence (failure e) =
      search (within_rules, k.frame, audit_stage-Within) depth 12
  keep_refreshed-Within incident at evidence (answer items) =
      search (within_rules, k.frame, k.saves_evidence, audit_stage-Within) depth 12

  keep_actions-Within :
      (incident : Incident) (at : Time) (a : Answer (List CandidateAction))
      → Within R (keep_actions env c incident at a)
  unfolding keep_actions
  keep_actions-Within incident at (failure e) =
      search (within_rules, k.frame, audit_stage-Within) depth 12
  keep_actions-Within incident at (answer actions) =
      search (within_rules, k.frame, k.saves_actions, k.audits_now, audit_stage-Within) depth 24

  run_workflow-Within :
      (workflow : Option Evaluator) (incident : Incident) (actions : List CandidateAction)
      → Within R (run_workflow env c workflow incident actions)
  unfolding run_workflow
  run_workflow-Within none incident actions = search (within_rules, k.frame)
  run_workflow-Within (some e) incident actions = k.evaluates e incident actions

  follow_up-Within :
      (incident : Incident) (actions : List CandidateAction)
      → Within R (follow_up env c incident actions)
  unfolding follow_up
  follow_up-Within incident actions =
      search (within_rules, k.frame, k.audits_now, k.transits, run_workflow-Within) depth 24

  propose_actions-Within :
      (g : Option ActionGenerator) (incident : Incident) (result : TriageResult)
      (evidence : List EvidenceItem) (documents : List DocumentReference)
      → Within R (propose_actions env c g incident result evidence documents)
  unfolding propose_actions
  propose_actions-Within none incident result evidence documents = search (within_rules, k.frame)
  propose_actions-Within (some g) incident result evidence documents =
      search
        (
          within_rules, k.frame, k.audits, keep_refreshed-Within, keep_actions-Within,
          follow_up-Within,
        )
        depth 32

  pub triage-Within : (incident : Incident) → Within R (run_read_only_triage env c incident)
  unfolding run_read_only_triage
  triage-Within incident =
      search
        (
          within_rules, k.frame, k.transits, keep_evidence-Within, keep_documents-Within,
          keep_triage-Within, propose_actions-Within,
        )
        depth 40

  escalate_latest-Within : (incident : Incident) → Within R (escalate_latest env c incident)
  unfolding escalate_latest
  escalate_latest-Within incident =
      search (within_rules, k.frame, k.transits, k.audits_now) depth 16

  pub background-Within : (incident : Incident) → Within R (run_triage_in_background env c incident)
  unfolding run_triage_in_background
  background-Within incident =
      search (within_rules, k.frame, k.audits_now, triage-Within, escalate_latest-Within) depth 16

  pub job-Within :
      (job_type : String) (payload : Option String)
      → Within R (process_workflow_job env c job_type payload)
  unfolding process_workflow_job
  job-Within job_type payload = search (within_rules, k.frame, triage-Within) depth 24

save_evidence-incidents :
    (items : List EvidenceItem) (s : MemoryStore)
    → (save_evidence_items items s).incidents ≡ s.incidents
unfolding save_evidence_items
save_evidence-incidents [] s = refl
save_evidence-incidents (item ∷ items) s = save_evidence-incidents items (record s {
  evidence = put item.incident_id (get_list item.incident_id s.evidence ++ item ∷ []) s.evidence;
})

save_documents-incidents :
    (ds : List DocumentReference) (s : MemoryStore)
    → (save_document_references ds s).incidents ≡ s.incidents
unfolding save_document_references
save_documents-incidents [] s = refl
save_documents-incidents (d ∷ ds) s = save_documents-incidents ds (record s {
  documents = put d.incident_id (get_list d.incident_id s.documents ++ d ∷ []) s.documents;
})

save_actions-incidents :
    (actions : List CandidateAction) (s : MemoryStore)
    → (save_candidate_actions actions s).incidents ≡ s.incidents
unfolding save_candidate_actions
save_actions-incidents actions s = refl

save_triage-incidents :
    (result : TriageResult) (s : MemoryStore)
    → (save_triage_result result s).incidents ≡ s.incidents
unfolding save_triage_result
save_triage-incidents result s = refl

modify-Moves :
    (step : MemoryStore → MemoryStore)
    → ((s : MemoryStore) → (step s).incidents ≡ s.incidents)
    → Within Moves (modify step)
modify-Moves step same =
    Within-modify Moves-frame step λ w. same_incidents w.store (step w.store) (same w.store)

module _ (env : Env) where
  Moves-IsTriageFrame : IsTriageFrame env Moves
  Moves-IsTriageFrame = record {
    frame = Moves-frame;
    audits = audit-Moves env;
    audits_now = audit_now-Moves env;
    transits = transition-Moves env;
    saves_evidence =
        λ items. modify-Moves (save_evidence_items items) (save_evidence-incidents items);
    saves_documents =
        λ ds. modify-Moves (save_document_references ds) (save_documents-incidents ds);
    saves_triage =
        λ result. modify-Moves (save_triage_result result) (save_triage-incidents result);
    saves_actions =
        λ actions. modify-Moves (save_candidate_actions actions) (save_actions-incidents actions);
    evaluates = evaluate_actions-Moves env;
  }

  Silent-IsTriageFrame : IsTriageFrame env Silent
  Silent-IsTriageFrame = record {
    frame = Silent-frame;
    audits = λ i n s d from to. Quiet-Silent _ (audit-Quiet env i n s d from to);
    audits_now = λ i n s d. Quiet-Silent _ (audit_now-Quiet env i n s d);
    transits = transition-Silent env;
    saves_evidence = λ items. search silent_rules;
    saves_documents = λ ds. search silent_rules;
    saves_triage = λ result. search silent_rules;
    saves_actions = λ actions. search silent_rules;
    evaluates = evaluate_actions-Silent env;
  }

  module _ (c : TriageConfig) where
    pub triage-Silent : (incident : Incident) → Within Silent (run_read_only_triage env c incident)
    triage-Silent incident = triage-Within env c Silent-IsTriageFrame incident

    -- A workflow job never calls the adapter, whether or not it fails.
    pub process_workflow_job-Silent :
        (job_type : String) (payload : Option String)
        → Within Silent (process_workflow_job env c job_type payload)
    process_workflow_job-Silent job_type payload =
        job-Within env c Silent-IsTriageFrame job_type payload

    -- It leaves each incident in a state that the table reaches from the one before.
    process_workflow_job-Moves :
        (job_type : String) (payload : Option String)
        → Within Moves (process_workflow_job env c job_type payload)
    process_workflow_job-Moves job_type payload =
        job-Within env c Moves-IsTriageFrame job_type payload

    -- A triage in the background does both.
    pub run_triage_in_background-effects :
        (incident : Incident)
        → Within Silent (run_triage_in_background env c incident)
          × Within Moves (run_triage_in_background env c incident)
    run_triage_in_background-effects incident = (
      background-Within env c Silent-IsTriageFrame incident,
      background-Within env c Moves-IsTriageFrame incident,
    )
