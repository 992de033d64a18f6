-- ===== src/Tests/Triages.antt =====
-- Triages that fail, a job that is tried again, and webhooks.
use triovexa.Prelude.{refl, [], ◌∷◌, none, some, ◌≡◌, get, put}
use triovexa.Domain.{same_state, detected, triaging, action_proposed, escalated, awaiting}
use triovexa.Failure.{invalid_transition, triage_generation_failed}
use triovexa.Storage.Incidents.{
  get_incident, with_state, compare_and_swap_incident_state, add_audit_event, save_evidence_items,
}
use triovexa.Alerting.{
  GrafanaAlert, GrafanaWebhookPayload, normalize_alert, normalize_grafana_payload,
}
use triovexa.Alerting.Names.{IsNamed, normalize_grafana_payload-IsNamed}
use triovexa.World.{
  World, err, final, ◌>>=◌, guard, now, attempt, pure, ask, modify, audit, new_id, raise,
}
use triovexa.Transition.{transition_incident_state}
use triovexa.StateMachine.{
  is_terminal_incident_state, can_transition, allowed_transitions, has_state,
}
use triovexa.World.Within.{Within}
use triovexa.World.Silent.{Silent}
use triovexa.Triage.{
  answer, failure, TriageConfig, keep_evidence, keep_documents, keep_triage, audit_stage,
  run_read_only_triage, run_triage_in_background, process_workflow_job,
}
use triovexa.Triage.Effects.{process_workflow_job-Silent}
use triovexa.Triage.Failures.{process_workflow_job-stuck, background-escalates}
use triovexa.Ingest.{ingest_grafana_webhook, ingest_grafana_webhook_async}
use triovexa.Ingest.Effects.{webhook-Silent}
use triovexa.Tests.Scenario.{process, incident_in, store_in, world_of, evidence_item}

-- A generator that is down.
abbrev down : TriageConfig
down = record {
  collect = λ i n. answer (evidence_item ∷ []);
  retrieve = λ i items n. failure "no index";
  generate = λ i items documents n. failure "no model";
  actions = none;
  workflow = none;
}

abbrev primary : GrafanaAlert
primary = record {
  status = "Firing";
  labels = ("env", "staging") ∷ [];
  annotations = [];
  starts_at = 62135596800000000000;
  fingerprint = "";
}

abbrev payload : GrafanaWebhookPayload
payload = record {
  title = " queue lag ";
  state = "";
  common_labels = ("service", "checkout") ∷ [];
  alerts = primary ∷ [];
}

abbrev world : World
world = world_of (store_in detected awaiting [])

abbrev proposed : World
proposed = world_of (store_in action_proposed awaiting [])

process_workflow_job-Silent_example :
    Within Silent (process_workflow_job process down "triage" (some "i"))
process_workflow_job-Silent_example = process_workflow_job-Silent process down "triage" (some "i")

process_workflow_job-stuck_example :
    process_workflow_job process down "triage" (some "i") proposed
    ≡ err (invalid_transition action_proposed triaging) proposed
unfolding get_incident get is_terminal_incident_state
process_workflow_job-stuck_example =
    process_workflow_job-stuck process down "i" (incident_in action_proposed) proposed refl refl
      (λ e. cc) λ e. cc

background-escalates_example :
    get_incident "i"
      (final (run_triage_in_background process down (incident_in detected) world)).store
    ≡ some (with_state 1009 escalated (with_state 1000 triaging (incident_in detected)))
unfolding run_read_only_triage ◌>>=◌ transition_incident_state same_state guard can_transition
    allowed_transitions has_state now attempt compare_and_swap_incident_state get get_incident put
    pure ask keep_evidence keep_documents keep_triage modify audit_stage audit new_id raise
    add_audit_event save_evidence_items
background-escalates_example =
    background-escalates process down (incident_in detected)
      (with_state 1000 triaging (incident_in detected)) triage_generation_failed world
      (final (run_read_only_triage process down (incident_in detected) world)) refl refl refl refl

webhook-Silent_example :
    Within Silent (ingest_grafana_webhook process (some down) payload)
    × Within Silent (ingest_grafana_webhook_async process (some down) payload)
    × Within Silent (run_triage_in_background process down (incident_in detected))
webhook-Silent_example = webhook-Silent process (some down) payload down (incident_in detected)

normalize_grafana_payload-IsNamed_example : IsNamed (normalize_alert payload primary)
unfolding normalize_grafana_payload
normalize_grafana_payload-IsNamed_example =
    normalize_grafana_payload-IsNamed payload (normalize_alert payload primary) refl
