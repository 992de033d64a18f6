-- ===== src/Ingest/Effects.antt =====
-- What a webhook of internal/incident/service.go sets off.
use triovexa.Prelude.{String, Bool, true, false, Option, none, some, Option-cases, inl, inr}
use triovexa.Alerting.{GrafanaWebhookPayload, NormalizedAlert}
use triovexa.Domain.{Time, Details, Incident}
use triovexa.Intake.{
  accept_alert, take_alert, resolve_alert, resolve_incident, open_incident, deduplicate,
}
use triovexa.StateMachine.{next_state_for_resolved_alert}
use triovexa.World.{Env, audit}
use triovexa.World.Within.{Within}
use triovexa.World.Silent.{Silent, silent_rules, Quiet-Silent}
use triovexa.World.Quiet.{audit-Quiet}
use triovexa.Execution.Recovery.Effects.{transition-Silent}
use triovexa.Triage.{TriageConfig, run_triage_in_background}
use triovexa.Triage.Effects.{triage-Silent, run_triage_in_background-effects}
use triovexa.Ingest.{
  accept_webhook, triage_at_once, ingest_grafana_webhook, hand_over, ingest_grafana_webhook_async,
}

module _ (env : Env) where
  audits :
      (incident_id step_name status : String) (details : Details) (from to : Time)
      → Within Silent (audit env incident_id step_name status details from to)
  audits incident_id step_name status details from to =
      Quiet-Silent _ (audit-Quiet env incident_id step_name status details from to)

  resolve_incident-Silent :
      (alert : NormalizedAlert) (latest : Incident)
      → Within Silent (resolve_incident env alert latest)
  unfolding resolve_incident
  resolve_incident-Silent alert latest =
      elim (Option-cases (next_state_for_resolved_alert latest.state)) [
        | inl e ↦ rw (e, resolve_incident) (search silent_rules)
        | inr (next, e) ↦
            rw (e, resolve_incident) (search (silent_rules, audits, transition-Silent env) depth 24)
      ]

  resolve_alert-Silent :
      (alert : NormalizedAlert) (latest : Option Incident)
      → Within Silent (resolve_alert env alert latest)
  unfolding resolve_alert
  resolve_alert-Silent alert none = search silent_rules
  resolve_alert-Silent alert (some latest) = search (silent_rules, resolve_incident-Silent) depth 12

  open_incident-Silent :
      (c : Bool) (alert : NormalizedAlert) → Within Silent (open_incident env c alert)
  unfolding open_incident
  open_incident-Silent c alert = search (silent_rules, audits) depth 24

  deduplicate-Silent :
      (alert : NormalizedAlert) (latest : Incident) → Within Silent (deduplicate env alert latest)
  unfolding deduplicate
  deduplicate-Silent alert latest = search (silent_rules, audits) depth 16

  take_alert-Silent :
      (c : Bool) (alert : NormalizedAlert) (latest : Option Incident)
      → Within Silent (take_alert env c alert latest)
  unfolding take_alert
  take_alert-Silent c alert none = open_incident-Silent c alert
  take_alert-Silent c alert (some latest) =
      search (silent_rules, open_incident-Silent, deduplicate-Silent) depth 8

  accept_alert-Silent :
      (c : Bool) (alert : NormalizedAlert) → Within Silent (accept_alert env c alert)
  unfolding accept_alert
  accept_alert-Silent c alert =
      search (silent_rules, resolve_alert-Silent, take_alert-Silent) depth 12

  accept_webhook-Silent :
      (triage : Option TriageConfig) (payload : GrafanaWebhookPayload)
      → Within Silent (accept_webhook env triage payload)
  unfolding accept_webhook
  accept_webhook-Silent triage payload = search (silent_rules, accept_alert-Silent) depth 12

  triage_at_once-Silent :
      (triage : Option TriageConfig) (accepted : Incident × Bool)
      → Within Silent (triage_at_once env triage accepted)
  unfolding triage_at_once
  triage_at_once-Silent (some c) (incident, true) =
      search (silent_rules, triage-Silent env c) depth 12
  triage_at_once-Silent (some c) (incident, false) = search silent_rules
  triage_at_once-Silent none (incident, b) = search silent_rules

  hand_over-Silent : (accepted : Incident × Bool) → Within Silent (hand_over env accepted)
  unfolding hand_over
  hand_over-Silent (incident, false) = search silent_rules
  hand_over-Silent (incident, true) = search (silent_rules, audits, transition-Silent env) depth 24

  -- Whether it fails or not, and whether its triage runs at once or in the background, a webhook never
  -- calls the adapter: no alert makes the process act on the system.
  pub webhook-Silent :
      (triage : Option TriageConfig) (payload : GrafanaWebhookPayload) (c : TriageConfig)
      (incident : Incident)
      → Within Silent (ingest_grafana_webhook env triage payload)
        × Within Silent (ingest_grafana_webhook_async env triage payload)
        × Within Silent (run_triage_in_background env c incident)
  unfolding ingest_grafana_webhook ingest_grafana_webhook_async
  webhook-Silent triage payload c incident = (
    search (silent_rules, accept_webhook-Silent, triage_at_once-Silent) depth 12,
    search (silent_rules, accept_webhook-Silent, hand_over-Silent) depth 12,
    (run_triage_in_background-effects env c incident).0,
  )
