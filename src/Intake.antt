-- ===== src/Intake.antt =====
-- The intake of an alert in internal/incident/service.go (acceptGrafanaWebhook), over the store in
-- memory.
pub mod Duplicates
use triovexa.Prelude.{
  String, Bool, true, false, Map, Option, none, some, equal_fold, if◌then◌else◌, List, [], ◌∷◌,
}
use triovexa.Alerting.{NormalizedAlert}
use triovexa.Domain.{
  Time, Incident, IncidentState, detected, same_state, Details, text, state_name, text_map,
}
use triovexa.Failure.{resolved_alert_ignored}
use triovexa.StateMachine.{is_terminal_incident_state, next_state_for_resolved_alert}
use triovexa.Storage.Incidents.{create_incident, get_latest_incident_by_external_alert_id}
use triovexa.World.{Env, M, ◌>>=◌, ◌>>◌, pure, raise, look, modify, now, new_id, audit}
use triovexa.Transition.{transition_incident_state}

module _ (env : Env) where
  -- The alert is resolved, and the latest incident is live.
  unfoldable pub resolve_incident : NormalizedAlert → Incident → M (Incident × Bool)
  resolve_incident alert latest = elim (next_state_for_resolved_alert latest.state) [
    | none ↦ pure (latest, false)
    | some next ↦ do
      moved ←
          if same_state next latest.state
          then pure latest
          else transition_incident_state env latest next
      at ← now env
      audit env moved.id "external_alert_resolved" "completed"
          (("external_alert_id", text alert.external_alert_id)
            ∷ ("status", text alert.status)
            ∷ ("next_state", state_name moved.state)
            ∷ [])
          at at
      pure (moved, false)
  ]

  unfoldable pub resolve_alert : NormalizedAlert → Option Incident → M (Incident × Bool)
  resolve_alert alert none = raise resolved_alert_ignored
  resolve_alert alert (some latest) =
      if is_terminal_incident_state latest.state
      then raise resolved_alert_ignored
      else resolve_incident alert latest

  unfoldable pub deduplicate : NormalizedAlert → Incident → M (Incident × Bool)
  deduplicate alert latest = do
    at ← now env
    audit env latest.id "webhook_deduplicated" "completed"
        (("external_alert_id", text alert.external_alert_id) ∷ ("status", text alert.status) ∷ [])
        at at
    pure (latest, false)

  abbrev pub incident_of_alert : NormalizedAlert → String → Time → Incident
  incident_of_alert alert id at = record {
    id = id;
    external_alert_id = alert.external_alert_id;
    alert_source = alert.alert_source;
    title = alert.title;
    service_name = alert.service_name;
    environment = alert.environment;
    severity = alert.severity;
    state = detected;
    created_at = at;
    updated_at = at;
  }

  -- A new incident; the event's id is made before the incident is stored, and nothing reads it between.
  unfoldable pub open_incident : Bool → NormalizedAlert → M (Incident × Bool)
  open_incident triage_configured alert = do
    at ← now env
    id ← new_id env
    modify (create_incident (incident_of_alert alert id at))
    audit env id "webhook_intake" "completed"
        (("alert_source", text alert.alert_source)
          ∷ ("external_alert_id", text alert.external_alert_id)
          ∷ ("service_name", text alert.service_name)
          ∷ ("environment", text alert.environment)
          ∷ ("severity", text alert.severity)
          ∷ ("status", text alert.status)
          ∷ ("labels", text_map alert.labels)
          ∷ [])
        at at
    pure (incident_of_alert alert id at, triage_configured)

  unfoldable pub take_alert : Bool → NormalizedAlert → Option Incident → M (Incident × Bool)
  take_alert triage_configured alert none = open_incident triage_configured alert
  take_alert triage_configured alert (some latest) =
      if is_terminal_incident_state latest.state
      then open_incident triage_configured alert
      else deduplicate alert latest

  -- The answer's flag says whether a triage is to be run.
  unfoldable pub accept_alert : Bool → NormalizedAlert → M (Incident × Bool)
  accept_alert triage_configured alert = do
    latest ← look (get_latest_incident_by_external_alert_id alert.external_alert_id)
    if equal_fold alert.status "resolved"
        then resolve_alert alert latest
        else take_alert triage_configured alert latest
