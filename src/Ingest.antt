-- ===== src/Ingest.antt =====
-- IngestGrafanaWebhook and IngestGrafanaWebhookAsync of internal/incident/service.go, over the store in
-- memory, which keeps no workflow jobs.
pub mod Effects
use triovexa.Prelude.{String, Bool, true, false, List, [], ◌∷◌, Option, none, some, if◌then◌else◌}
use triovexa.Alerting.{GrafanaWebhookPayload, normalize_grafana_payload}
use triovexa.Domain.{Incident, triaging, text}
use triovexa.Failure.{alert_rejected, not_found}
use triovexa.Storage.Incidents.{get_incident}
use triovexa.Intake.{accept_alert}
use triovexa.Transition.{transition_incident_state}
use triovexa.Triage.{TriageConfig, run_read_only_triage}
use triovexa.World.{Env, M, ◌>>=◌, ◌>>◌, pure, or_fail, fetch, now, audit}

-- The collector, the retriever and the generator, which are set or missing together here.
abbrev pub is_configured : Option TriageConfig → Bool
is_configured none = false
is_configured (some c) = true

module _ (env : Env) where
  -- acceptGrafanaWebhook, from the payload on.
  unfoldable pub accept_webhook : Option TriageConfig → GrafanaWebhookPayload → M (Incident × Bool)
  accept_webhook triage payload = do
    alert ← or_fail (normalize_grafana_payload payload) alert_rejected
    accept_alert env (is_configured triage) alert

  -- After the intake: the triage, and the incident as it is then.
  unfoldable pub triage_at_once : Option TriageConfig → Incident × Bool → M Incident
  triage_at_once (some c) (incident, true) = do
    _ ← run_read_only_triage env c incident
    fetch (get_incident incident.id) not_found
  triage_at_once _ (incident, _) = pure incident

  unfoldable pub ingest_grafana_webhook : Option TriageConfig → GrafanaWebhookPayload → M Incident
  ingest_grafana_webhook triage payload = do
    accepted ← accept_webhook triage payload
    triage_at_once triage accepted

  -- The answer, and the incident whose triage in the background is begun.
  unfoldable pub hand_over : Incident × Bool → M (Incident × Option Incident)
  hand_over (incident, false) = pure (incident, none)
  hand_over (incident, true) = do
    moved ← transition_incident_state env incident triaging
    from ← now env
    to ← now env
    audit env moved.id "background_triage_dispatch" "completed" (("mode", text "async") ∷ []) from
        to
    pure (moved, some moved)

  unfoldable pub ingest_grafana_webhook_async :
      Option TriageConfig → GrafanaWebhookPayload → M (Incident × Option Incident)
  ingest_grafana_webhook_async triage payload = do
    accepted ← accept_webhook triage payload
    hand_over accepted
