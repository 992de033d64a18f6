-- ===== src/Tests/Alerts.antt =====
-- Alerts that fire once, twice, and are resolved.
use triovexa.Prelude.{String, true, refl, [], get, equal_fold}
use triovexa.Domain.{awaiting_approval}
use triovexa.StateMachine.{is_terminal_incident_state}
use triovexa.Storage.{new_memory_store}
use triovexa.Storage.Incidents.{get_latest_incident_by_external_alert_id, get_incident}
use triovexa.World.{World}
use triovexa.World.Within.{Within}
use triovexa.Transition.Once.{MovesOnce}
use triovexa.Alerting.{NormalizedAlert}
use triovexa.Intake.{accept_alert}
use triovexa.Intake.Duplicates.{
  Deduplicated, accept-Deduplicated, OpensOne, accept-OpensOne, accept-MovesOnce,
}
use triovexa.Tests.Scenario.{process, incident_in, undecided, world_of}

abbrev alert : String → NormalizedAlert
alert status = record {
  external_alert_id = "alert";
  title = "queue lag";
  service_name = "checkout";
  environment = "staging";
  severity = "high";
  alert_source = "grafana";
  status = status;
  started_at = 5;
  labels = [];
}

accept-Deduplicated_example :
    Deduplicated process
      (incident_in awaiting_approval)
      undecided
      (accept_alert process true (alert "firing") undecided)
unfolding equal_fold get_latest_incident_by_external_alert_id is_terminal_incident_state
accept-Deduplicated_example =
    accept-Deduplicated process true (alert "firing") undecided (incident_in awaiting_approval) refl
      refl refl

abbrev quiet_world : World
quiet_world = world_of new_memory_store

accept-OpensOne_example : OpensOne process true true (alert "firing") quiet_world
unfolding equal_fold get_latest_incident_by_external_alert_id get_incident new_memory_store get
accept-OpensOne_example =
    accept-OpensOne process true true (alert "firing") quiet_world refl refl refl

accept-MovesOnce_example : Within MovesOnce (accept_alert process true (alert "Resolved"))
unfolding equal_fold
accept-MovesOnce_example = accept-MovesOnce process true (alert "Resolved") refl
