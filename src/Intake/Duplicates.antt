-- ===== src/Intake/Duplicates.antt =====
-- What acceptGrafanaWebhook of internal/incident/service.go makes of an alert that it has seen, and of
-- one that is resolved.
use triovexa.Prelude.{
  Bool, true, false, Option, none, some, Option-cases, inl, inr, Map, ◌≡◌, refl, ap, ◌∙◌,
  equal_fold,
}
use triovexa.Domain.{Incident, detected}
use triovexa.StateMachine.{is_terminal_incident_state, next_state_for_resolved_alert}
use triovexa.Storage.Incidents.{
  add_audit_event, latest_from, get_incident, create_incident,
  get_latest_incident_by_external_alert_id,
}
use triovexa.Storage.Incidents.Latest.{latest-create_incident}
use triovexa.World.{World, Env, Outcome, ok, final, ◌>>=◌, look, now, new_id, modify, pure, audit}
use triovexa.World.Within.{Within, Within-look}
use triovexa.World.Quiet.{Quiet, quiet_rules}
use triovexa.Transition.Still.{SameIncidents-frame, still_rules}
use triovexa.Transition.Once.{
  MovesOnce, Still-Once, pure-Once, raise-Once, if-Once, still-then, then-still,
}
use triovexa.Approval.Once.{once_rules}
use triovexa.Alerting.{NormalizedAlert}
use triovexa.Intake.{
  resolve_incident, resolve_alert, deduplicate, open_incident, take_alert, accept_alert,
  incident_of_alert,
}

module _ (env : Env) where
  accept-take :
      (c : Bool) (alert : NormalizedAlert) (w : World) (latest : Option Incident)
      → equal_fold alert.status "resolved" ≡ false
      → get_latest_incident_by_external_alert_id alert.external_alert_id w.store ≡ latest
      → accept_alert env c alert w ≡ take_alert env c alert latest w
  unfolding accept_alert ◌>>=◌ look
  accept-take c alert w latest fires found = rw (fires, found) refl

  deduplicate-Quiet :
      (alert : NormalizedAlert) (latest : Incident) → Within Quiet (deduplicate env alert latest)
  unfolding deduplicate
  deduplicate-Quiet alert latest = search quiet_rules depth 12

  deduplicate-answer :
      (alert : NormalizedAlert) (latest : Incident) (w : World)
      → deduplicate env alert latest w ≡ ok (latest, false) (final (deduplicate env alert latest w))
  unfolding deduplicate ◌>>=◌ now audit new_id modify pure
  deduplicate-answer alert latest w = refl

  -- The live incident is the answer, and nothing but the audit trail and the counters is changed.
  pub record Deduplicated (latest : Incident) (w : World) (o : Outcome (Incident × Bool))
      : Type 0 where
    pub answered : o ≡ ok (latest, false) (final o)
    pub quiet : Quiet w (final o)

  -- An alert that fires again while its latest incident is live opens no incident: the live one is the
  -- answer, no triage is asked for, and nothing but the audit trail, the clock and the ids is changed.
  pub accept-Deduplicated :
      (c : Bool) (alert : NormalizedAlert) (w : World) (latest : Incident)
      → equal_fold alert.status "resolved" ≡ false
      → get_latest_incident_by_external_alert_id alert.external_alert_id w.store ≡ some latest
      → is_terminal_incident_state latest.state ≡ false
      → Deduplicated latest w (accept_alert env c alert w)
  unfolding take_alert
  accept-Deduplicated c alert w latest fires found live =
      let same : accept_alert env c alert w ≡ deduplicate env alert latest w =
        accept-take c alert w (some latest) fires found ∙ rw live refl in
      record {
        answered = rw same (deduplicate-answer alert latest w);
        quiet = rw same ((deduplicate-Quiet alert latest).at w);
      }

  open-answer :
      (c : Bool) (alert : NormalizedAlert) (w : World)
      → open_incident env c alert w
        ≡ ok
            (incident_of_alert env alert (env.uuid w.ids) (env.clock w.reads), c)
            (final (open_incident env c alert w))
  unfolding open_incident ◌>>=◌ now audit new_id modify pure
  open-answer c alert w = refl

  open-incidents :
      (c : Bool) (alert : NormalizedAlert) (w : World)
      → (final (open_incident env c alert w)).store.incidents
        ≡ (create_incident
            (incident_of_alert env alert (env.uuid w.ids) (env.clock w.reads))
            w.store).incidents
  unfolding open_incident ◌>>=◌ now audit new_id modify pure add_audit_event
  open-incidents c alert w = refl

  open-latest :
      (c : Bool) (alert : NormalizedAlert) (w : World)
      → get_latest_incident_by_external_alert_id alert.external_alert_id w.store ≡ none
      → get_incident (env.uuid w.ids) w.store ≡ none
      → get_latest_incident_by_external_alert_id alert.external_alert_id
          (final (open_incident env c alert w)).store
        ≡ some (incident_of_alert env alert (env.uuid w.ids) (env.clock w.reads))
  unfolding get_latest_incident_by_external_alert_id
  open-latest c alert w none_yet fresh =
      ap (λ (m : Map Incident). latest_from alert.external_alert_id m none)
        (open-incidents c alert w)
      ∙ latest-create_incident (incident_of_alert env alert (env.uuid w.ids) (env.clock w.reads))
          w.store none_yet fresh

  -- The first alert opens one incident, and the same alert again finds it.
  pub record OpensOne (c c' : Bool) (alert : NormalizedAlert) (w : World) : Type 0 where
    pub incident : Incident
    pub new_id_is : incident.id ≡ env.uuid w.ids
    pub was_free : get_incident incident.id w.store ≡ none
    pub is_detected : incident.state ≡ detected
    pub of_alert : incident.external_alert_id ≡ alert.external_alert_id
    pub first : accept_alert env c alert w ≡ ok (incident, c) (final (accept_alert env c alert w))
    pub second :
        Deduplicated incident
          (final (accept_alert env c alert w))
          (accept_alert env c' alert (final (accept_alert env c alert w)))

  -- An alert that fires, and of which no incident is known, opens a detected incident for itself under
  -- the next new id, where that id is free; when the same alert fires again right after, that incident
  -- is the answer and no other is opened.
  pub accept-OpensOne :
      (c c' : Bool) (alert : NormalizedAlert) (w : World)
      → equal_fold alert.status "resolved" ≡ false
      → get_latest_incident_by_external_alert_id alert.external_alert_id w.store ≡ none
      → get_incident (env.uuid w.ids) w.store ≡ none
      → OpensOne c c' alert w
  unfolding take_alert is_terminal_incident_state
  accept-OpensOne c c' alert w fires none_yet fresh =
      let same : accept_alert env c alert w ≡ open_incident env c alert w =
        accept-take c alert w none fires none_yet in
      record {
        incident = incident_of_alert env alert (env.uuid w.ids) (env.clock w.reads);
        new_id_is = refl;
        was_free = fresh;
        is_detected = refl;
        of_alert = refl;
        first = rw same (open-answer c alert w);
        second =
            accept-Deduplicated c' alert (final (accept_alert env c alert w))
              (incident_of_alert env alert (env.uuid w.ids) (env.clock w.reads)) fires
              (rw same (open-latest c alert w none_yet fresh)) refl;
      }

  resolve_incident-Once :
      (alert : NormalizedAlert) (latest : Incident)
      → Within MovesOnce (resolve_incident env alert latest)
  unfolding resolve_incident
  resolve_incident-Once alert latest =
      elim (Option-cases (next_state_for_resolved_alert latest.state)) [
        | inl e ↦ rw (e, resolve_incident) (Still-Once _ (search still_rules depth 24))
        | inr (next, e) ↦
            rw (e, resolve_incident) (search (once_rules, then-still, if-Once, pure-Once) depth 24)
      ]

  resolve_alert-Once :
      (alert : NormalizedAlert) (latest : Option Incident)
      → Within MovesOnce (resolve_alert env alert latest)
  unfolding resolve_alert
  resolve_alert-Once alert none = Still-Once _ (search still_rules)
  resolve_alert-Once alert (some latest) =
      search (once_rules, if-Once, raise-Once, resolve_incident-Once) depth 12

  -- A resolved alert creates and loses no incident, and moves each by at most one transition of the
  -- table, whether or not it fails.
  pub accept-MovesOnce :
      (c : Bool) (alert : NormalizedAlert)
      → equal_fold alert.status "resolved" ≡ true
      → Within MovesOnce (accept_alert env c alert)
  unfolding accept_alert
  accept-MovesOnce c alert resolved =
      still-then (look (get_latest_incident_by_external_alert_id alert.external_alert_id)) _
        (Within-look SameIncidents-frame
          (get_latest_incident_by_external_alert_id alert.external_alert_id))
        λ latest. rw resolved (resolve_alert-Once alert latest)
