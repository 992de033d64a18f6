-- ===== src/Triage/Failures.antt =====
-- How a triage of internal/incident/service.go fails.
use triovexa.Prelude.{
  String, true, false, suc, [], some, ◌≡◌, ◌≢◌, refl, ap, ◌∙◌, arith, get-put_self,
}
use triovexa.Domain.{
  Incident, IncidentState, same_state, same_state_iff, detected, triaging, escalated,
}
use triovexa.Failure.{Failure, invalid_transition}
use triovexa.Storage.Incidents.{
  get_incident, with_state, add_audit_event, compare_and_swap_incident_state,
}
use triovexa.StateMachine.{can_transition, is_terminal_incident_state}
use triovexa.World.{
  World, Env, Outcome, ok, err, final, ◌>>=◌, ◌>>◌, pure, fetch, or_fail, attempt, guard, modify,
  now, new_id, audit, audit_now, swallow, swallowed,
}
use triovexa.Transition.{transition_incident_state}
use triovexa.Triage.{
  TriageConfig, run_read_only_triage, escalate_latest, run_triage_in_background,
  process_workflow_job,
}

transition-refused :
    (env : Env) (i : Incident) (next : IncidentState) (w : World)
    → same_state i.state next ≡ false
    → can_transition i.state next ≡ false
    → transition_incident_state env i next w ≡ err (invalid_transition i.state next) w
unfolding transition_incident_state ◌>>=◌ guard
transition-refused env i next w other refused =
    rw (other, transition_incident_state) (rw (refused, guard) refl)

past_triage :
    (s : IncidentState)
    → is_terminal_incident_state s ≡ false
    → s ≢ detected
    → s ≢ triaging
    → (same_state s triaging ≡ false) × (can_transition s triaging ≡ false)
unfolding is_terminal_incident_state same_state can_transition
past_triage s live h k = ground arith

not_escalated :
    (s : IncidentState) → can_transition s escalated ≡ true → same_state s escalated ≡ false
unfolding can_transition same_state
not_escalated s h = ground arith

module _ (env : Env) (c : TriageConfig) where
  -- A triage job whose incident is live and past its triage fails at once and writes nothing. So a job
  -- that failed after its incident had moved on fails again at every retry.
  pub process_workflow_job-stuck :
      (id : String) (i : Incident) (w : World)
      → get_incident id w.store ≡ some i
      → is_terminal_incident_state i.state ≡ false
      → i.state ≢ detected
      → i.state ≢ triaging
      → process_workflow_job env c "triage" (some id) w
        ≡ err (invalid_transition i.state triaging) w
  unfolding process_workflow_job ◌>>=◌ or_fail fetch run_read_only_triage
  process_workflow_job-stuck id i w found live h k =
      let facts = past_triage i.state live h k in
      ground (arith, transition-refused env i triaging w facts.0 facts.1)

  escalate-latest :
      (i latest : Incident) (w : World)
      → get_incident i.id w.store ≡ some latest
      → latest.id ≡ i.id
      → same_state latest.state escalated ≡ false
      → can_transition latest.state escalated ≡ true
      → get_incident i.id (final (escalate_latest env c i w)).store
        ≡ some (with_state (env.clock w.reads) escalated latest)
  unfolding escalate_latest transition_incident_state ◌>>=◌ fetch guard attempt now new_id audit_now
      audit modify pure get_incident add_audit_event compare_and_swap_incident_state same_state
  escalate-latest i latest w found same other allowed = ground (
    arith,
    same_state_iff latest.state latest.state,
    get-put_self i.id (with_state (env.clock w.reads) escalated latest) w.store.incidents,
  )

  drop_error : {A : Type 0} (o : Outcome A) → final (swallowed o (pure tt)) ≡ final o
  unfolding swallowed pure
  drop_error (ok a w) = refl
  drop_error (err e w) = refl

  -- What the background does once the triage has failed.
  after_failure :
      (i latest : Incident) (v : World)
      → get_incident i.id v.store ≡ some latest
      → latest.id ≡ i.id
      → can_transition latest.state escalated ≡ true
      → get_incident i.id
          (final (
            (audit_now env i.id "background_triage" "failed" []
                >> swallow (escalate_latest env c i) (pure tt))
              v)).store
        ≡ some (with_state (env.clock (suc v.reads)) escalated latest)
  unfolding ◌>>=◌ audit_now audit now new_id modify add_audit_event swallow get_incident
  after_failure i latest v found same allowed =
      ap (λ (u : World). get_incident i.id u.store) (drop_error (escalate_latest env c i _))
      ∙ escalate-latest i latest _ found same (not_escalated latest.state allowed) allowed

  -- A triage in the background that fails escalates the incident, where the incident is still stored
  -- under its id and the table allows it.
  pub background-escalates :
      (i latest : Incident) (e : Failure) (w v : World)
      → run_read_only_triage env c i w ≡ err e v
      → get_incident i.id v.store ≡ some latest
      → latest.id ≡ i.id
      → can_transition latest.state escalated ≡ true
      → get_incident i.id (final (run_triage_in_background env c i w)).store
        ≡ some (with_state (env.clock (suc v.reads)) escalated latest)
  unfolding run_triage_in_background swallow swallowed
  background-escalates i latest e w v failed found same allowed =
      rw (failed, swallowed) (after_failure i latest v found same allowed)
