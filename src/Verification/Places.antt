-- ===== src/Verification/Places.antt =====
-- Where an incident is stored while internal/verification/service.go works on it: what leaves it alone, and
-- what moves it.
use triovexa.Prelude.{
  String, true, Option-cases, inl, inr, some, ◌≡◌, refl, ap, ◌∙◌, subst, arith, get, get-put_self,
}
use triovexa.Domain.{Time, Incident, IncidentState, same_state, same_state_iff}
use triovexa.Storage.{MemoryStore}
use triovexa.Storage.Incidents.{compare_and_swap_incident_state, with_state, get_incident}
use triovexa.World.{World, Env}
use triovexa.World.Within.{Within-update}
use triovexa.World.Quiet.{audit-Quiet}
use triovexa.World.Ensures.{
  Ensures, pure-Ensures, bind-Ensures, if-Ensures, guard-Ensures, attempt-Ensures, now-then,
}
use triovexa.Transition.{transition_incident_state}
use triovexa.Transition.Still.{
  SameIncidents, SameIncidents-frame, status-incidents, Quiet-SameIncidents,
}
use triovexa.Verification.Frames.{IsRecordFrame}
use triovexa.Verification.Steps.{save_result-incidents, save_rollback-incidents, dispatch-Within}

pub SameIncidents-IsRecordFrame : (env : Env) → IsRecordFrame env SameIncidents
unfolding SameIncidents
SameIncidents-IsRecordFrame env = record {
  frame = SameIncidents-frame;
  audits = λ i n s d from to. Quiet-SameIncidents _ (audit-Quiet env i n s d from to);
  updates_status = λ id status.
      Within-update SameIncidents-frame _ λ w s h. status-incidents id status w.store s h;
  saves_result = λ result.
      Within-update SameIncidents-frame _ λ w s h. save_result-incidents result w.store s h;
  saves_rollback =
      λ r. Within-update SameIncidents-frame _ λ w s h. save_rollback-incidents r w.store s h;
  dispatches = dispatch-Within env λ w v e. ap (λ (s : MemoryStore). s.incidents) e;
}

-- The stored incident is in the state.
pub record InState (id : String) (state : IncidentState) (w : World) : Type 0 where
  pub incident : Incident
  pub stored : get_incident id w.store ≡ some incident
  pub state_is : incident.state ≡ state

pub same-InState :
    (id : String) (state : IncidentState) (v w : World)
    → SameIncidents v w
    → InState id state v
    → InState id state w
unfolding SameIncidents get_incident
same-InState id state v w e h = record {
  incident = h.incident;
  stored = ap (get id) e ∙ h.stored;
  state_is = h.state_is;
}

swapped-InState :
    (at : Time) (id : String) (from to : IncidentState) (s : MemoryStore) (w : World)
    → compare_and_swap_incident_state at id from to w.store ≡ some (true, s)
    → InState id to (record w { store = s })
unfolding compare_and_swap_incident_state get_incident
swapped-InState at id from to s w h = elim (Option-cases (get id w.store.incidents)) [
  | inl n ↦ absurd (ground arith)
  | inr (incident, p) ↦ record {
    incident = with_state at to incident;
    stored = ground (arith, get-put_self id (with_state at to incident) w.store.incidents);
    state_is = refl;
  }
]

-- A transition that returns has moved the stored incident.
pub record MovedTo (incident : Incident) (next : IncidentState) (i : Incident) (w : World)
    : Type 0 where
  pub same_id : i.id ≡ incident.id
  pub state_is : i.state ≡ next
  pub in_state : InState incident.id next w

module _ (env : Env) where
  pub transition-MovedTo :
      (incident : Incident) (next : IncidentState) (w : World)
      → InState incident.id incident.state w
      → Ensures (transition_incident_state env incident next) w (MovedTo incident next)
  unfolding transition_incident_state SameIncidents
  transition-MovedTo incident next w h =
      if-Ensures (same_state incident.state next) _ _
        (λ e. pure-Ensures incident (record {
          same_id = refl;
          state_is = (same_state_iff incident.state next).0 e;
          in_state =
              subst (λ s. InState incident.id s w) ((same_state_iff incident.state next).0 e) h;
        }))
        λ e. bind-Ensures _ _ (
          guard-Ensures _ _ λ allowed. now-then env _ (
            bind-Ensures _ _ (
              attempt-Ensures _ λ b s swapped. bind-Ensures _ _ (
                guard-Ensures _ _ λ won. now-then env _ (
                  pure-Ensures _ (record {
                    same_id = refl;
                    state_is = refl;
                    in_state =
                        same-InState _ _ (record w { store = s }) _ refl
                          (swapped-InState (env.clock w.reads) incident.id incident.state next s w
                            (swapped ∙ ap (λ x. some (x, s)) won));
                  }))))))
