-- ===== src/Transition.antt =====
-- transitionIncidentState, which internal/incident, internal/approval, internal/execution and
-- internal/verification each have in the same words, over a store that compares and swaps.
pub mod Moves
pub mod Still
pub mod Once
use triovexa.Prelude.{if◌then◌else◌}
use triovexa.Domain.{Incident, IncidentState, same_state}
use triovexa.Failure.{invalid_transition, state_changed}
use triovexa.World.{Env, M, ◌>>=◌, ◌>>◌, pure, guard, attempt, now}
use triovexa.StateMachine.{can_transition}
use triovexa.Storage.Incidents.{compare_and_swap_incident_state}

unfoldable pub transition_incident_state : Env → Incident → IncidentState → M Incident
transition_incident_state env incident next =
    if same_state incident.state next then pure incident else do
      guard (can_transition incident.state next) (invalid_transition incident.state next)
      stored_at ← now env
      updated ← attempt (compare_and_swap_incident_state stored_at incident.id incident.state next)
      guard updated (state_changed incident.state next)
      at ← now env
      pure (record incident { state = next; updated_at = at })
