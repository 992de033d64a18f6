-- ===== src/StateMachine.antt =====
-- internal/incident/statemachine.go, and the two readings of a state in internal/incident/service.go.
pub mod Paths
use triovexa.Prelude.{Bool, true, false, ◌||◌, List, [], ◌∷◌, Option, none, some, if◌then◌else◌}
use triovexa.Domain.{
  IncidentState, same_state, detected, triaging, action_proposed, awaiting_approval, approved,
  executing_action, verifying_action, resolved, failed_remediation, rolled_back, escalated, closed,
}

-- The keys of the inner map; `closed` has no entry in the outer one.
unfoldable pub allowed_transitions : IncidentState → List IncidentState
allowed_transitions detected = triaging ∷ closed ∷ []
allowed_transitions triaging = action_proposed ∷ escalated ∷ closed ∷ []
allowed_transitions action_proposed = awaiting_approval ∷ approved ∷ escalated ∷ closed ∷ []
allowed_transitions awaiting_approval = approved ∷ escalated ∷ closed ∷ []
allowed_transitions approved = executing_action ∷ escalated ∷ []
allowed_transitions executing_action = verifying_action ∷ failed_remediation ∷ escalated ∷ []
allowed_transitions verifying_action = resolved ∷ failed_remediation ∷ rolled_back ∷ escalated ∷ []
allowed_transitions resolved = closed ∷ []
allowed_transitions failed_remediation = rolled_back ∷ escalated ∷ closed ∷ []
allowed_transitions rolled_back = escalated ∷ closed ∷ []
allowed_transitions escalated = closed ∷ []
allowed_transitions closed = []

unfoldable pub has_state : List IncidentState → IncidentState → Bool
unfolding same_state
has_state [] s = false
has_state (t ∷ ts) s = same_state t s || has_state ts s

unfoldable pub can_transition : IncidentState → IncidentState → Bool
unfolding allowed_transitions has_state
can_transition from to = has_state (allowed_transitions from) to

unfoldable pub is_terminal_incident_state : IncidentState → Bool
is_terminal_incident_state resolved = true
is_terminal_incident_state failed_remediation = true
is_terminal_incident_state rolled_back = true
is_terminal_incident_state escalated = true
is_terminal_incident_state closed = true
is_terminal_incident_state _ = false

unfoldable pub next_state_for_resolved_alert : IncidentState → Option IncidentState
unfolding can_transition
next_state_for_resolved_alert s =
    if can_transition s resolved
    then some resolved
    else if can_transition s closed
    then some closed
    else none
