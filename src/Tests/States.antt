-- ===== src/Tests/States.antt =====
-- Walks and moves of incidents.
use triovexa.Prelude.{true, List, [], ◌∷◌, ◌≡◌, refl, ◌≤◌, ◌⊎◌, none, some, length}
use triovexa.Domain.{
  IncidentState, detected, triaging, action_proposed, awaiting_approval, approved, executing_action,
}
use triovexa.StateMachine.{
  can_transition, has_state, next_state_for_resolved_alert, is_terminal_incident_state,
}
use triovexa.StateMachine.Paths.{
  Walk, here, next, executed_after_approval, length-Walk, resolved_alert_lem,
}

abbrev visited : List IncidentState
visited =
    executing_action ∷ approved ∷ awaiting_approval ∷ action_proposed ∷ triaging ∷ detected ∷ []

to_execution : Walk detected executing_action visited
unfolding can_transition
to_execution = next (next (next (next (next here refl) refl) refl) refl) refl

executed_after_approval_example : has_state visited approved ≡ true
executed_after_approval_example = executed_after_approval to_execution refl

length-Walk_example : length visited ≤ 12
length-Walk_example = length-Walk to_execution

resolved_alert_lem_example :
    ((next_state_for_resolved_alert awaiting_approval ≡ none)
      × ((awaiting_approval ≡ approved) ⊎ (awaiting_approval ≡ executing_action)))
    ⊎ ((t : IncidentState) × (next_state_for_resolved_alert awaiting_approval ≡ some t)
        × (can_transition awaiting_approval t ≡ true)
        × (is_terminal_incident_state t ≡ true))
unfolding is_terminal_incident_state
resolved_alert_lem_example = resolved_alert_lem awaiting_approval refl
