-- ===== src/StateMachine/Paths.antt =====
-- Walks through the transition table of internal/incident/statemachine.go.
use triovexa.Prelude.{
  suc, ◌+◌, ◌≤◌, ◌<◌, Bool, true, false, ◌≡◌, refl, ◌⊎◌, inl, inr, none, some, arith, List, [], ◌∷◌,
  length,
}
use triovexa.Domain.{
  IncidentState, same_state, state_index, detected, approved, executing_action, verifying_action,
  resolved, failed_remediation, rolled_back, escalated, closed,
}
use triovexa.StateMachine.{
  can_transition, has_state, is_terminal_incident_state, next_state_for_resolved_alert,
}

-- A walk from `s` by transitions of the table, with the states it visits, the last one first.
pub data Walk (s : IncidentState) : IncidentState → List IncidentState → Type 0 where
  here : Walk s s (s ∷ [])
  next :
      {t u : IncidentState} {visited : List IncidentState}
      → Walk s t visited
      → can_transition t u ≡ true
      → Walk s u (u ∷ visited)

-- The states that only an executed action leads to.
abbrev pub is_past_approval : IncidentState → Bool
is_past_approval executing_action = true
is_past_approval verifying_action = true
is_past_approval resolved = true
is_past_approval failed_remediation = true
is_past_approval rolled_back = true
is_past_approval _ = false

step_past_approval :
    (t u : IncidentState)
    → can_transition t u ≡ true
    → is_past_approval u ≡ true
    → (t ≡ approved) ⊎ (is_past_approval t ≡ true)
unfolding can_transition
step_past_approval t u h p = ground arith

Walk-last : {s t : IncidentState} {vs : List IncidentState} → Walk s t vs → has_state vs t ≡ true
unfolding has_state same_state
Walk-last {t = t} here = ground arith
Walk-last {t = t} (next w h) = ground arith

past_approval :
    {s t : IncidentState} {vs : List IncidentState}
    → Walk s t vs
    → is_past_approval s ≡ false
    → is_past_approval t ≡ true
    → has_state vs approved ≡ true
unfolding has_state
past_approval here e h = cc
past_approval (next {t = t} {u = u} {visited = vs} w step) e h =
    elim (step_past_approval t u step h) [
      | inl q ↦ ground (arith, Walk-last w)
      | inr q ↦ ground (arith, past_approval w e q)
    ]

-- An incident that starts as detected and only moves along the table has visited `approved` once
-- it is executing, verifying, resolved, failed or rolled back.
pub executed_after_approval :
    {t : IncidentState} {visited : List IncidentState}
    → Walk detected t visited
    → is_past_approval t ≡ true
    → has_state visited approved ≡ true
executed_after_approval w h = past_approval w refl h

pub index-can_transition :
    (s t : IncidentState) → can_transition s t ≡ true → state_index s < state_index t
unfolding can_transition
index-can_transition s t h = ground arith

index-Walk :
    {s t : IncidentState} {vs : List IncidentState}
    → Walk s t vs
    → state_index s + length vs ≤ suc (state_index t)
index-Walk here = omega arith
index-Walk (next {t = t} {u = u} w step) =
    omega (arith, index-Walk w, index-can_transition t u step)

index_bound : (s : IncidentState) → state_index s ≤ 11
index_bound detected = omega arith
index_bound _ = omega arith

-- Every walk visits at most twelve states.
pub length-Walk :
    {s t : IncidentState} {visited : List IncidentState} → Walk s t visited → length visited ≤ 12
length-Walk {t = t} w = omega (arith, index-Walk w, index_bound t)

-- Every state is closed, can be closed, or can be escalated and then closed.
pub closed_within_two :
    (s : IncidentState)
    → (s ≡ closed)
      ⊎ (can_transition s closed ≡ true)
      ⊎ ((can_transition s escalated ≡ true) × (can_transition escalated closed ≡ true))
unfolding can_transition
closed_within_two s = ground arith

-- The state that a resolved alert asks for, of an incident that is live, is a terminal one that the
-- table allows next; none is asked for only if the incident is approved or executing.
pub resolved_alert_lem :
    (s : IncidentState)
    → is_terminal_incident_state s ≡ false
    → ((next_state_for_resolved_alert s ≡ none) × ((s ≡ approved) ⊎ (s ≡ executing_action)))
      ⊎ ((t : IncidentState) × (next_state_for_resolved_alert s ≡ some t)
          × (can_transition s t ≡ true)
          × (is_terminal_incident_state t ≡ true))
unfolding next_state_for_resolved_alert is_terminal_incident_state
resolved_alert_lem s h = ground arith
