-- ===== src/Domain/Incidents.antt =====
-- internal/domain/incident.go, and the audit trail of internal/domain/triage.go.
use triovexa.Prelude.{ℕ, String, Bool, List, ◌==◌, if◌then◌else◌, ◌≡◌, refl, true, ◌↔◌, arith}
use triovexa.Numbers.{Float64}
use triovexa.Domain.Times.{Time}
use triovexa.Domain.Snapshots.{Snapshot}

pub data IncidentState : Type 0 where
  detected triaging action_proposed awaiting_approval approved executing_action : IncidentState
  verifying_action resolved failed_remediation rolled_back escalated closed : IncidentState

-- The position of a state in the list of its constants, by which states are compared.
abbrev pub state_index : IncidentState → ℕ
state_index detected = 0
state_index triaging = 1
state_index action_proposed = 2
state_index awaiting_approval = 3
state_index approved = 4
state_index executing_action = 5
state_index verifying_action = 6
state_index resolved = 7
state_index failed_remediation = 8
state_index rolled_back = 9
state_index escalated = 10
state_index closed = 11

-- The `==` of two states.
unfoldable pub same_state : IncidentState → IncidentState → Bool
same_state a b = state_index a == state_index b

state_of : ℕ → IncidentState
state_of n =
    if n == 0
    then detected
    else if n == 1
    then triaging
    else if n == 2
    then action_proposed
    else if n == 3
    then awaiting_approval
    else if n == 4
    then approved
    else if n == 5
    then executing_action
    else if n == 6
    then verifying_action
    else if n == 7
    then resolved
    else if n == 8
    then failed_remediation
    else if n == 9
    then rolled_back
    else if n == 10
    then escalated
    else closed

state_of-state_index : (s : IncidentState) → state_of (state_index s) ≡ s
unfolding state_of
state_of-state_index detected = refl
state_of-state_index _ = refl

pub same_state_iff : (a b : IncidentState) → (same_state a b ≡ true) ↔ (a ≡ b)
unfolding same_state
same_state_iff a b =
    (λ h. ground (arith, state_of-state_index a, state_of-state_index b), λ h. ground arith)

pub record Incident : Type 0 where
  pub id : String
  pub external_alert_id : String
  pub alert_source : String
  pub title : String
  pub service_name : String
  pub environment : String
  pub severity : String
  pub state : IncidentState
  pub created_at : Time
  pub updated_at : Time

-- A value of a `map[string]any` that is marshalled into an audit event or a result.
pub data Json : Type 0 where
  text : String → Json
  number : ℕ → Json
  flag : Bool → Json
  state_name : IncidentState → Json
  text_map : List (String × String) → Json
  -- A decoded number.
  float : Float64 → Json
  -- A format and its arguments.
  formatted : List String → Json
  checks : List (String × Bool) → Json
  snapshot : Snapshot → Json
  snapshots : List Snapshot → Json

-- The map before json.Marshal, key after key.
abbrev pub Details : Type 0
Details = List (String × Json)

pub record AuditEvent : Type 0 where
  pub id : String
  pub incident_id : String
  pub step_name : String
  pub status : String
  pub details : Details
  pub started_at : Time
  pub finished_at : Time
