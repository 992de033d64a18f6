-- ===== src/Domain/Actions.antt =====
-- internal/domain/action.go, policy.go and approval.go.
use triovexa.Prelude.{ℕ, String, Bool, List, true, false, ◌==◌}
use triovexa.Domain.Times.{Time}

pub data RiskLevel : Type 0 where
  low medium high : RiskLevel
  -- Any other text.
  other_risk : String → RiskLevel

-- string(action.RiskLevel).
abbrev pub risk_text : RiskLevel → String
risk_text low = "low"
risk_text medium = "medium"
risk_text high = "high"
risk_text (other_risk s) = s

pub data CandidateActionStatus : Type 0 where
  -- The zero value, the empty text.
  unset : CandidateActionStatus
  proposed invalid allowed awaiting denied approved_status executing : CandidateActionStatus
  succeeded failed rolled_back_status : CandidateActionStatus

-- The position of a status in the list of its constants, by which statuses are compared.
abbrev pub status_index : CandidateActionStatus → ℕ
status_index unset = 0
status_index proposed = 1
status_index invalid = 2
status_index allowed = 3
status_index awaiting = 4
status_index denied = 5
status_index approved_status = 6
status_index executing = 7
status_index succeeded = 8
status_index failed = 9
status_index rolled_back_status = 10

-- The `==` of two statuses.
unfoldable pub same_status : CandidateActionStatus → CandidateActionStatus → Bool
same_status a b = status_index a == status_index b

-- The two statuses from which an action may be executed.
abbrev pub is_executable_status : CandidateActionStatus → Bool
is_executable_status approved_status = true
is_executable_status allowed = true
is_executable_status _ = false

abbrev pub is_awaiting : CandidateActionStatus → Bool
is_awaiting awaiting = true
is_awaiting _ = false

abbrev pub is_approved : CandidateActionStatus → Bool
is_approved approved_status = true
is_approved _ = false

abbrev pub is_invalid : CandidateActionStatus → Bool
is_invalid invalid = true
is_invalid _ = false

pub record CandidateAction : Type 0 where
  pub id : String
  pub incident_id : String
  pub action_type : String
  pub target_resource : String
  pub parameters_json : String
  pub risk_level : RiskLevel
  pub rationale : String
  pub evidence_refs : List String
  pub approval_hint : String
  pub status : CandidateActionStatus
  pub created_at : Time

pub data PolicyDecisionType : Type 0 where
  allow approval_required deny : PolicyDecisionType

pub record PolicyDecision : Type 0 where
  pub id : String
  pub candidate_action_id : String
  pub decision : PolicyDecisionType
  -- The format of the text, followed by its arguments.
  pub reason : List String
  pub requires_approval : Bool
  pub policy_rule_ref : String
  pub decided_at : Time
