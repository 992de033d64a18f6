-- ===== src/Domain/Records.antt =====
-- internal/domain/triage.go: evidence, approvals, executions, verification results and rollbacks.
use triovexa.Prelude.{String, Bool, List, true, false}
use triovexa.Domain.Times.{Time}
use triovexa.Domain.Incidents.{Details}

pub record EvidenceItem : Type 0 where
  pub id : String
  pub incident_id : String
  pub type : String
  pub source : String
  pub snippet : String
  pub timestamp : Time
  pub metadata_json : String

-- The two texts that ApproveAction and RejectAction write into a record's decision.
pub data ApprovalDecision : Type 0 where
  approved_decision rejected_decision : ApprovalDecision

abbrev pub is_approval : ApprovalDecision → Bool
is_approval approved_decision = true
is_approval rejected_decision = false

pub record ApprovalRecord : Type 0 where
  pub id : String
  pub candidate_action_id : String
  pub approved_by : String
  pub decision : ApprovalDecision
  pub note : String
  pub action_digest : String
  pub policy_version : String
  pub expires_at : Time
  pub created_at : Time

pub data ExecutionStatus : Type 0 where
  started succeeded_execution failed_execution timed_out inconclusive : ExecutionStatus

abbrev pub execution_status_text : ExecutionStatus → String
execution_status_text started = "started"
execution_status_text succeeded_execution = "succeeded"
execution_status_text failed_execution = "failed"
execution_status_text timed_out = "timed_out"
execution_status_text inconclusive = "inconclusive"

abbrev pub is_started : ExecutionStatus → Bool
is_started started = true
is_started _ = false

-- A result before json.Marshal.
pub record ExecutionRecord : Type 0 where
  pub id : String
  pub candidate_action_id : String
  pub idempotency_key : String
  pub initiated_by : String
  pub executor_type : String
  pub status : ExecutionStatus
  pub started_at : Time
  pub finished_at : Time
  pub result : Details

pub data VerificationStatus : Type 0 where
  success failed_verification inconclusive_verification : VerificationStatus

pub record VerificationResult : Type 0 where
  pub id : String
  pub execution_record_id : String
  pub status : VerificationStatus
  pub evidence : Details
  pub notes : String
  pub created_at : Time

pub data RollbackStatus : Type 0 where
  rollback_started rollback_succeeded rollback_failed : RollbackStatus

pub record RollbackRecord : Type 0 where
  pub id : String
  pub candidate_action_id : String
  pub rollback_action_key : String
  pub triggered_by : String
  pub status : RollbackStatus
  pub started_at : Time
  pub finished_at : Time
  pub result : Details
  pub note : String

pub record TriageResult : Type 0 where
  pub id : String
  pub incident_id : String
  pub summary : String
  pub hypotheses : List String
  pub blast_radius : String
  pub next_steps : List String
  pub draft_status_update : String
  pub confidence_notes : String
  pub created_at : Time

pub record DocumentReference : Type 0 where
  pub id : String
  pub incident_id : String
  pub document_title : String
  pub document_type : String
  pub relevance_reason : String
  pub snippet : String
