-- ===== src/Storage/Store.antt =====
-- The fields of MemoryStore in internal/storage/memory.go, one map for each kind of record.
use triovexa.Prelude.{String, Map, List, []}
use triovexa.Domain.{
  Incident, AuditEvent, EvidenceItem, CandidateAction, PolicyDecision, ApprovalRecord,
  ExecutionRecord, VerificationResult, RollbackRecord, TriageResult, DocumentReference, User,
  Session,
}

pub record MemoryStore : Type 0 where
  pub incidents : Map Incident
  pub audit : Map (List AuditEvent)
  pub evidence : Map (List EvidenceItem)
  pub documents : Map (List DocumentReference)
  pub actions : Map (List CandidateAction)
  pub policies : Map PolicyDecision
  pub approvals : Map (List ApprovalRecord)
  pub executions : Map (List ExecutionRecord)
  pub verify : Map (List VerificationResult)
  pub rollbacks : Map (List RollbackRecord)
  pub triage_by_id : Map TriageResult
  pub users : Map User
  pub sessions : Map Session
  pub settings : Map String

unfoldable pub new_memory_store : MemoryStore
new_memory_store = record {
  incidents = [];
  audit = [];
  evidence = [];
  documents = [];
  actions = [];
  policies = [];
  approvals = [];
  executions = [];
  verify = [];
  rollbacks = [];
  triage_by_id = [];
  users = [];
  sessions = [];
  settings = [];
}
