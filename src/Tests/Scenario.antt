-- ===== src/Tests/Scenario.antt =====
-- An incident with one action, before and after its approval, and a process to run the services in.
use triovexa.Prelude.{String, ◌+◌, true, false, List, [], ◌∷◌, none}
use triovexa.Domain.{
  Incident, IncidentState, awaiting_approval, approved, CandidateAction, CandidateActionStatus,
  awaiting, approved_status, low, PolicyDecision, approval_required, EvidenceItem, ApprovalRecord,
  ExecutionRecord, started, minute,
}
use triovexa.Storage.{MemoryStore, new_memory_store}
use triovexa.Catalog.Default.{default_catalog}
use triovexa.World.{World, Env}
use triovexa.Approval.{approval_record}
use triovexa.Execution.Run.{Config}

-- A clock that goes on by one at each reading; the texts stand for their own hashes.
abbrev pub process : Env
process = record {
  clock = λ n. 1000 + n;
  uuid = λ n. "id";
  sha256_hex = λ s. s;
  unmarshal = λ s. none;
  adapter = λ n call. (record { executor_type = "control"; payload = [] }, none);
}

abbrev pub incident_in : IncidentState → Incident
incident_in state = record {
  id = "i";
  external_alert_id = "alert";
  alert_source = "prometheus";
  title = "queue lag";
  service_name = "checkout";
  environment = "staging";
  severity = "high";
  state = state;
  created_at = 10;
  updated_at = 20;
}

abbrev pub restart : CandidateActionStatus → CandidateAction
restart status = record {
  id = "a";
  incident_id = "i";
  action_type = "restart_worker";
  target_resource = "queue-worker";
  parameters_json = "{}";
  risk_level = low;
  rationale = "lag";
  evidence_refs = "e" ∷ [];
  approval_hint = "";
  status = status;
  created_at = 30;
}

abbrev pub judgement : PolicyDecision
judgement = record {
  id = "p";
  candidate_action_id = "a";
  decision = approval_required;
  reason = [];
  requires_approval = true;
  policy_rule_ref = "low_risk_requires_approval";
  decided_at = 40;
}

abbrev pub evidence_item : EvidenceItem
evidence_item = record {
  id = "e";
  incident_id = "i";
  type = "metric";
  source = "prometheus";
  snippet = "lag";
  timestamp = 900;
  metadata_json = "{}";
}

abbrev pub consent : ApprovalRecord
consent = approval_record process "id" "a" (restart awaiting) judgement "op" "" 50

-- The store with the incident, the action, its judgement, its evidence, and these approvals.
abbrev pub store_in : IncidentState → CandidateActionStatus → List ApprovalRecord → MemoryStore
store_in state status approvals = record new_memory_store {
  incidents = ("i", incident_in state) ∷ [];
  evidence = ("i", evidence_item ∷ []) ∷ [];
  actions = ("i", restart status ∷ []) ∷ [];
  policies = ("a", judgement) ∷ [];
  approvals = ("a", approvals) ∷ [];
}

abbrev pub world_of : MemoryStore → World
world_of store = record {
  store = store;
  kill_switch = false;
  kill_switch_at = 0;
  reads = 0;
  ids = 0;
  dispatched = [];
}

abbrev pub undecided : World
undecided = world_of (store_in awaiting_approval awaiting [])

abbrev pub consented : World
consented = world_of (store_in approved approved_status (consent ∷ []))

abbrev pub config : Config
config = record {
  catalog = default_catalog;
  has_adapter = true;
  has_kill_switch = true;
  verifier = none;
  timeout = 500;
  retries = 2;
  cooldown = minute;
  evidence_max_age = 300;
}

abbrev pub started_by : String → ExecutionRecord
started_by id = record {
  id = id;
  candidate_action_id = "a";
  idempotency_key = "execute:a";
  initiated_by = "op";
  executor_type = "demo-http-adapter";
  status = started;
  started_at = 60;
  finished_at = 60;
  result = [];
}
