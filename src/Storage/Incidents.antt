-- ===== src/Storage/Incidents.antt =====
-- The incidents, the audit trail, the evidence and the settings of internal/storage/memory.go.
pub mod Latest
use triovexa.Prelude.{
  String, Bool, true, false, not, ◌&&◌, List, [], ◌∷◌, ◌++◌, Option, none, some, ltb, str_eq,
  if◌then◌else◌, get, put, get_list, sort_by,
}
use triovexa.Domain.{
  Time, Incident, IncidentState, same_state, AuditEvent, EvidenceItem, TriageResult,
  DocumentReference,
}
use triovexa.Storage.Store.{MemoryStore}

unfoldable pub get_setting : String → MemoryStore → Option String
get_setting key s = get key s.settings

unfoldable pub put_setting : String → String → MemoryStore → MemoryStore
put_setting key value s = record s { settings = put key value s.settings }

unfoldable pub create_incident : Incident → MemoryStore → MemoryStore
create_incident incident s = record s { incidents = put incident.id incident s.incidents }

-- The write of a new state, at the time that the store reads.
abbrev pub with_state : Time → IncidentState → Incident → Incident
with_state now next incident = record incident { state = next; updated_at = now }

unfoldable pub update_incident_state :
    Time → String → IncidentState → MemoryStore → Option MemoryStore
update_incident_state now id next s = elim (get id s.incidents) [
  | none ↦ none
  | some incident ↦
      some (record s { incidents = put id (with_state now next incident) s.incidents })
]

unfoldable pub compare_and_swap_incident_state :
    Time → String → IncidentState → IncidentState → MemoryStore → Option (Bool × MemoryStore)
compare_and_swap_incident_state now id expected next s = elim (get id s.incidents) [
  | none ↦ none
  | some incident ↦
      if not (same_state incident.state expected)
      then some (false, s)
      else some (true, record s { incidents = put id (with_state now next incident) s.incidents })
]

unfoldable pub get_incident : String → MemoryStore → Option Incident
get_incident id s = get id s.incidents

-- One round of the loop over the incidents: a later creation time wins, the first one seen stays.
abbrev latest_of : String → Incident → Option Incident → Option Incident
latest_of alert incident none =
    if str_eq incident.external_alert_id alert then some incident else none
latest_of alert incident (some latest) =
    if str_eq incident.external_alert_id alert && ltb latest.created_at incident.created_at
    then some incident
    else some latest

pub latest_from : String → List (String × Incident) → Option Incident → Option Incident
latest_from alert [] latest = latest
latest_from alert ((id, incident) ∷ m) latest =
    latest_from alert m (latest_of alert incident latest)

unfoldable pub get_latest_incident_by_external_alert_id : String → MemoryStore → Option Incident
unfolding latest_from
get_latest_incident_by_external_alert_id alert s = latest_from alert s.incidents none

unfoldable pub add_audit_event : AuditEvent → MemoryStore → MemoryStore
add_audit_event event s = record s {
  audit = put event.incident_id (get_list event.incident_id s.audit ++ event ∷ []) s.audit;
}

unfoldable pub list_audit_events : String → MemoryStore → List AuditEvent
list_audit_events id s =
    sort_by (λ (a b : AuditEvent). ltb a.started_at b.started_at) (get_list id s.audit)

unfoldable pub save_evidence_items : List EvidenceItem → MemoryStore → MemoryStore
save_evidence_items [] s = s
save_evidence_items (item ∷ items) s = save_evidence_items items (record s {
  evidence = put item.incident_id (get_list item.incident_id s.evidence ++ item ∷ []) s.evidence;
})

abbrev pub by_timestamp : List EvidenceItem → List EvidenceItem
by_timestamp items = sort_by (λ (a b : EvidenceItem). ltb a.timestamp b.timestamp) items

unfoldable pub list_evidence_items : String → MemoryStore → List EvidenceItem
list_evidence_items id s = by_timestamp (get_list id s.evidence)

unfoldable pub save_document_references : List DocumentReference → MemoryStore → MemoryStore
save_document_references [] s = s
save_document_references (reference ∷ references) s =
    save_document_references references (record s {
      documents =
          put reference.incident_id (get_list reference.incident_id s.documents ++ reference ∷ [])
            s.documents;
    })

unfoldable pub save_triage_result : TriageResult → MemoryStore → MemoryStore
save_triage_result result s = record s {
  triage_by_id = put result.incident_id result s.triage_by_id;
}
