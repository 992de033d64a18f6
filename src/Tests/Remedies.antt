-- ===== src/Tests/Remedies.antt =====
-- The actions for a stalled worker.
use triovexa.Prelude.{[], ◌∷◌, none}
use triovexa.Domain.{triaging, EvidenceItem, TriageResult}
use triovexa.Catalog.Default.{default_catalog}
use triovexa.Remediation.Evidence.{Source}
use triovexa.Remediation.{generate}
use triovexa.Remediation.Validity.{ReturnsSound, generate-ReturnsSound}
use triovexa.Tests.Scenario.{incident_in}

abbrev source : Source
source = record {
  unmarshal = λ s. none;
  marshal = λ m. "{}";
  quote = λ s. s;
  uuid = λ n. "id";
  clock = λ n. n;
}

abbrev stalled_log : EvidenceItem
stalled_log = record {
  id = "e";
  incident_id = "i";
  type = "log";
  source = "loki";
  snippet = "Worker stalled";
  timestamp = 900;
  metadata_json = "";
}

abbrev diagnosis : TriageResult
diagnosis = record {
  id = "t";
  incident_id = "i";
  summary = "stalled";
  hypotheses = [];
  blast_radius = "";
  next_steps = [];
  draft_status_update = "";
  confidence_notes = "";
  created_at = 5;
}

generate-ReturnsSound_example :
    ReturnsSound source default_catalog
      (incident_in triaging)
      (generate source default_catalog (incident_in triaging) diagnosis (stalled_log ∷ []) [])
generate-ReturnsSound_example =
    generate-ReturnsSound source (incident_in triaging) diagnosis (stalled_log ∷ []) []
