-- ===== src/Remediation/Evidence.antt =====
-- What internal/remediation/service.go reads from the evidence.
use triovexa.Prelude.{
  ℕ, String, not, ◌&&◌, List, [], ◌∷◌, Option, none, some, str_eq, trim_space, to_lower,
  text_contains, if◌then◌else◌, get,
}
use triovexa.Numbers.{ℤ, pos, int_of_float}
use triovexa.Domain.{Time, EvidenceItem, Details, text, float}

-- JSON of the metadata and of the parameters, strconv.Quote, new ids and readings of the clock.
pub record Source : Type 0 where
  pub unmarshal : String → Option Details
  pub marshal : Details → String
  pub quote : String → String
  pub uuid : ℕ → String
  pub clock : ℕ → Time

-- A mode of a snippet.
unfoldable pub mode_of_snippet : String → Option String
mode_of_snippet snippet =
    if text_contains snippet "worker stalled"
    then some "worker_stall"
    else if text_contains snippet "request timeouts increased"
    then some "timeout_after_deploy"
    else if text_contains snippet "error rate spike"
    then some "error_rate_spike"
    else none

unfoldable pub detect_mode : List EvidenceItem → String
unfolding mode_of_snippet
detect_mode [] = "unknown"
detect_mode (item ∷ evidence) =
    let rest = detect_mode evidence in
    elim (mode_of_snippet (to_lower item.snippet)) [ none ↦ rest | some mode ↦ mode ]

unfoldable pub find_evidence_by_type : List EvidenceItem → String → String
find_evidence_by_type [] item_type = ""
find_evidence_by_type (item ∷ evidence) item_type =
    if str_eq item.type item_type then item.id else find_evidence_by_type evidence item_type

module _ (s : Source) where
  -- The number of the first metric that has the key with a number.
  unfoldable pub metric_of : String → Option Details → Option ℤ
  metric_of key none = none
  metric_of key (some payload) = elim (get key payload) [
    | none ↦ none
    | some value ↦ elim value [ float x ↦ some (int_of_float x) | _ ↦ none ]
  ]

  unfoldable pub extract_int_metric : List EvidenceItem → String → ℤ
  unfolding metric_of
  extract_int_metric [] key = pos 0
  extract_int_metric (item ∷ evidence) key =
      let rest = extract_int_metric evidence key in
      if str_eq item.type "metric"
      then elim (metric_of key (s.unmarshal item.metadata_json)) [ none ↦ rest | some n ↦ n ]
      else rest

  unfoldable pub field_of : String → Option Details → String
  field_of key none = ""
  field_of key (some payload) = elim (get key payload) [
    | none ↦ ""
    | some value ↦ elim value [ text t ↦ t | _ ↦ "" ]
  ]

  unfoldable pub extract_string_field : String → String → String
  unfolding field_of
  extract_string_field body key =
      if str_eq (trim_space body) "" then "" else field_of key (s.unmarshal body)

  unfoldable pub extract_deploy_version : List EvidenceItem → String
  extract_deploy_version [] = "unknown"
  extract_deploy_version (item ∷ evidence) =
      let rest = extract_deploy_version evidence in
      if str_eq item.type "deploy"
        && not (str_eq (extract_string_field item.metadata_json "last_deploy") "")
      then extract_string_field item.metadata_json "last_deploy"
      else rest
