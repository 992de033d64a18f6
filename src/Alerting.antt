-- ===== src/Alerting.antt =====
-- internal/alerting/grafana.go: from the webhook's payload to a normalized alert.
pub mod Names
use Prim.Native.String.{◌++◌}
use triovexa.Prelude.{
  ℕ, ◌-◌, ◌/◌, String, Bool, true, false, List, [], ◌∷◌, Option, none, some, Map, get, put, str_eq,
  trim_space, to_lower, show_int, leb, if◌then◌else◌,
}
use triovexa.Domain.{Time, second}

-- GrafanaAlert, less the fields that nothing reads.
pub record GrafanaAlert : Type 0 where
  pub status : String
  pub labels : Map String
  pub annotations : Map String
  pub starts_at : Time
  pub fingerprint : String

pub record GrafanaWebhookPayload : Type 0 where
  pub title : String
  pub state : String
  pub common_labels : Map String
  pub alerts : List GrafanaAlert

pub record NormalizedAlert : Type 0 where
  pub external_alert_id : String
  pub title : String
  pub service_name : String
  pub environment : String
  pub severity : String
  pub alert_source : String
  pub status : String
  pub started_at : Time
  pub labels : Map String

-- A missing key reads as the empty text.
abbrev pub read : String → Map String → String
read key m = elim (get key m) [ none ↦ "" | some value ↦ value ]

-- One set of labels over another.
unfoldable pub merge_labels : Map String → Map String → Map String
merge_labels merged [] = merged
merge_labels merged ((key, value) ∷ m) = merge_labels (put key value merged) m

unfoldable pub first_non_empty : List String → String
first_non_empty [] = ""
first_non_empty (value ∷ values) =
    if str_eq (trim_space value) "" then first_non_empty values else trim_space value

-- The seconds from the year 1, where Time begins, to 1970.
abbrev unix_epoch : ℕ
unix_epoch = 62135596800

-- time.Time.Unix, with %d.
unfoldable pub show_unix : Time → String
show_unix t =
    if leb unix_epoch (t / second)
    then show_int (t / second - unix_epoch)
    else "-" ++ show_int (unix_epoch - t / second)

unfoldable pub title_of : String → GrafanaAlert → String
title_of title primary =
    if str_eq (trim_space title) ""
    then first_non_empty (
        read "summary" primary.annotations
        ∷ read "description" primary.annotations
        ∷ "grafana alert"
        ∷ [])
    else trim_space title

abbrev pub service_of : Map String → String
service_of labels = first_non_empty (
    read "service" labels ∷ read "service_name" labels ∷ read "job" labels ∷ "unknown-service" ∷ [])

abbrev pub environment_of : Map String → String
environment_of labels =
    first_non_empty (read "environment" labels ∷ read "env" labels ∷ "unknown-environment" ∷ [])

unfoldable pub normalize_alert : GrafanaWebhookPayload → GrafanaAlert → NormalizedAlert
normalize_alert payload primary =
    let labels = merge_labels (merge_labels [] payload.common_labels) primary.labels in
    record {
      external_alert_id = first_non_empty (
          primary.fingerprint
          ∷ (service_of labels
              ++ "-"
              ++ environment_of labels
              ++ "-"
              ++ show_unix primary.starts_at)
          ∷ []);
      title = title_of payload.title primary;
      service_name = service_of labels;
      environment = environment_of labels;
      severity = first_non_empty (read "severity" labels ∷ "warning" ∷ []);
      alert_source = "grafana";
      status = to_lower (first_non_empty (payload.state ∷ primary.status ∷ "firing" ∷ []));
      started_at = primary.starts_at;
      labels = labels;
    }

-- `none` is a payload with no alert; of several the first one counts.
unfoldable pub normalize_payload :
    List GrafanaAlert → GrafanaWebhookPayload → Option NormalizedAlert
normalize_payload [] payload = none
normalize_payload (primary ∷ rest) payload = some (normalize_alert payload primary)

unfoldable pub normalize_grafana_payload : GrafanaWebhookPayload → Option NormalizedAlert
unfolding normalize_payload
normalize_grafana_payload payload = normalize_payload payload.alerts payload
