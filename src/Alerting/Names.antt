-- ===== src/Alerting/Names.antt =====
-- The fields that internal/alerting/grafana.go fills in by a choice.
use triovexa.Prelude.{
  String, false, List, [], ◌∷◌, some, ◌≡◌, ◌≢◌, refl, arith, inl, inr, Bool-cases, str_eq, eq_iff,
  trim_space, subst,
}
use triovexa.Alerting.{
  GrafanaAlert, GrafanaWebhookPayload, NormalizedAlert, first_non_empty, title_of, normalize_alert,
  normalize_payload, normalize_grafana_payload,
}

-- A choice that ends with a text that is not blank is never empty.
data EndsWith (d : String) : List String → Type 0 where
  last_one : EndsWith d (d ∷ [])
  later : (v : String) {values : List String} → EndsWith d values → EndsWith d (v ∷ values)

first_non_empty-ne :
    (d : String) (values : List String)
    → EndsWith d values
    → str_eq (trim_space d) "" ≡ false
    → first_non_empty values ≢ ""
unfolding first_non_empty
first_non_empty-ne d _ last_one h =
    rw (h, first_non_empty) λ e. ground (arith, eq_iff (trim_space d) "")
first_non_empty-ne d _ (later v {values} r) h = elim (Bool-cases (str_eq (trim_space v) "")) [
  | inl e ↦ rw (e, first_non_empty) (first_non_empty-ne d values r h)
  | inr e ↦ rw (e, first_non_empty) λ q. ground (arith, eq_iff (trim_space v) "")
]

title_of-ne : (title : String) (primary : GrafanaAlert) → title_of title primary ≢ ""
unfolding title_of trim_space
title_of-ne title primary = elim (Bool-cases (str_eq (trim_space title) "")) [
  | inl e ↦
      rw (e, title_of) (first_non_empty-ne "grafana alert" _ (later _ (later _ last_one)) refl)
  | inr e ↦ rw (e, title_of) λ q. ground (arith, eq_iff (trim_space title) "")
]

-- An alert whose incident has a name, a service, an environment and a severity.
pub record IsNamed (alert : NormalizedAlert) : Type 0 where
  pub titled : alert.title ≢ ""
  pub of_service : alert.service_name ≢ ""
  pub in_environment : alert.environment ≢ ""
  pub ranked : alert.severity ≢ ""

-- A payload with an alert is normalized, and no title, service, environment or severity is empty then.
pub normalize_grafana_payload-IsNamed :
    (payload : GrafanaWebhookPayload) (alert : NormalizedAlert)
    → normalize_grafana_payload payload ≡ some alert
    → IsNamed alert
unfolding normalize_grafana_payload
normalize_grafana_payload-IsNamed payload alert h = from_alerts payload.alerts h
  where
    named : (primary : GrafanaAlert) → IsNamed (normalize_alert payload primary)
    named primary =
        unfold normalize_alert in
        unfold trim_space in
        record {
          titled = title_of-ne payload.title primary;
          of_service =
              first_non_empty-ne "unknown-service" _ (later _ (later _ (later _ last_one))) refl;
          in_environment =
              first_non_empty-ne "unknown-environment" _ (later _ (later _ last_one)) refl;
          ranked = first_non_empty-ne "warning" _ (later _ last_one) refl;
        }

    from_alerts :
        (alerts : List GrafanaAlert) → normalize_payload alerts payload ≡ some alert → IsNamed alert
    from_alerts [] r = unfold normalize_payload in absurd (ground (arith, r))
    from_alerts (primary ∷ rest) r =
        unfold normalize_payload in subst IsNamed (ground (arith, r)) (named primary)
