-- ===== src/Storage/Incidents/Latest.antt =====
-- GetLatestIncidentByExternalAlertID of internal/storage/memory.go after a new incident is stored.
use triovexa.Prelude.{
  String, none, some, List, [], ◌∷◌, ◌≡◌, ◌≢◌, refl, arith, str_eq, eq_iff, get, put, Bool-cases,
  inl, inr, true, false,
}
use triovexa.Domain.{Incident}
use triovexa.Storage.Store.{MemoryStore}
use triovexa.Storage.Incidents.{
  latest_from, get_latest_incident_by_external_alert_id, get_incident, create_incident,
}

latest_from-some :
    (alert : String) (m : List (String × Incident)) (i : Incident)
    → latest_from alert m (some i) ≢ none
unfolding latest_from
latest_from-some alert [] i h = cc
latest_from-some alert ((k, x) ∷ m) i h =
    ground (arith, latest_from-some alert m i, latest_from-some alert m x)

latest_from-other :
    (alert : String) (k : String) (x : Incident) (m : List (String × Incident))
    → latest_from alert ((k, x) ∷ m) none ≡ none
    → str_eq x.external_alert_id alert ≡ false
unfolding latest_from
latest_from-other alert k x m h = elim (Bool-cases (str_eq x.external_alert_id alert)) [
  | inl e ↦ absurd (ground (arith, latest_from-some alert m x))
  | inr e ↦ e
]

latest_from-put :
    (alert : String) (i : Incident) (m : List (String × Incident))
    → latest_from alert m none ≡ none
    → get i.id m ≡ none
    → str_eq i.external_alert_id alert ≡ true
    → latest_from alert (put i.id i m) none ≡ some i
unfolding latest_from get put
latest_from-put alert i [] none_yet fresh same = ground arith
latest_from-put alert i ((k, x) ∷ m) none_yet fresh same =
    ground (arith, latest_from-other alert k x m none_yet, latest_from-put alert i m)

-- The first incident of an alert, stored under a new id, is its latest one.
pub latest-create_incident :
    (i : Incident) (s : MemoryStore)
    → get_latest_incident_by_external_alert_id i.external_alert_id s ≡ none
    → get_incident i.id s ≡ none
    → get_latest_incident_by_external_alert_id i.external_alert_id (create_incident i s) ≡ some i
unfolding get_latest_incident_by_external_alert_id get_incident create_incident
latest-create_incident i s none_yet fresh =
    latest_from-put i.external_alert_id i s.incidents none_yet fresh
      ((eq_iff i.external_alert_id i.external_alert_id).1 refl)
