-- ===== src/Verification/Evaluate.antt =====
-- evaluate of internal/verification/service.go.
use Prim.Native.String.{◌++◌}
use triovexa.Prelude.{
  ℕ, ◌+◌, String, Bool, not, List, [], ◌∷◌, Option, none, some, ltb, ◌==◌, if◌then◌else◌,
}
use triovexa.Domain.{
  Time, Incident, CandidateAction, Snapshot, no_snapshot, VerificationStatus,
  inconclusive_verification,
}
use triovexa.Failure.{not_found}
use triovexa.Storage.Incidents.{get_incident, list_evidence_items}
use triovexa.Catalog.{Catalog}
use triovexa.Triage.{Answer, answer, failure}
use triovexa.World.{Env, M, ◌>>=◌, pure, fetch, look, ask, now}
use triovexa.Execution.Rollback.{RollbackConfig}
use triovexa.Verification.Checks.{
  Checks, derive_baseline_snapshot, build_checks, verdict, verdict_notes,
}
use triovexa.Verification.Observe.{Observed, Watch, count_on, observe}

-- Service: what it asks, its rollback service, and its settings.
pub record VerificationConfig : Type 0 where
  pub catalog : Catalog
  -- SnapshotFetcher, which may be missing, or ContextualSnapshotFetcher.
  pub fetcher : Option (Incident → ℕ → Answer Snapshot)
  -- Whether the caller's context is done, at a reading of the clock.
  pub cancelled : ℕ → Bool
  pub rollbacker : Option RollbackConfig
  pub observation_timeout : Time
  pub required_observations : ℕ
  pub baseline_max_age : Time
  pub fuel : ℕ

-- The results of evaluate; no checks are the empty map.
pub record Evaluation : Type 0 where
  pub before : Snapshot
  pub after : Snapshot
  pub observations : List Snapshot
  pub checks : Option Checks
  pub status : VerificationStatus
  pub notes : String

-- A snapshot, and the text of an error beside it.
pub record Reading : Type 0 where
  pub snapshot : Snapshot
  pub error : Option String

abbrev pub reading_of : Answer Snapshot → Reading
reading_of (answer s) = record { snapshot = s; error = none }
reading_of (failure e) = record { snapshot = no_snapshot; error = some e }

abbrev pub baseline_reading : Option Snapshot → Reading
baseline_reading none = record {
  snapshot = no_snapshot;
  error = some "baseline metrics are missing from evidence";
}
baseline_reading (some s) = record { snapshot = s; error = none }

-- The texts of the errors, one or two in brackets.
abbrev pub missing_notes : Option String → Option String → String
missing_notes (some b) (some a) =
    "verification inconclusive: unable to collect before/after signal comparison (" ++ b ++ "; "
    ++ a ++ ")"
missing_notes (some b) none =
    "verification inconclusive: unable to collect before/after signal comparison (" ++ b ++ ")"
missing_notes none (some a) =
    "verification inconclusive: unable to collect before/after signal comparison (" ++ a ++ ")"
missing_notes none none =
    "verification inconclusive: unable to collect before/after signal comparison"

abbrev pub with_error : Option String → List Snapshot → Snapshot → List Snapshot
with_error none observations after = after ∷ []
with_error (some e) observations after = []

module _ (env : Env) (c : VerificationConfig) where
  -- A baseline is stale if it has no date or is too old.
  unfoldable pub check_age : Snapshot → M Reading
  check_age s = do
    at ← now env
    pure (record {
      snapshot = s;
      error =
          if ltb (s.last_updated + c.baseline_max_age) at
          then some "baseline evidence is stale"
          else none;
    })

  unfoldable pub date_baseline : Reading → M Reading
  date_baseline r = elim r.error [
    | some e ↦ pure r
    | none ↦
        if not (ltb 0 c.baseline_max_age)
        then pure r
        else if r.snapshot.last_updated == 0
        then pure (record r { error = some "baseline evidence is stale" })
        else check_age r.snapshot
  ]

  -- fetchAfterSnapshot.
  unfoldable pub fetch_after_snapshot : Incident → M (Answer Snapshot)
  fetch_after_snapshot incident = elim c.fetcher [
    | none ↦ pure (failure "verification snapshot fetcher is not configured")
    | some f ↦ ask (f incident)
  ]

  abbrev pub watch : Watch
  watch = record {
    fetch = λ incident n. elim c.fetcher [
      | none ↦ failure "verification snapshot fetcher is not configured"
      | some f ↦ f incident n
    ];
    cancelled = c.cancelled;
    required = c.required_observations;
  }

  abbrev pub first_observed : Snapshot → Snapshot → Observed
  first_observed before after = record {
    after = after;
    observations = after ∷ [];
    checks = build_checks before after;
    consecutive = count_on (build_checks before after) 0;
    interrupted = none;
  }

  -- The `if` on the number of observations that are required.
  unfoldable pub watch_recovery : Incident → Snapshot → Snapshot → M Observed
  watch_recovery incident before after =
      if not (ltb 1 c.required_observations) then pure (first_observed before after) else (do
        begin ← now env
        observe env watch incident before (begin + c.observation_timeout) c.fuel
            (first_observed before after))

  -- The verdict, where the recovery was watched to its end and was stable.
  abbrev pub judged : Snapshot → Observed → VerificationStatus → String → Evaluation
  judged before o status notes = record {
    before = before;
    after = o.after;
    observations = o.observations;
    checks = some o.checks;
    status = status;
    notes = notes;
  }

  unfoldable pub judge : Snapshot → Observed → Evaluation
  judge before o = elim o.interrupted [
    | some reason ↦ judged before o inconclusive_verification reason
    | none ↦
        if ltb 1 c.required_observations
        then (if ltb o.consecutive c.required_observations
            then judged before o inconclusive_verification
                "verification inconclusive: recovery was not stable for the required observations"
            else judged before o (verdict before o.checks)
                (verdict_notes (verdict before o.checks)))
        else judged before o (verdict before o.checks) (verdict_notes (verdict before o.checks))
  ]

  unfoldable pub compare_snapshots : Incident → Snapshot → Snapshot → M Evaluation
  compare_snapshots incident before after = do
    o ← watch_recovery incident before after
    pure (judge before o)

  abbrev pub not_compared : Reading → Reading → Evaluation
  not_compared before after = record {
    before = before.snapshot;
    after = after.snapshot;
    observations = with_error after.error [] after.snapshot;
    checks = none;
    status = inconclusive_verification;
    notes = missing_notes before.error after.error;
  }

  unfoldable pub compare_readings : Incident → Reading → Reading → M Evaluation
  compare_readings incident before after = elim before.error [
    | some e ↦ pure (not_compared before after)
    | none ↦ elim after.error [
      | some e ↦ pure (not_compared before after)
      | none ↦ compare_snapshots incident before.snapshot after.snapshot
    ]
  ]

  unfoldable pub evaluate : CandidateAction → M Evaluation
  evaluate action = do
    incident ← fetch (get_incident action.incident_id) not_found
    evidence ← look (list_evidence_items action.incident_id)
    before ← date_baseline (baseline_reading (derive_baseline_snapshot env evidence))
    after ← fetch_after_snapshot incident
    compare_readings incident before (reading_of after)
