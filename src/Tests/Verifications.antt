-- ===== src/Tests/Verifications.antt =====
-- Verifications of an execution that restarted a stalled worker.
use triovexa.Prelude.{String, true, false, [], ◌∷◌, none, some, ◌≡◌, ◌↔◌, ◌⊎◌, get, arith, eq_iff}
use triovexa.Numbers.{pos}
use triovexa.Domain.{Incident, Snapshot, success, verifying_action, executing}
use triovexa.Storage.Incidents.{get_incident}
use triovexa.Catalog.Default.{default_catalog}
use triovexa.World.{World}
use triovexa.World.Within.{Within}
use triovexa.World.Ensures.{Ensures}
use triovexa.Triage.{answer}
use triovexa.Execution.Run.{execute_action}
use triovexa.Execution.Recovery.{recover_started_executions}
use triovexa.Execution.Exclusion.{StaysSafe}
use triovexa.Verification.Evaluate.{VerificationConfig}
use triovexa.Verification.Conclude.{verify_execution}
use triovexa.Verification.Checks.{build_checks, verdict}
use triovexa.Verification.Composed.{
  with_verification, verified_execution-StaysSafe, verified_recovery-StaysSafe,
}
use triovexa.Verification.Outcomes.{Concluded, verify_execution-Concluded}
use triovexa.Verification.Confirmed.{Compared, compare_snapshots-Compared}
use triovexa.Verification.Verdicts.{IsHealthy, IsDrained, TwoBetter, NoneWorse, verdict-IsHealthy}
use triovexa.Tests.Scenario.{process, incident_in, restart, started_by, store_in, world_of, config}

abbrev stalled : Snapshot
stalled = record {
  mode = "worker_stall";
  error_rate = 0;
  latency_ms = pos 100;
  queue_backlog = pos 900;
  replica_count = pos 1;
  consumer_paused = false;
  worker_healthy = false;
  last_deploy = "";
  last_updated = 0;
}

abbrev drained : Snapshot
drained = record stalled { mode = "healthy"; queue_backlog = pos 3; worker_healthy = true }

abbrev verification : VerificationConfig
verification = record {
  catalog = default_catalog;
  fetcher = some (λ incident n. answer drained);
  cancelled = λ n. false;
  rollbacker = none;
  observation_timeout = 4;
  required_observations = 3;
  baseline_max_age = 0;
  fuel = 10;
}

abbrev executed : World
executed = world_of (record (store_in verifying_action executing []) {
  executions = ("i", started_by "r" ∷ []) ∷ [];
})

keyed : (id : String) (i : Incident) → get_incident id executed.store ≡ some i → i.id ≡ id
unfolding get_incident get
keyed id i h = ground (arith, eq_iff "i" id)

verified_execution-StaysSafe_example :
    Within StaysSafe
      (execute_action process (with_verification process config verification) "a" "op")
verified_execution-StaysSafe_example =
    verified_execution-StaysSafe process config verification "a" "op"

verified_recovery-StaysSafe_example :
    Within StaysSafe
      (recover_started_executions process (with_verification process config verification) none)
verified_recovery-StaysSafe_example = verified_recovery-StaysSafe process config verification none

verify_execution-Concluded_example :
    Ensures
      (verify_execution process verification (restart executing) (started_by "r"))
      executed
      (Concluded "i")
verify_execution-Concluded_example =
    verify_execution-Concluded process verification (restart executing) (started_by "r") executed
      keyed

compare_snapshots-Compared_example :
    Compared process verification (incident_in verifying_action) stalled drained executed
compare_snapshots-Compared_example =
    compare_snapshots-Compared process verification (incident_in verifying_action) stalled drained
      executed 5 (omega arith) (omega arith)

verdict-IsHealthy_example : (verdict stalled (build_checks stalled drained) ≡ success) ↔ (
    IsHealthy drained
    × (IsDrained stalled drained ⊎ (TwoBetter stalled drained × NoneWorse stalled drained)))
verdict-IsHealthy_example = verdict-IsHealthy stalled drained
