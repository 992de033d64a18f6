-- ===== src/Verification/Checks.antt =====
-- The baseline, the checks and the verdict of internal/verification/service.go.
use triovexa.Prelude.{
  ℕ, ◌+◌, String, Bool, true, false, not, ◌&&◌, ◌||◌, List, [], ◌∷◌, Option, none, some, get,
  str_eq, trim_space, leb, ◌==◌, if◌then◌else◌,
}
use triovexa.Numbers.{ltb_int, Float64, float_lt, int_of_float}
use triovexa.Domain.{
  Time, EvidenceItem, Snapshot, no_snapshot, Details, text, flag, float, VerificationStatus,
  success, failed_verification, inconclusive_verification,
}
use triovexa.World.{Env}

-- demo.ModeHealthy and demo.ModeWorkerStall.
abbrev pub mode_healthy : String
mode_healthy = "healthy"

abbrev pub mode_worker_stall : String
mode_worker_stall = "worker_stall"

-- metadata[key].(string), .(bool), and the numbers: json.Unmarshal makes a float64 of every number.
unfoldable pub text_at : String → Details → Option String
text_at key metadata = elim (get key metadata) [
  | none ↦ none
  | some value ↦ elim value [ text s ↦ some s | _ ↦ none ]
]

unfoldable pub flag_at : String → Details → Option Bool
flag_at key metadata = elim (get key metadata) [
  | none ↦ none
  | some value ↦ elim value [ flag b ↦ some b | _ ↦ none ]
]

unfoldable pub float_at : String → Details → Option Float64
float_at key metadata = elim (get key metadata) [
  | none ↦ none
  | some value ↦ elim value [ float x ↦ some x | _ ↦ none ]
]

-- The variables of the loop of deriveBaselineSnapshot.
pub record Baseline : Type 0 where
  pub snapshot : Snapshot
  pub found_metric : Bool
  pub found_health : Bool

unfoldable pub read_mode : Time → Option String → Baseline → Baseline
read_mode at none b = b
read_mode at (some mode) b =
    if str_eq mode ""
    then b
    else record b { snapshot = record b.snapshot { mode = mode; last_updated = at } }

unfoldable pub read_error_rate : Option Float64 → Baseline → Baseline
read_error_rate none b = b
read_error_rate (some x) b = record b {
  snapshot = record b.snapshot { error_rate = x };
  found_metric = true;
}

unfoldable pub read_latency : Option Float64 → Baseline → Baseline
read_latency none b = b
read_latency (some x) b = record b {
  snapshot = record b.snapshot { latency_ms = int_of_float x };
  found_metric = true;
}

unfoldable pub read_backlog : Option Float64 → Baseline → Baseline
read_backlog none b = b
read_backlog (some x) b = record b {
  snapshot = record b.snapshot { queue_backlog = int_of_float x };
  found_metric = true;
}

unfoldable pub read_replicas : Option Float64 → Baseline → Baseline
read_replicas none b = b
read_replicas (some x) b = record b {
  snapshot = record b.snapshot { replica_count = int_of_float x };
}

unfoldable pub read_paused : Option Bool → Baseline → Baseline
read_paused none b = b
read_paused (some v) b = record b { snapshot = record b.snapshot { consumer_paused = v } }

unfoldable pub read_health : Option Bool → Baseline → Baseline
read_health none b = b
read_health (some v) b = record b {
  snapshot = record b.snapshot { worker_healthy = v };
  found_health = true;
}

unfoldable pub read_deploy : Option String → Baseline → Baseline
read_deploy none b = b
read_deploy (some s) b = record b { snapshot = record b.snapshot { last_deploy = s } }

unfoldable pub read_metadata : Time → Details → Baseline → Baseline
read_metadata at m b = read_deploy (text_at "last_deploy" m) (
    read_health (flag_at "workerHealthy" m) (
      read_paused (flag_at "consumer_paused" m) (
        read_replicas (float_at "replica_count" m) (
          read_backlog (float_at "queue_backlog" m) (
            read_latency (float_at "latency_ms" m)
              (read_error_rate (float_at "error_rate" m) (read_mode at (text_at "mode" m) b)))))))

module _ (env : Env) where
  unfoldable pub read_item : EvidenceItem → Baseline → Baseline
  read_item item b =
      if str_eq (trim_space item.metadata_json) ""
      then b
      else elim (env.unmarshal item.metadata_json) [
        | none ↦ b
        | some metadata ↦ read_metadata item.timestamp metadata b
      ]

  unfoldable pub read_items : List EvidenceItem → Baseline → Baseline
  read_items [] b = b
  read_items (item ∷ items) b = read_items items (read_item item b)

  abbrev pub no_baseline : Baseline
  no_baseline = record { snapshot = no_snapshot; found_metric = false; found_health = false }

  -- Without a metric there is no baseline; without a health flag the mode decides.
  unfoldable pub finish_baseline : Baseline → Option Snapshot
  finish_baseline b =
      if not b.found_metric
      then none
      else if b.found_health
      then some b.snapshot
      else some (record b.snapshot { worker_healthy = str_eq b.snapshot.mode mode_healthy })

  unfoldable pub derive_baseline_snapshot : List EvidenceItem → Option Snapshot
  derive_baseline_snapshot items = finish_baseline (read_items items no_baseline)

-- The map of buildChecks.
pub record Checks : Type 0 where
  pub alert_cleared : Bool
  pub health_check_normal : Bool
  pub error_rate_improved : Bool
  pub latency_improved : Bool
  pub queue_backlog_improved : Bool
  pub error_rate_worsened : Bool
  pub latency_worsened : Bool
  pub queue_backlog_worsened : Bool

unfoldable pub build_checks : Snapshot → Snapshot → Checks
build_checks before after = record {
  alert_cleared = str_eq after.mode mode_healthy;
  health_check_normal = after.worker_healthy;
  error_rate_improved = float_lt after.error_rate before.error_rate;
  latency_improved = ltb_int after.latency_ms before.latency_ms;
  queue_backlog_improved = ltb_int after.queue_backlog before.queue_backlog;
  error_rate_worsened = float_lt before.error_rate after.error_rate;
  latency_worsened = ltb_int before.latency_ms after.latency_ms;
  queue_backlog_worsened = ltb_int before.queue_backlog after.queue_backlog;
}

unfoldable pub recovery_checks_passed : Checks → Bool
recovery_checks_passed c =
    c.alert_cleared
    && c.health_check_normal
    && c.queue_backlog_improved
    && not c.error_rate_worsened

-- countTrue of three values.
unfoldable pub count_true : Bool → Bool → Bool → ℕ
count_true a b c = (if a then 1 else 0) + (if b then 1 else 0) + (if c then 1 else 0)

abbrev pub improvements : Checks → ℕ
improvements c = count_true c.error_rate_improved c.latency_improved c.queue_backlog_improved

abbrev pub worsenings : Checks → ℕ
worsenings c = count_true c.error_rate_worsened c.latency_worsened c.queue_backlog_worsened

-- The last `switch` of evaluate.
unfoldable pub verdict : Snapshot → Checks → VerificationStatus
unfolding recovery_checks_passed count_true
verdict before c =
    if (str_eq before.mode mode_worker_stall && recovery_checks_passed c)
      || (c.alert_cleared && c.health_check_normal && leb 2 (improvements c) && (worsenings c == 0))
    then success
    else if not c.alert_cleared || not c.health_check_normal || leb 2 (worsenings c)
    then failed_verification
    else inconclusive_verification

abbrev pub verdict_notes : VerificationStatus → String
verdict_notes success =
    "verification passed: alert cleared and core signals improved after execution"
verdict_notes failed_verification =
    "verification failed: service is still degraded or key signals worsened after execution"
verdict_notes inconclusive_verification =
    "verification inconclusive: partial improvement observed but signals are not strong enough to auto-resolve"
