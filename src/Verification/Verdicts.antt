-- ===== src/Verification/Verdicts.antt =====
-- What the verdict of internal/verification/service.go requires of the two snapshots.
use triovexa.Prelude.{
  ◌≤◌, true, false, not, ◌&&◌, ◌||◌, ◌≡◌, ◌⊎◌, ◌↔◌, ◌≢◌, inl, inr, Bool-cases, arith, str_eq,
  eq_iff, leb, ◌==◌,
}
use triovexa.Numbers.{ltb_int, float_lt}
use triovexa.Domain.{Snapshot, success, failed_verification}
use triovexa.Verification.Checks.{
  Checks, build_checks, recovery_checks_passed, count_true, verdict, mode_healthy,
  mode_worker_stall,
}

-- The service is healthy again: its alert is gone and its health check is normal.
abbrev pub IsHealthy : Snapshot → Type 0
IsHealthy after = (after.mode ≡ mode_healthy) × (after.worker_healthy ≡ true)

-- The backlog of a stalled worker shrank and the errors did not grow.
abbrev pub IsDrained : Snapshot → Snapshot → Type 0
IsDrained before after =
    (before.mode ≡ mode_worker_stall)
    × (ltb_int after.queue_backlog before.queue_backlog ≡ true)
    × (float_lt before.error_rate after.error_rate ≡ false)

-- No signal got worse.
abbrev pub NoneWorse : Snapshot → Snapshot → Type 0
NoneWorse before after =
    (float_lt before.error_rate after.error_rate ≡ false)
    × (ltb_int before.latency_ms after.latency_ms ≡ false)
    × (ltb_int before.queue_backlog after.queue_backlog ≡ false)

-- Two of the three signals got better.
abbrev pub TwoBetter : Snapshot → Snapshot → Type 0
TwoBetter before after =
    2
    ≤ count_true (float_lt after.error_rate before.error_rate)
        (ltb_int after.latency_ms before.latency_ms)
        (ltb_int after.queue_backlog before.queue_backlog)

-- The verdict's tests, over the checks.
module _ (before : Snapshot) (c : Checks) where
  verdict-success_tests : (verdict before c ≡ success) ↔ (
      ((str_eq before.mode mode_worker_stall && recovery_checks_passed c)
        || (c.alert_cleared
            && c.health_check_normal
            && leb 2 (count_true c.error_rate_improved c.latency_improved c.queue_backlog_improved)
            && (count_true c.error_rate_worsened c.latency_worsened c.queue_backlog_worsened == 0)))
      ≡ true)
  unfolding verdict
  verdict-success_tests = (λ h. ground arith, λ h. ground arith)

  verdict-failed_tests : (verdict before c ≡ failed_verification) ↔ (
      (verdict before c ≢ success)
      × ((not c.alert_cleared
            || not c.health_check_normal
            || leb 2 (count_true c.error_rate_worsened c.latency_worsened c.queue_backlog_worsened))
          ≡ true))
  unfolding verdict
  verdict-failed_tests = (λ h. ground arith, λ h. ground arith)

module _ (before after : Snapshot) where
  -- The verdict is success exactly if the service is healthy and either it was a stalled worker that
  -- drained, or two signals got better and none got worse.
  pub verdict-IsHealthy : (verdict before (build_checks before after) ≡ success) ↔ (
      IsHealthy after
      × (IsDrained before after ⊎ (TwoBetter before after × NoneWorse before after)))
  unfolding build_checks count_true recovery_checks_passed
  verdict-IsHealthy = (
    λ h. passed ((verdict-success_tests before (build_checks before after)).0 h),
    λ h.
        (verdict-success_tests before (build_checks before after)).1
          (ground (arith, eq_iff before.mode mode_worker_stall, eq_iff after.mode mode_healthy, h)),
  )
    where
      passed :
          ((str_eq before.mode mode_worker_stall
                && recovery_checks_passed (build_checks before after))
              || (str_eq after.mode mode_healthy
                  && after.worker_healthy
                  && leb 2 (
                      count_true
                        (float_lt after.error_rate before.error_rate)
                        (ltb_int after.latency_ms before.latency_ms)
                        (ltb_int after.queue_backlog before.queue_backlog))
                  && (count_true
                        (float_lt before.error_rate after.error_rate)
                        (ltb_int before.latency_ms after.latency_ms)
                        (ltb_int before.queue_backlog after.queue_backlog)
                      == 0)))
            ≡ true
          → IsHealthy after
            × (IsDrained before after ⊎ (TwoBetter before after × NoneWorse before after))
      passed t =
          elim (Bool-cases (
            str_eq before.mode mode_worker_stall
            && recovery_checks_passed (build_checks before after))) [
              | inl d ↦ (
                (ground (arith, eq_iff after.mode mode_healthy), ground arith),
                inl (
                  ground (arith, eq_iff before.mode mode_worker_stall),
                  ground arith,
                  ground arith,
                ),
              )
              | inr n ↦ (
                (ground (arith, eq_iff after.mode mode_healthy), ground arith),
                inr (ground arith, (ground arith, ground arith, ground arith)),
              )
            ]
