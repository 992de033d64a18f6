-- ===== src/Verification/Frames.antt =====
-- What a rollback and the comparison of internal/verification/service.go may change, for any relation that
-- the writes of a verification keep.
use triovexa.Prelude.{ℕ, zero, suc, String, Bool, true, false, Option-cases, inl, inr, none, some}
use triovexa.Domain.{
  Time, Incident, IncidentState, Snapshot, CandidateAction, CandidateActionStatus, Details,
  VerificationResult, RollbackRecord,
}
use triovexa.Storage.Actions.{update_candidate_action_status}
use triovexa.Storage.Outcomes.{save_verification_result, save_rollback_record}
use triovexa.Triage.{Answer, answer, failure}
use triovexa.World.{World, Env, M, Dispatch, update, audit, dispatch}
use triovexa.World.Within.{Within, IsFrame, within_rules, Within-pure}
use triovexa.Transition.{transition_incident_state}
use triovexa.Execution.Retry.{Reply}
use triovexa.Execution.Rollback.{
  RollbackConfig, RollbackPlan, check_plan, request_rollback, finish_rollback, call_rollback,
  rollback_action,
}
use triovexa.Verification.Observe.{Observed, Watch, take_answer, wait_round, in_time, observe}
use triovexa.Verification.Evaluate.{
  VerificationConfig, Reading, check_age, date_baseline, fetch_after_snapshot, watch_recovery,
  compare_snapshots, compare_readings, evaluate,
}
use triovexa.Verification.Conclude.{audit_since}

-- A relation that each write of a verification keeps, but for the moves of the incident.
pub record IsRecordFrame (env : Env) (R : World → World → Type 0) : Type 0 where
  pub frame : IsFrame R
  pub audits :
      (incident_id step_name status : String) (details : Details) (from to : Time)
      → Within R (audit env incident_id step_name status details from to)
  pub updates_status :
      (id : String) (status : CandidateActionStatus)
      → Within R (update (update_candidate_action_status id status))
  pub saves_result :
      (result : VerificationResult) → Within R (update (save_verification_result result))
  pub saves_rollback : (r : RollbackRecord) → Within R (update (save_rollback_record r))
  pub dispatches : (call : Dispatch) → Within R (dispatch env call)

-- A relation that each write of a verification keeps.
pub record IsVerifyFrame (env : Env) (R : World → World → Type 0) : Type 0 where
  pub records : IsRecordFrame env R
  pub transits :
      (incident : Incident) (next : IncidentState)
      → Within R (transition_incident_state env incident next)

module _ (env : Env) (c : RollbackConfig) {R : World → World → Type 0}
    (k : IsRecordFrame env R) where
  check_plan-Within :
      (action : CandidateAction) (triggered_by : String)
      → Within R (check_plan env c action triggered_by)
  unfolding check_plan
  check_plan-Within action triggered_by = search (within_rules, k.frame) depth 24

  request_rollback-Within :
      (action : CandidateAction) (plan : RollbackPlan) (triggered_by note : String)
      → Within R (request_rollback env c action plan triggered_by note)
  unfolding request_rollback
  request_rollback-Within action plan triggered_by note =
      search (within_rules, k.frame, k.saves_rollback) depth 24

  finish_rollback-Within :
      (action : CandidateAction) (requested : RollbackRecord) (at : Time) (reply : Reply)
      → Within R (finish_rollback env c action requested at reply)
  unfolding finish_rollback
  finish_rollback-Within action requested at (result, some e) =
      search (within_rules, k.frame, k.saves_rollback) depth 24
  finish_rollback-Within action requested at (result, none) =
      search (within_rules, k.frame, k.saves_rollback, k.updates_status) depth 24

  call_rollback-Within :
      (action : CandidateAction) (plan : RollbackPlan) (triggered_by : String)
      (requested : RollbackRecord)
      → Within R (call_rollback env c action plan triggered_by requested)
  unfolding call_rollback
  call_rollback-Within action plan triggered_by requested =
      search (within_rules, k.frame, k.dispatches, finish_rollback-Within) depth 24

  pub rollback_action-Within :
      (action : CandidateAction) (triggered_by note : String)
      → Within R (rollback_action env c action triggered_by note)
  unfolding rollback_action
  rollback_action-Within action triggered_by note =
      search
        (within_rules, k.frame, check_plan-Within, request_rollback-Within, call_rollback-Within)
        depth 24

module _ (env : Env) {R : World → World → Type 0} (f : IsFrame R) (watch : Watch)
    (incident : Incident) (before : Snapshot) (deadline : Time) where
  module _ (again : Observed → M Observed) (goes : (o : Observed) → Within R (again o)) where
    take_answer-Within :
        (o : Observed) (a : Answer Snapshot)
        → Within R (take_answer env watch incident before deadline o again a)
    unfolding take_answer
    take_answer-Within o (failure e) = search (within_rules, f)
    take_answer-Within o (answer next) = goes _

    wait_round-Within :
        (o : Observed) (b : Bool)
        → Within R (wait_round env watch incident before deadline o again b)
    unfolding wait_round
    wait_round-Within o true = search (within_rules, f)
    wait_round-Within o false = search (within_rules, f, take_answer-Within) depth 12

    in_time-Within :
        (o : Observed) (at : Time)
        → Within R (in_time env watch incident before deadline o again at)
    unfolding in_time
    in_time-Within o at = search (within_rules, f, wait_round-Within) depth 12

  pub observe-Within :
      (fuel : ℕ) (o : Observed) → Within R (observe env watch incident before deadline fuel o)
  unfolding observe
  observe-Within zero o = search (within_rules, f)
  observe-Within (suc fuel) o =
      search
        (
          within_rules,
          f,
          in_time-Within (observe env watch incident before deadline fuel) (observe-Within fuel),
        )
        depth 12

module _ (env : Env) (c : VerificationConfig) {R : World → World → Type 0} (f : IsFrame R) where
  check_age-Within : (s : Snapshot) → Within R (check_age env c s)
  unfolding check_age
  check_age-Within s = search (within_rules, f) depth 12

  date_baseline-Within : (r : Reading) → Within R (date_baseline env c r)
  unfolding date_baseline
  date_baseline-Within r = elim (Option-cases r.error) [
    | inr (e, p) ↦ rw (p, date_baseline) (Within-pure f r)
    | inl n ↦ rw (n, date_baseline) (search (within_rules, f, check_age-Within) depth 12)
  ]

  fetch_after-Within : (incident : Incident) → Within R (fetch_after_snapshot env c incident)
  unfolding fetch_after_snapshot
  fetch_after-Within incident = elim (Option-cases c.fetcher) [
    | inl n ↦ rw (n, fetch_after_snapshot) (search (within_rules, f))
    | inr (fetch, p) ↦ rw (p, fetch_after_snapshot) (search (within_rules, f))
  ]

  watch_recovery-Within :
      (incident : Incident) (before after : Snapshot)
      → Within R (watch_recovery env c incident before after)
  unfolding watch_recovery
  watch_recovery-Within incident before after =
      search (within_rules, f, observe-Within env f) depth 12

  compare_snapshots-Within :
      (incident : Incident) (before after : Snapshot)
      → Within R (compare_snapshots env c incident before after)
  unfolding compare_snapshots
  compare_snapshots-Within incident before after =
      search (within_rules, f, watch_recovery-Within) depth 12

  compare_readings-Within :
      (incident : Incident) (before after : Reading)
      → Within R (compare_readings env c incident before after)
  unfolding compare_readings
  compare_readings-Within incident before after = elim (Option-cases before.error) [
    | inr (e, p) ↦ rw (p, compare_readings) (Within-pure f _)
    | inl n ↦ elim (Option-cases after.error) [
      | inr (e, p) ↦ rw (n, p, compare_readings) (Within-pure f _)
      | inl m ↦
          rw (n, m, compare_readings)
            (compare_snapshots-Within incident before.snapshot after.snapshot)
    ]
  ]

  pub evaluate-Within : (action : CandidateAction) → Within R (evaluate env c action)
  unfolding evaluate
  evaluate-Within action =
      search (within_rules, f, date_baseline-Within, fetch_after-Within, compare_readings-Within)
        depth 32

module _ (env : Env) (c : VerificationConfig) {R : World → World → Type 0}
    (k : IsRecordFrame env R) where
  pub audit_since-Within :
      (started_at : Time) (action : CandidateAction) (step_name : String) (details : Details)
      → Within R (audit_since env c started_at action step_name details)
  unfolding audit_since
  audit_since-Within started_at action step_name details =
      search (within_rules, k.frame, k.audits) depth 12
