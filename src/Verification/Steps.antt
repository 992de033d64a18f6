-- ===== src/Verification/Steps.antt =====
-- What a verification of internal/verification/service.go may change: for any relation that its writes
-- keep, and then for two of them.
use triovexa.Prelude.{String, Option, Option-cases, none, some, ◌≡◌, refl, arith}
use triovexa.Domain.{
  Time, Incident, CandidateAction, ExecutionRecord, VerificationStatus, success,
  failed_verification, inconclusive_verification, VerificationResult, RollbackRecord,
}
use triovexa.Storage.{MemoryStore}
use triovexa.Storage.Executions.{incident_of}
use triovexa.Storage.Outcomes.{
  save_verification_result, save_rollback_record, incident_of_execution,
}
use triovexa.Catalog.{ActionDefinition}
use triovexa.World.{World, Env, Dispatch, dispatch}
use triovexa.World.Within.{Within, within_rules, Within-bind, Within-update}
use triovexa.World.Quiet.{audit-Quiet}
use triovexa.Transition.Moves.{Moves, Moves-frame, same_incidents, transition-Moves}
use triovexa.Approval.Moves.{audit-Moves, update_status-Moves}
use triovexa.Execution.Rollback.{RollbackConfig}
use triovexa.Execution.Exclusion.{
  StaysSafe, StaysSafe-frame, same-IsSafe, Quiet-StaysSafe, status-StaysSafe, transition-StaysSafe,
}
use triovexa.Verification.Evaluate.{VerificationConfig, Evaluation}
use triovexa.Verification.Conclude.{
  escalate, after_rollback, roll_back, try_rollback, conclude, verify_execution,
}
use triovexa.Verification.Frames.{
  IsRecordFrame, IsVerifyFrame, rollback_action-Within, evaluate-Within, audit_since-Within,
}

module _ (env : Env) (c : VerificationConfig) {R : World → World → Type 0}
    (k : IsVerifyFrame env R) where
  module _ (started_at : Time) (action : CandidateAction) (r : ExecutionRecord) (e : Evaluation)
      (incident : Incident) (result : VerificationResult) where
    escalate-Within : Within R (escalate env c started_at action r e incident result)
    unfolding escalate
    escalate-Within =
        search (within_rules, k.records.frame, k.transits, audit_since-Within env c k.records) depth
          16

    after_rollback-Within :
        (key : String) (rolled : Option RollbackRecord)
        → ((result : VerificationResult)
            → Within R (escalate env c started_at action r e incident result))
        → Within R (after_rollback env c started_at action r e incident result key rolled)
    unfolding after_rollback
    after_rollback-Within key none escalates =
        search
          (
            within_rules,
            k.records.frame,
            k.records.saves_result,
            audit_since-Within env c k.records,
            escalates,
          )
          depth 16
    after_rollback-Within key (some rolled) escalates =
        search
          (
            within_rules,
            k.records.frame,
            k.records.saves_result,
            k.transits,
            audit_since-Within env c k.records,
          )
          depth 24

  roll_back-Within :
      (started_at : Time) (action : CandidateAction) (r : ExecutionRecord) (e : Evaluation)
      (incident : Incident) (result : VerificationResult) (key : String)
      (rollbacker : RollbackConfig)
      → Within R (roll_back env c started_at action r e incident result key rollbacker)
  unfolding roll_back
  roll_back-Within started_at action r e incident result key rollbacker =
      Within-bind k.records.frame _ _ (k.records.audits _ _ _ _ _ _) λ _.
        Within-bind k.records.frame _ _
          (search (within_rules, k.records.frame, rollback_action-Within env rollbacker k.records)
            depth 12)
          λ rolled.
            after_rollback-Within started_at action r e incident result key rolled
              (escalate-Within started_at action r e incident)

  try_rollback-Within :
      (started_at : Time) (action : CandidateAction) (r : ExecutionRecord) (e : Evaluation)
      (incident : Incident) (result : VerificationResult) (d : Option ActionDefinition)
      (rollbacker : Option RollbackConfig)
      → Within R (try_rollback env c started_at action r e incident result d rollbacker)
  unfolding try_rollback
  try_rollback-Within started_at action r e incident result (some d) (some rollbacker) =
      search (within_rules, k.records.frame, roll_back-Within, escalate-Within) depth 8
  try_rollback-Within started_at action r e incident result (some d) none =
      escalate-Within started_at action r e incident result
  try_rollback-Within started_at action r e incident result none rollbacker =
      escalate-Within started_at action r e incident result

  conclude-Within :
      (started_at : Time) (action : CandidateAction) (r : ExecutionRecord) (e : Evaluation)
      (incident : Incident) (result : VerificationResult) (status : VerificationStatus)
      → Within R (conclude env c started_at action r e incident result status)
  unfolding conclude
  conclude-Within started_at action r e incident result success =
      search (within_rules, k.records.frame, k.transits, audit_since-Within env c k.records) depth
        16
  conclude-Within started_at action r e incident result failed_verification =
      search
        (
          within_rules,
          k.records.frame,
          k.records.updates_status,
          k.transits,
          audit_since-Within env c k.records,
          try_rollback-Within,
        )
        depth 24
  conclude-Within started_at action r e incident result inconclusive_verification =
      search
        (
          within_rules,
          k.records.frame,
          k.records.updates_status,
          audit_since-Within env c k.records,
          escalate-Within,
        )
        depth 24

  pub verify_execution-Within :
      (action : CandidateAction) (r : ExecutionRecord) → Within R (verify_execution env c action r)
  unfolding verify_execution
  verify_execution-Within action r =
      search
        (
          within_rules,
          k.records.frame,
          k.records.audits,
          k.records.saves_result,
          evaluate-Within env c k.records.frame,
          conclude-Within,
        )
        depth 32

pub save_result-incidents :
    (result : VerificationResult) (s t : MemoryStore)
    → save_verification_result result s ≡ some t
    → t.incidents ≡ s.incidents
unfolding save_verification_result
save_result-incidents result s t h =
    ground (arith, Option-cases (incident_of_execution result.execution_record_id s.executions))

save_result-actions :
    (result : VerificationResult) (s t : MemoryStore)
    → save_verification_result result s ≡ some t
    → t.actions ≡ s.actions
unfolding save_verification_result
save_result-actions result s t h =
    ground (arith, Option-cases (incident_of_execution result.execution_record_id s.executions))

save_result-executions :
    (result : VerificationResult) (s t : MemoryStore)
    → save_verification_result result s ≡ some t
    → t.executions ≡ s.executions
unfolding save_verification_result
save_result-executions result s t h =
    ground (arith, Option-cases (incident_of_execution result.execution_record_id s.executions))

module _ (r : RollbackRecord) (s t : MemoryStore) (h : save_rollback_record r s ≡ some t) where
  pub save_rollback-incidents : t.incidents ≡ s.incidents
  unfolding save_rollback_record
  save_rollback-incidents =
      ground (arith, Option-cases (incident_of r.candidate_action_id s.actions))

  save_rollback-actions : t.actions ≡ s.actions
  unfolding save_rollback_record
  save_rollback-actions = ground (arith, Option-cases (incident_of r.candidate_action_id s.actions))

  save_rollback-executions : t.executions ≡ s.executions
  unfolding save_rollback_record
  save_rollback-executions =
      ground (arith, Option-cases (incident_of r.candidate_action_id s.actions))

module _ (env : Env) where
  pub dispatch-Within :
      {R : World → World → Type 0}
      → ((w v : World) → v.store ≡ w.store → R w v)
      → (call : Dispatch) → Within R (dispatch env call)
  unfolding dispatch
  dispatch-Within same call = record { at = λ w. same w _ refl }

  Moves-IsRecordFrame : IsRecordFrame env Moves
  Moves-IsRecordFrame = record {
    frame = Moves-frame;
    audits = audit-Moves env;
    updates_status = update_status-Moves;
    saves_result = λ result.
        Within-update Moves-frame _
          λ w s h. same_incidents w.store s (save_result-incidents result w.store s h);
    saves_rollback = λ r.
        Within-update Moves-frame _
          λ w s h. same_incidents w.store s (save_rollback-incidents r w.store s h);
    dispatches = dispatch-Within λ w v e. same_incidents w.store v.store (rw e refl);
  }

  pub Moves-IsVerifyFrame : IsVerifyFrame env Moves
  Moves-IsVerifyFrame = record { records = Moves-IsRecordFrame; transits = transition-Moves env }

  StaysSafe-IsRecordFrame : IsRecordFrame env StaysSafe
  StaysSafe-IsRecordFrame = record {
    frame = StaysSafe-frame;
    audits = λ i n s d from to. Quiet-StaysSafe _ (audit-Quiet env i n s d from to);
    updates_status = status-StaysSafe;
    saves_result = λ result. Within-update StaysSafe-frame _ λ w s h.
        same-IsSafe w.store s (save_result-actions result w.store s h)
          (save_result-executions result w.store s h);
    saves_rollback = λ r. Within-update StaysSafe-frame _ λ w s h.
        same-IsSafe w.store s (save_rollback-actions r w.store s h)
          (save_rollback-executions r w.store s h);
    dispatches = dispatch-Within λ w v e safe. rw e safe;
  }

  pub StaysSafe-IsVerifyFrame : IsVerifyFrame env StaysSafe
  StaysSafe-IsVerifyFrame = record {
    records = StaysSafe-IsRecordFrame;
    transits = transition-StaysSafe env;
  }
