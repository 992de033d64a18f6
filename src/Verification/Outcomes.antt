-- ===== src/Verification/Outcomes.antt =====
-- Where internal/verification/service.go leaves the incident, by the result of the verification.
use triovexa.Prelude.{
  String, Bool, true, false, Option, none, some, ◌≡◌, refl, sym, ap, ◌∙◌, subst, get,
}
use triovexa.Domain.{
  Time, Details, Incident, IncidentState, resolved, failed_remediation, rolled_back, escalated,
  CandidateAction, Details, ExecutionRecord, VerificationStatus, success, failed_verification,
  inconclusive_verification, VerificationResult, RollbackRecord,
}
use triovexa.Storage.Incidents.{get_incident}
use triovexa.Storage.Outcomes.{save_verification_result}
use triovexa.Catalog.{ActionDefinition}
use triovexa.World.{World, Env, M, ◌>>=◌, ◌>>◌, pure, update, now, new_id}
use triovexa.World.Within.{Within, Within-caught}
use triovexa.World.Ensures.{
  Ensures, pure-Ensures, bind-Ensures, if-Ensures, fetch-Ensures, now-then, new_id-then,
  Within-Ensures, weaken-Ensures,
}
use triovexa.Transition.{transition_incident_state}
use triovexa.Execution.Rollback.{RollbackConfig}
use triovexa.Verification.Evaluate.{VerificationConfig, Evaluation}
use triovexa.Verification.Conclude.{
  result_of, audit_since, escalate, after_rollback, roll_back, try_rollback, conclude,
  verify_execution,
}
use triovexa.Transition.Still.{SameIncidents, SameIncidents-frame}
use triovexa.Verification.Places.{
  SameIncidents-IsRecordFrame, InState, same-InState, MovedTo, transition-MovedTo,
}
use triovexa.Verification.Frames.{
  IsRecordFrame, rollback_action-Within, evaluate-Within, audit_since-Within,
}

-- A step that leaves the incidents alone, and what follows.
keep-then :
    {A B : Type 0} {Q : B → World → Type 0} {w : World} {id : String} {state : IncidentState}
    (m : M A) (k : A → M B)
    → Within SameIncidents m
    → InState id state w
    → ((a : A) (v : World) → InState id state v → Ensures (k a) v Q)
    → Ensures (m >>= k) w Q
keep-then m k same h q =
    bind-Ensures m k
      (Within-Ensures SameIncidents m same λ a v kept. q a v (same-InState _ _ _ v kept h))

-- The states in which a verification may leave its incident.
abbrev pub ends_in : VerificationStatus → IncidentState → Bool
ends_in success resolved = true
ends_in failed_verification rolled_back = true
ends_in failed_verification escalated = true
ends_in inconclusive_verification escalated = true
ends_in _ _ = false

-- The stored incident is in a state that fits the result.
pub record Concluded (id : String) (result : VerificationResult) (w : World) : Type 0 where
  pub state : IncidentState
  pub in_state : InState id state w
  pub fits : ends_in result.status state ≡ true

at_id :
    (j i : String) (s t : IncidentState) (w : World) → j ≡ i → t ≡ s → InState i s w → InState j t w
at_id j i s t w e f h = subst (λ x. InState x t w) (sym e) (subst (λ x. InState i x w) (sym f) h)

module _ (env : Env) (c : VerificationConfig) (started_at : Time) (action : CandidateAction)
    (r : ExecutionRecord) (e : Evaluation) where
  k : IsRecordFrame env SameIncidents
  k = SameIncidents-IsRecordFrame env

  audit_then :
      {B : Type 0} {Q : B → World → Type 0} {w : World} {id : String} {state : IncidentState}
      (step_name : String) (details : Details) (k : M B)
      → InState id state w
      → ((v : World) → InState id state v → Ensures k v Q)
      → Ensures (audit_since env c started_at action step_name details >> k) w Q
  audit_then step_name details next h q =
      keep-then _ _ (audit_since-Within env c k started_at action step_name details) h λ a. q

  -- A transition, an entry in the audit trail, and the result.
  move_and_return :
      (incident : Incident) (result : VerificationResult) (to : IncidentState) (step_name : String)
      (details : Details) (w : World)
      → InState incident.id incident.state w
      → ends_in result.status to ≡ true
      → Ensures
          (transition_incident_state env incident to >>= λ _.
            audit_since env c started_at action step_name details >> pure result)
          w
          (Concluded incident.id)
  move_and_return incident result to step_name details w h fits = bind-Ensures _ _ (
      weaken-Ensures (MovedTo incident to) _ (transition-MovedTo env incident to w h) λ i v moved.
        audit_then step_name details _ moved.in_state
          λ u there. pure-Ensures result (record { state = to; in_state = there; fits = fits }))

  escalate-Concluded :
      (incident : Incident) (result : VerificationResult) (w : World)
      → InState incident.id incident.state w
      → ends_in result.status escalated ≡ true
      → Ensures (escalate env c started_at action r e incident result) w (Concluded incident.id)
  unfolding escalate
  escalate-Concluded incident result w h fits =
      move_and_return incident result escalated _ _ w h fits

  after_rollback-Concluded :
      (incident : Incident) (result : VerificationResult) (key : String)
      (rolled : Option RollbackRecord) (w : World)
      → InState incident.id incident.state w
      → result.status ≡ failed_verification
      → Ensures
          (after_rollback env c started_at action r e incident result key rolled)
          w
          (Concluded incident.id)
  unfolding after_rollback
  after_rollback-Concluded incident result key none w h failure =
      keep-then _ _ (k.saves_result _) h λ _ v there.
        audit_then _ _ _ there λ u here. escalate-Concluded incident _ u here (rw failure refl)
  after_rollback-Concluded incident result key (some rolled) w h failure =
      keep-then _ _ (k.saves_result _) h
        λ _ v there. move_and_return incident _ rolled_back _ _ v there (rw failure refl)

  roll_back-Concluded :
      (incident : Incident) (result : VerificationResult) (key : String)
      (rollbacker : RollbackConfig) (w : World)
      → InState incident.id incident.state w
      → result.status ≡ failed_verification
      → Ensures
          (roll_back env c started_at action r e incident result key rollbacker)
          w
          (Concluded incident.id)
  unfolding roll_back
  roll_back-Concluded incident result key rollbacker w h failure =
      keep-then _ _ (k.audits _ _ _ _ _ _) h λ _ v there.
        keep-then _ _
          (Within-caught SameIncidents-frame _ (rollback_action-Within env rollbacker k action _ _))
          there λ rolled u here. after_rollback-Concluded incident result key rolled u here failure

  try_rollback-Concluded :
      (incident : Incident) (result : VerificationResult) (d : Option ActionDefinition)
      (rollbacker : Option RollbackConfig) (w : World)
      → InState incident.id incident.state w
      → result.status ≡ failed_verification
      → Ensures
          (try_rollback env c started_at action r e incident result d rollbacker)
          w
          (Concluded incident.id)
  unfolding try_rollback
  try_rollback-Concluded incident result (some d) (some rollbacker) w h failure =
      if-Ensures _ _ _
        (λ _. roll_back-Concluded incident result d.rollback_action_key rollbacker w h failure)
        λ _. escalate-Concluded incident result w h (rw failure refl)
  try_rollback-Concluded incident result (some d) none w h failure =
      escalate-Concluded incident result w h (rw failure refl)
  try_rollback-Concluded incident result none rollbacker w h failure =
      escalate-Concluded incident result w h (rw failure refl)

  conclude-Concluded :
      (incident : Incident) (result : VerificationResult) (status : VerificationStatus) (w : World)
      → InState incident.id incident.state w
      → result.status ≡ status
      → Ensures
          (conclude env c started_at action r e incident result status)
          w
          (Concluded incident.id)
  unfolding conclude
  conclude-Concluded incident result success w h same =
      move_and_return incident result resolved _ _ w h (rw same refl)
  conclude-Concluded incident result failed_verification w h same =
      keep-then _ _ (k.updates_status _ _) h λ _ v there. bind-Ensures _ _ (
        weaken-Ensures (MovedTo incident failed_remediation) _
          (transition-MovedTo env incident failed_remediation v there)
          λ moved u to. audit_then _ _ _ to.in_state λ t now_there.
            weaken-Ensures (Concluded moved.id) _
              (try_rollback-Concluded moved result _ c.rollbacker t
                (at_id moved.id incident.id failed_remediation moved.state t to.same_id to.state_is
                  now_there)
                same)
              λ result_ z done. record {
                state = done.state;
                in_state = subst (λ i. InState i done.state z) to.same_id done.in_state;
                fits = done.fits;
              })
  conclude-Concluded incident result inconclusive_verification w h same =
      keep-then _ _ (k.updates_status _ _) h λ _ v there.
        audit_then _ _ _ there λ u here. escalate-Concluded incident result u here (rw same refl)

module _ (env : Env) (c : VerificationConfig) where
  own :
      {id : String} {incident : Incident} (w v u : World)
      → SameIncidents w v
      → SameIncidents v u
      → get_incident id u.store ≡ some incident
      → ((id : String) (i : Incident) → get_incident id w.store ≡ some i → i.id ≡ id)
      → incident.id ≡ id
  unfolding SameIncidents get_incident
  own w v u same again found keyed = keyed _ _ (ap (get _) (sym (again ∙ same)) ∙ found)

  saved :
      (started_at : Time) (action : CandidateAction) (r : ExecutionRecord) (e : Evaluation)
      (incident : Incident) (w : World)
      → incident.id ≡ action.incident_id
      → get_incident action.incident_id w.store ≡ some incident
      → Ensures
          (new_id env >>= λ id. now env >>= λ created_at.
            update (save_verification_result (result_of env c id created_at incident action r e))
            >> conclude env c started_at action r e incident
                (result_of env c id created_at incident action r e)
                e.status)
          w
          (Concluded action.incident_id)
  saved started_at action r e incident w same found = new_id-then env _ (
      now-then env _ (
        keep-then _ _ ((SameIncidents-IsRecordFrame env).saves_result _)
          (at_id incident.id action.incident_id incident.state incident.state _ same refl
            (record { incident = incident; stored = found; state_is = refl }))
          λ _ v there.
            weaken-Ensures (Concluded incident.id) _
              (conclude-Concluded env c started_at action r e incident _ e.status v there refl)
              λ result z done. record {
                state = done.state;
                in_state = subst (λ i. InState i done.state z) same done.in_state;
                fits = done.fits;
              }))

  -- If a verification returns, where every stored incident is under its own id, then the stored incident is
  -- resolved where the result is a success, rolled back or escalated where it is a failure, and escalated
  -- where it is inconclusive.
  pub verify_execution-Concluded :
      (action : CandidateAction) (r : ExecutionRecord) (w : World)
      → ((id : String) (i : Incident) → get_incident id w.store ≡ some i → i.id ≡ id)
      → Ensures (verify_execution env c action r) w (Concluded action.incident_id)
  unfolding verify_execution
  verify_execution-Concluded action r w keyed = now-then env _ (
      bind-Ensures _ _ (
        Within-Ensures SameIncidents _ ((SameIncidents-IsRecordFrame env).audits _ _ _ _ _ _)
          λ _ v same. bind-Ensures _ _ (
            Within-Ensures SameIncidents _ (evaluate-Within env c SameIncidents-frame action)
              λ e u again. bind-Ensures _ _ (
                fetch-Ensures _ _ λ incident found.
                  saved (env.clock w.reads) action r e incident u (own _ v u same again found keyed)
                    found))))
