-- ===== src/Execution/Once.antt =====
-- How an execution of internal/execution/service.go moves the incidents between its claim and its end.
use triovexa.Prelude.{ℕ, zero, suc, String, refl, Option, none, some}
use triovexa.Domain.{Time, CandidateAction, Incident, ExecutionRecord, VerificationResult, Details}
use triovexa.Failure.{AdapterError, deadline_exceeded, retryable, permanent}
use triovexa.Storage.Executions.{save_execution_record}
use triovexa.World.{Env, M, Dispatch, update, dispatch}
use triovexa.World.Within.{Within, Within-bind, Within-update}
use triovexa.Transition.Still.{SameIncidents, SameIncidents-frame, still_rules}
use triovexa.Transition.Once.{MovesOnce, then-still}
use triovexa.Approval.Once.{once_rules}
use triovexa.Execution.Checks.{audit_step}
use triovexa.Execution.Retry.{Reply, next_attempt, execute_with_retry}
use triovexa.Execution.Run.{
  Config, Ticket, finish_failed, finish_succeeded, finish, verify_with, run,
}
use triovexa.Execution.Steps.{VerifierKeeps, save_execution-incidents}

save_execution-SameIncidents :
    (r : ExecutionRecord) → Within SameIncidents (update (save_execution_record r))
unfolding SameIncidents
save_execution-SameIncidents r =
    Within-update SameIncidents-frame _ λ w s h. save_execution-incidents r w.store s h

module _ (env : Env) where
  audit_step-SameIncidents :
      (incident_id step_name : String) (details : Details)
      → Within SameIncidents (audit_step env incident_id step_name details)
  unfolding audit_step
  audit_step-SameIncidents incident_id step_name details = search still_rules depth 12

  dispatch-SameIncidents : (call : Dispatch) → Within SameIncidents (dispatch env call)
  unfolding dispatch SameIncidents
  dispatch-SameIncidents call = record { at = λ w. refl }

  next_attempt-SameIncidents :
      (reply : Reply) (again : M Reply)
      → Within SameIncidents again
      → Within SameIncidents (next_attempt reply again)
  next_attempt-SameIncidents (result, none) again h = search still_rules
  next_attempt-SameIncidents (result, some deadline_exceeded) again h = search still_rules
  next_attempt-SameIncidents (result, some (permanent e)) again h = search still_rules
  next_attempt-SameIncidents (result, some (retryable e)) again h = h

  retry-SameIncidents :
      (call : Dispatch) (retries : ℕ) → Within SameIncidents (execute_with_retry env call retries)
  unfolding execute_with_retry
  retry-SameIncidents call zero = dispatch-SameIncidents call
  retry-SameIncidents call (suc retries) =
      Within-bind SameIncidents-frame (dispatch env call) _ (dispatch-SameIncidents call) λ reply.
        next_attempt-SameIncidents reply (execute_with_retry env call retries)
          (retry-SameIncidents call retries)

module _ (env : Env) (c : Config) (keeps : VerifierKeeps SameIncidents c.verifier) where
  verify_with-SameIncidents :
      (verifier : Option (CandidateAction → ExecutionRecord → M VerificationResult))
      → VerifierKeeps SameIncidents verifier
      → (action : CandidateAction) (r : ExecutionRecord)
      → Within SameIncidents (verify_with env c verifier action r)
  unfolding verify_with
  verify_with-SameIncidents none k action r = search still_rules
  verify_with-SameIncidents (some verify) k action r = search (still_rules, k) depth 12

  finish_failed-Once :
      (t : Ticket) (incident : Incident) (r : ExecutionRecord) (e : AdapterError)
      → Within MovesOnce (finish_failed env c t incident r e)
  unfolding finish_failed
  finish_failed-Once t incident r e =
      search (once_rules, then-still, save_execution-SameIncidents, audit_step-SameIncidents env)
        depth 24

  finish_succeeded-Once :
      (t : Ticket) (incident : Incident) (r : ExecutionRecord)
      → Within MovesOnce (finish_succeeded env c t incident r)
  unfolding finish_succeeded
  finish_succeeded-Once t incident r =
      search
        (
          once_rules,
          then-still,
          save_execution-SameIncidents,
          audit_step-SameIncidents env,
          verify_with-SameIncidents c.verifier keeps,
        )
        depth 24

  finish-Once :
      (t : Ticket) (incident : Incident) (r : ExecutionRecord) (at : Time) (reply : Reply)
      → Within MovesOnce (finish env c t incident r at reply)
  finish-Once t incident r at (result, none) = finish_succeeded-Once t incident _
  finish-Once t incident r at (result, some e) = finish_failed-Once t incident _ e

  -- Between its claim and its end an execution creates and loses no incident and moves each by at most
  -- one transition of the table, whether or not it fails, where the verifier, if there is one, leaves
  -- the incidents alone.
  pub run-MovesOnce :
      (t : Ticket) (r : ExecutionRecord) (initiated_by : String)
      → Within MovesOnce (run env c t r initiated_by)
  unfolding run
  run-MovesOnce t r initiated_by =
      search (once_rules, audit_step-SameIncidents env, retry-SameIncidents env, finish-Once) depth
        24
