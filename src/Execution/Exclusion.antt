-- ===== src/Execution/Exclusion.antt =====
-- ExecuteAction of internal/execution/service.go keeps each target to one started execution.
use triovexa.Prelude.{
  ℕ, zero, suc, String, List, ◌≡◌, refl, Bool, false, Option, Option-cases, none, some, inl, inr,
  arith, get, last,
}
use triovexa.Domain.{
  Time, CandidateAction, CandidateActionStatus, Incident, IncidentState, ExecutionRecord,
  VerificationResult, Details, is_started,
}
use triovexa.Failure.{
  AdapterError, deadline_exceeded, retryable, permanent, no_longer_executable, lost_claim,
}
use triovexa.Storage.{MemoryStore}
use triovexa.Storage.Incidents.{compare_and_swap_incident_state}
use triovexa.Storage.Actions.{update_candidate_action_status}
use triovexa.Storage.Executions.{save_execution_record, claim_execution}
use triovexa.Storage.Executions.Safe.{IsSafe, save-IsSafe, status-IsSafe, claim-IsSafe}
use triovexa.World.{World, Env, M, Dispatch, update, attempt, dispatch}
use triovexa.World.Within.{
  Within, IsFrame, within_rules, Within-bind, Within-update, Within-attempt, Within-modify,
  Within-raise,
}
use triovexa.World.Quiet.{Quiet}
use triovexa.Transition.{transition_incident_state}
use triovexa.Execution.Authorize.{audit_step-Quiet, authorize-Quiet}
use triovexa.Execution.Checks.{audit_step}
use triovexa.Execution.Retry.{Reply, next_attempt, execute_with_retry}
use triovexa.Execution.Run.{
  Config, Ticket, finish_failed, finish_succeeded, finish, verify_with, run, claim, claim_lost,
  started_record, authorize, execute_action,
}
use triovexa.Execution.Steps.{VerifierKeeps}

-- A safe store stays safe.
abbrev pub StaysSafe : World → World → Type 0
StaysSafe v w = IsSafe v.store → IsSafe w.store

pub StaysSafe-frame : IsFrame StaysSafe
StaysSafe-frame = record {
  stay = λ w h. h;
  chain = λ u v w h k x. k (h x);
  skip_reads = λ w n later h. h;
  skip_ids = λ w n h. h;
}

pub same-IsSafe :
    (s t : MemoryStore) → t.actions ≡ s.actions → t.executions ≡ s.executions → IsSafe s → IsSafe t
unfolding triovexa.Storage.Executions.Exclusive.started_on
same-IsSafe s t a e safe = record {
  distinct = λ j. rw a (safe.distinct j);
  exclusive = λ target. rw (a, e) (safe.exclusive target);
}

pub Quiet-StaysSafe {ℓ} : {A : Type ℓ} (m : M A) → Within Quiet m → Within StaysSafe m
Quiet-StaysSafe m q = record {
  at = λ w. same-IsSafe w.store _ (q.at w).actions (q.at w).executions;
}

pub swap-StaysSafe :
    (at : Time) (id : String) (from to : IncidentState)
    → Within StaysSafe (attempt (compare_and_swap_incident_state at id from to))
swap-StaysSafe at id from to =
    Within-attempt StaysSafe-frame _
      λ w b s h. same-IsSafe w.store s (actions w.store b s h) (executions w.store b s h)
  where
    actions :
        (s : MemoryStore) (b : Bool) (t : MemoryStore)
        → compare_and_swap_incident_state at id from to s ≡ some (b, t)
        → t.actions ≡ s.actions
    actions s b t h =
        unfold compare_and_swap_incident_state in ground (arith, Option-cases (get id s.incidents))

    executions :
        (s : MemoryStore) (b : Bool) (t : MemoryStore)
        → compare_and_swap_incident_state at id from to s ≡ some (b, t)
        → t.executions ≡ s.executions
    executions s b t h =
        unfold compare_and_swap_incident_state in ground (arith, Option-cases (get id s.incidents))

pub status-StaysSafe :
    (id : String) (status : CandidateActionStatus)
    → Within StaysSafe (update (update_candidate_action_status id status))
status-StaysSafe id status =
    Within-update StaysSafe-frame _ λ w s h. status-IsSafe id status w.store s h

pub save-StaysSafe :
    (r : ExecutionRecord)
    → is_started r.status ≡ false
    → Within StaysSafe (update (save_execution_record r))
save-StaysSafe r idle = Within-update StaysSafe-frame _ λ w s h. save-IsSafe r w.store s idle h

pub ruleset safe_rules =
    (within_rules, StaysSafe-frame, status-StaysSafe, save-StaysSafe, swap-StaysSafe)

pub transition-StaysSafe :
    (env : Env) (incident : Incident) (next : IncidentState)
    → Within StaysSafe (transition_incident_state env incident next)
unfolding transition_incident_state
transition-StaysSafe env incident next = search safe_rules depth 24

module _ (env : Env) where
  dispatch-StaysSafe : (call : Dispatch) → Within StaysSafe (dispatch env call)
  unfolding dispatch
  dispatch-StaysSafe call = record { at = λ w h. h }

  next_attempt-StaysSafe :
      (reply : Reply) (again : M Reply)
      → Within StaysSafe again
      → Within StaysSafe (next_attempt reply again)
  next_attempt-StaysSafe (result, none) again h = search safe_rules
  next_attempt-StaysSafe (result, some deadline_exceeded) again h = search safe_rules
  next_attempt-StaysSafe (result, some (permanent e)) again h = search safe_rules
  next_attempt-StaysSafe (result, some (retryable e)) again h = h

  retry-StaysSafe :
      (call : Dispatch) (retries : ℕ) → Within StaysSafe (execute_with_retry env call retries)
  unfolding execute_with_retry
  retry-StaysSafe call zero = dispatch-StaysSafe call
  retry-StaysSafe call (suc retries) =
      Within-bind StaysSafe-frame (dispatch env call) _ (dispatch-StaysSafe call) λ reply.
        next_attempt-StaysSafe reply (execute_with_retry env call retries)
          (retry-StaysSafe call retries)

module _ (env : Env) (c : Config) where
  pub step-StaysSafe :
      (incident_id step_name : String) (details : Details)
      → Within StaysSafe (audit_step env incident_id step_name details)
  step-StaysSafe incident_id step_name details =
      Quiet-StaysSafe _ (audit_step-Quiet env c incident_id step_name details)

  claim_lost-StaysSafe :
      (rs : List ExecutionRecord) → Within StaysSafe (claim_lost env c {A = Unit {0}} rs)
  unfolding claim_lost
  claim_lost-StaysSafe rs = elim (Option-cases (last rs)) [
    | inl n ↦ rw (n, claim_lost) (Within-raise StaysSafe-frame no_longer_executable)
    | inr (r, p) ↦ rw (p, claim_lost) (Within-raise StaysSafe-frame (lost_claim r))
  ]

  claim_attempt-StaysSafe :
      (at from to : Time) (t : Ticket) (id initiated_by : String)
      → Within StaysSafe (
          attempt (
            claim_execution at t.incident.id t.action.id
              (started_record env c id t initiated_by from to)))
  claim_attempt-StaysSafe at from to t id initiated_by = Within-attempt StaysSafe-frame _ λ w b s h.
      claim-IsSafe at t.incident.id t.action.id (started_record env c id t initiated_by from to) b
        w.store s refl h

  claim-StaysSafe :
      (t : Ticket) (initiated_by : String) → Within StaysSafe (claim env c t initiated_by)
  unfolding claim
  claim-StaysSafe t initiated_by =
      search (safe_rules, claim_attempt-StaysSafe, claim_lost-StaysSafe) depth 32

module _ (env : Env) (c : Config) (keeps : VerifierKeeps StaysSafe c.verifier) where
  verify_with-StaysSafe :
      (verifier : Option (CandidateAction → ExecutionRecord → M VerificationResult))
      → VerifierKeeps StaysSafe verifier
      → (action : CandidateAction) (r : ExecutionRecord)
      → Within StaysSafe (verify_with env c verifier action r)
  unfolding verify_with
  verify_with-StaysSafe none k action r = search safe_rules
  verify_with-StaysSafe (some verify) k action r = search (safe_rules, k) depth 12

  finish_failed-StaysSafe :
      (t : Ticket) (incident : Incident) (r : ExecutionRecord) (e : AdapterError)
      → is_started r.status ≡ false
      → Within StaysSafe (finish_failed env c t incident r e)
  unfolding finish_failed
  finish_failed-StaysSafe t incident r e idle =
      search (safe_rules, idle, transition-StaysSafe env, step-StaysSafe env c) depth 24

  finish_succeeded-StaysSafe :
      (t : Ticket) (incident : Incident) (r : ExecutionRecord)
      → is_started r.status ≡ false
      → Within StaysSafe (finish_succeeded env c t incident r)
  unfolding finish_succeeded
  finish_succeeded-StaysSafe t incident r idle =
      search
        (
          safe_rules,
          idle,
          transition-StaysSafe env,
          step-StaysSafe env c,
          verify_with-StaysSafe c.verifier keeps,
        )
        depth 24

  finish-StaysSafe :
      (t : Ticket) (incident : Incident) (r : ExecutionRecord) (at : Time) (reply : Reply)
      → Within StaysSafe (finish env c t incident r at reply)
  finish-StaysSafe t incident r at (result, none) = finish_succeeded-StaysSafe t incident _ refl
  finish-StaysSafe t incident r at (result, some deadline_exceeded) =
      finish_failed-StaysSafe t incident _ _ refl
  finish-StaysSafe t incident r at (result, some (retryable e)) =
      finish_failed-StaysSafe t incident _ _ refl
  finish-StaysSafe t incident r at (result, some (permanent e)) =
      finish_failed-StaysSafe t incident _ _ refl

  run-StaysSafe :
      (t : Ticket) (r : ExecutionRecord) (initiated_by : String)
      → Within StaysSafe (run env c t r initiated_by)
  unfolding run
  run-StaysSafe t r initiated_by =
      search (safe_rules, step-StaysSafe env c, retry-StaysSafe env, finish-StaysSafe) depth 24

  authorize-StaysSafe :
      (action_id initiated_by : String) → Within StaysSafe (authorize env c action_id initiated_by)
  authorize-StaysSafe action_id initiated_by =
      Quiet-StaysSafe (authorize env c action_id initiated_by)
        (authorize-Quiet env c action_id initiated_by)

  -- ExecuteAction keeps the ids of each incident's actions distinct and each target to one started
  -- execution, whether or not it fails, where the verifier does.
  pub execute_action-StaysSafe :
      (action_id initiated_by : String)
      → Within StaysSafe (execute_action env c action_id initiated_by)
  unfolding execute_action
  execute_action-StaysSafe action_id initiated_by =
      search (safe_rules, authorize-StaysSafe, claim-StaysSafe env c, run-StaysSafe) depth 12
