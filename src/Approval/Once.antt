-- ===== src/Approval/Once.antt =====
-- Each operation of internal/approval/service.go makes at most one transition of the table.
use triovexa.Prelude.{
  String, true, false, Bool, ◌≡◌, ◌||◌, ap, ◌∙◌, inl, inr, Bool-cases, some, none, List, [], ◌∷◌,
}
use triovexa.Domain.{
  Time, Incident, IncidentState, same_state, same_state_iff, approved, CandidateAction,
  CandidateActionStatus, ApprovalRecord, PolicyDecision, awaiting, approved_status, denied,
}
use triovexa.Failure.{cannot_be_approved}
use triovexa.Storage.{MemoryStore}
use triovexa.Storage.Actions.{save_policy_decisions}
use triovexa.Storage.Approvals.{decide_approval}
use triovexa.Storage.Approvals.Atomic.{decide-refused, decide-Decided}
use triovexa.StateMachine.{can_transition}
use triovexa.World.{Env, attempt, modify}
use triovexa.World.Within.{Within, Within-bind, Within-modify, Within-pure, Within-attempt}
use triovexa.Transition.Still.{SameIncidents, SameIncidents-frame, still_rules}
use triovexa.Transition.Once.{
  StepsTo, stays, moves, MovesOnce, MapsOnce, same-MapsOnce, put-MapsOnce, Still-Once, attempt-Once,
  if-Once, still-then, then-still, guard-Once, transition-Once,
}
use triovexa.Policy.{Evaluator, is_empty}
use triovexa.Approval.{
  filter_evaluable_actions, refresh_incident_state, decide_one, decide_all, evaluate_filtered,
  evaluate_actions, store_approval, approve_action, reject_action,
}
use triovexa.Approval.Moves.{
  save_policy-incidents, decide_write-incidents_none, decide_write-incidents_some,
}

pub ruleset once_rules = (still_rules, still-then, transition-Once)

save_policy-SameIncidents :
    (ds : List PolicyDecision) → Within SameIncidents (modify (save_policy_decisions ds))
unfolding SameIncidents
save_policy-SameIncidents ds =
    Within-modify SameIncidents-frame _ λ w. save_policy-incidents ds w.store

module _ (env : Env) where
  refresh-Once : (incident : Incident) → Within MovesOnce (refresh_incident_state env incident)
  unfolding refresh_incident_state
  refresh-Once incident = search once_rules depth 10

  module _ (e : Evaluator) where
    decide_one-SameIncidents :
        (environment : String) (action : CandidateAction)
        → Within SameIncidents (decide_one env e environment action)
    unfolding decide_one
    decide_one-SameIncidents environment action = search still_rules depth 16

    decide_all-SameIncidents :
        (environment : String) (actions : List CandidateAction)
        → Within SameIncidents (decide_all env e environment actions)
    unfolding decide_all
    decide_all-SameIncidents environment [] = search still_rules
    decide_all-SameIncidents environment (a ∷ actions) =
        Within-bind SameIncidents-frame (decide_one env e environment a) _
          (decide_one-SameIncidents environment a)
          λ d.
            Within-bind SameIncidents-frame (decide_all env e environment actions) _
              (decide_all-SameIncidents environment actions)
              λ ds. Within-pure SameIncidents-frame (d ∷ ds)

    evaluate_filtered-Once :
        (incident : Incident) (actions : List CandidateAction)
        → Within MovesOnce (evaluate_filtered env e incident actions)
    unfolding evaluate_filtered
    evaluate_filtered-Once incident actions =
        search (once_rules, decide_all-SameIncidents, save_policy-SameIncidents, refresh-Once) depth
          32

    -- Judging an incident's actions creates and loses no incident, and moves each by at most one
    -- transition of the table, whether or not it fails.
    pub evaluate_actions-MovesOnce :
        (incident : Incident) (actions : List CandidateAction)
        → Within MovesOnce (evaluate_actions env e incident actions)
    unfolding evaluate_actions
    evaluate_actions-MovesOnce incident actions =
        if-Once (is_empty (filter_evaluable_actions actions)) _ _
          (λ _. Still-Once _ (search still_rules))
          λ _. evaluate_filtered-Once incident (filter_evaluable_actions actions)

-- A decision moves its incident as the caller says, from the state that the caller expects.
module _ (at : Time) (incident_id : String) (record_ : ApprovalRecord)
    (expected target : CandidateActionStatus) (s : MemoryStore) where
  reject-same :
      (b : Bool) (t : MemoryStore)
      → decide_approval at incident_id record_ expected target none none s ≡ some (b, t)
      → t.incidents ≡ s.incidents
  reject-same false t h =
      ap (λ (u : MemoryStore). u.incidents)
        (decide-refused at incident_id record_ expected target none none s h)
  reject-same true t h =
      ap (λ (u : MemoryStore). u.incidents)
        (decide-Decided at incident_id record_ expected target none none s t h).written
      ∙ decide_write-incidents_none at incident_id record_ expected target s

  approve-MapsOnce :
      (from to : IncidentState) (b : Bool) (t : MemoryStore)
      → StepsTo from to
      → decide_approval at incident_id record_ expected target (some from) (some to) s ≡ some (b, t)
      → MapsOnce s.incidents t.incidents
  approve-MapsOnce from to false t r h = same-MapsOnce s.incidents t.incidents (
      ap (λ (u : MemoryStore). u.incidents)
        (decide-refused at incident_id record_ expected target (some from) (some to) s h))
  approve-MapsOnce from to true t r h =
      let d = decide-Decided at incident_id record_ expected target (some from) (some to) s t h in
      put-MapsOnce at incident_id d.incident to s.incidents t.incidents d.incident_found
        (rw ((same_state_iff d.incident.state from).0 d.incident_expected) r)
        (ap (λ (u : MemoryStore). u.incidents) d.written
          ∙ decide_write-incidents_some at incident_id record_ expected target s to d.incident
              d.incident_found)

may_approve :
    (from : IncidentState)
    → (same_state from approved || can_transition from approved) ≡ true
    → StepsTo from approved
may_approve from h = elim (Bool-cases (same_state from approved)) [
  | inl q ↦ rw ((same_state_iff from approved).0 q) stays
  | inr q ↦ moves (rw q at h)
]

approve_attempt-Once :
    (at : Time) (incident_id : String) (record_ : ApprovalRecord) (from : IncidentState)
    → StepsTo from approved
    → Within MovesOnce (
        attempt (
          decide_approval at incident_id record_ awaiting approved_status
            (some from)
            (some approved)))
approve_attempt-Once at incident_id record_ from h = attempt-Once _ λ w b s e.
    approve-MapsOnce at incident_id record_ awaiting approved_status w.store from approved b s h e

reject_attempt-SameIncidents :
    (at : Time) (incident_id : String) (record_ : ApprovalRecord)
    → Within SameIncidents
        (attempt (decide_approval at incident_id record_ awaiting denied none none))
unfolding SameIncidents
reject_attempt-SameIncidents at incident_id record_ =
    Within-attempt SameIncidents-frame _
      λ w b s e. reject-same at incident_id record_ awaiting denied w.store b s e

module _ (env : Env) where
  store_approval-Once :
      (incident_id : String) (incident : Incident) (record_ : ApprovalRecord)
      → Within MovesOnce (store_approval env incident_id incident record_)
  unfolding store_approval
  store_approval-Once incident_id incident record_ = guard-Once _ cannot_be_approved _ λ h.
      still-then _ _ (search still_rules) λ at.
        then-still _ _
          (approve_attempt-Once at incident_id record_ incident.state
            (may_approve incident.state h))
          λ b. search still_rules depth 16

  -- An approval creates and loses no incident, and moves each by at most one transition of the table,
  -- whether or not it fails.
  pub approve_action-MovesOnce :
      (action_id approved_by note : String)
      → Within MovesOnce (approve_action env action_id approved_by note)
  unfolding approve_action
  approve_action-MovesOnce action_id approved_by note =
      search (once_rules, store_approval-Once) depth 24

  -- A rejection creates and loses no incident, and moves each by at most one transition of the table,
  -- whether or not it fails.
  pub reject_action-MovesOnce :
      (action_id rejected_by note : String)
      → Within MovesOnce (reject_action env action_id rejected_by note)
  unfolding reject_action
  reject_action-MovesOnce action_id rejected_by note =
      search (once_rules, then-still, refresh-Once env, reject_attempt-SameIncidents) depth 32
