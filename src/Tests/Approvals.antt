-- ===== src/Tests/Approvals.antt =====
-- Approvals and rejections of the action that awaits one.
use triovexa.Prelude.{
  Bool, true, false, [], ◌∷◌, ◌≡◌, refl, Option, none, some, get, put, trim_space, sort_by,
}
use triovexa.Domain.{
  same_state, same_status, awaiting_approval, action_proposed, approved, awaiting, denied,
  approved_status, ApprovalRecord,
}
use triovexa.Failure.{invalid_transition}
use triovexa.Storage.{MemoryStore, new_memory_store}
use triovexa.Storage.Actions.{get_candidate_action, list_candidate_actions}
use triovexa.Storage.Incidents.{get_incident}
use triovexa.Storage.Approvals.{decide_approval, decide_write}
use triovexa.Storage.Approvals.Atomic.{decide_once}
use triovexa.World.{err}
use triovexa.World.Within.{Within}
use triovexa.World.Ensures.{Ensures}
use triovexa.Policy.Shipped.{shipped}
use triovexa.Transition.Once.{MovesOnce}
use triovexa.Approval.{evaluate_actions, approve_action, reject_action, rejection_record}
use triovexa.Approval.Once.{
  evaluate_actions-MovesOnce, approve_action-MovesOnce, reject_action-MovesOnce,
}
use triovexa.Approval.Verdicts.{Approves, approve_action-Approves}
use triovexa.Approval.Rejection.{reject_last}
use triovexa.Tests.Scenario.{process, incident_in, restart, consent, undecided}

abbrev before : MemoryStore
before = undecided.store

-- The store that a decision leaves.
abbrev left_by : Option (Bool × MemoryStore) → MemoryStore
left_by none = before
left_by (some (b, s)) = s

abbrev granted : MemoryStore
granted = left_by (
    decide_approval 60 "i" consent awaiting approved_status (some awaiting_approval) (some approved)
      before)

grants :
    decide_approval 60 "i" consent awaiting approved_status
      (some awaiting_approval)
      (some approved)
      before
    ≡ some (true, granted)
unfolding decide_approval decide_write get put new_memory_store same_status same_state
grants = refl

abbrev refusal : ApprovalRecord
refusal = rejection_record process "id" "a" "op" "" 1000

abbrev refused : MemoryStore
refused = left_by (decide_approval 1001 "i" refusal awaiting denied none none before)

refuses : decide_approval 1001 "i" refusal awaiting denied none none before ≡ some (true, refused)
unfolding decide_approval decide_write get put new_memory_store same_status
refuses = refl

decide_once_example :
    decide_approval 61 "i" refusal awaiting denied none none granted ≡ some (false, granted)
unfolding same_status
decide_once_example =
    decide_once 60 "i" consent awaiting approved_status (some awaiting_approval) (some approved)
      before granted 61 refusal denied none none refl grants refl

evaluate_actions-MovesOnce_example :
    Within MovesOnce
      (evaluate_actions process shipped (incident_in awaiting_approval) (restart awaiting ∷ []))
evaluate_actions-MovesOnce_example =
    evaluate_actions-MovesOnce process shipped (incident_in awaiting_approval)
      (restart awaiting ∷ [])

approve_action-MovesOnce_example : Within MovesOnce (approve_action process "a" "op" "")
approve_action-MovesOnce_example = approve_action-MovesOnce process "a" "op" ""

reject_action-MovesOnce_example : Within MovesOnce (reject_action process "a" "op" "")
reject_action-MovesOnce_example = reject_action-MovesOnce process "a" "op" ""

approve_action-Approves_example :
    Ensures
      (approve_action process "a" "op" "")
      undecided
      (λ _ w. Approves process "a" "op" "" undecided w)
approve_action-Approves_example = approve_action-Approves process "a" "op" "" undecided

reject_last_example :
    reject_action process "a" "op" "" undecided
    ≡ err
        (invalid_transition awaiting_approval action_proposed)
        (record undecided { store = refused; reads = 2; ids = 1 })
unfolding trim_space get_candidate_action get_incident get put sort_by list_candidate_actions
    decide_approval decide_write same_status
reject_last_example =
    reject_last process "a" "op" "" undecided refused (restart awaiting)
      (incident_in awaiting_approval) refl refl refl refl refl refuses refl refl
