-- ===== src/Storage/Approvals/Atomic.antt =====
-- DecideApproval of internal/storage/memory.go is a compare-and-swap on the action and the incident.
use triovexa.Prelude.{
  Option-cases, inl, inr, String, true, false, ◌≡◌, refl, ap, ◌∙◌, [], ◌∷◌, ◌++◌, Option, some,
  arith, find, update_first, find-update_first, get, get_list, get_list-put, eq_iff,
}
use triovexa.Domain.{
  Time, IncidentState, Incident, CandidateAction, CandidateActionStatus, same_status,
  ApprovalRecord,
}
use triovexa.Storage.Store.{MemoryStore}
use triovexa.Storage.Actions.{has_id, with_status}
use triovexa.Storage.Approvals.{decide_write, decide_approval, state_expected}

-- The parameters of a call: the time, the incident, the record, and the action's two statuses.
module _ (now : Time) (incident_id : String) (record_ : ApprovalRecord)
    (expected next : CandidateActionStatus) (old new : Option IncidentState) (s : MemoryStore) where
  -- A decision that is refused writes nothing.
  pub decide-refused :
      {s' : MemoryStore}
      → decide_approval now incident_id record_ expected next old new s ≡ some (false, s')
      → s' ≡ s
  unfolding decide_approval
  decide-refused h = ground arith

  -- What a decision that is taken has seen, and what it leaves.
  pub record Decided (s' : MemoryStore) : Type 0 where
    pub action : CandidateAction
    pub incident : Incident
    pub found :
        find (has_id record_.candidate_action_id) (get_list incident_id s.actions) ≡ some action
    pub was_expected : same_status action.status expected ≡ true
    pub incident_found : get incident_id s.incidents ≡ some incident
    pub incident_expected : state_expected old incident.state ≡ true
    pub written : s' ≡ decide_write now incident_id record_ next new s

  pub decide-Decided :
      (s' : MemoryStore)
      → decide_approval now incident_id record_ expected next old new s ≡ some (true, s')
      → Decided s'
  unfolding decide_approval
  decide-Decided s' h =
      elim (Option-cases
        (find (has_id record_.candidate_action_id) (get_list incident_id s.actions))) [
          | inl e ↦ absurd (ground arith)
          | inr (a, e) ↦ elim (Option-cases (get incident_id s.incidents)) [
            | inl e' ↦ absurd (ground arith)
            | inr (i, e') ↦ record {
              action = a;
              incident = i;
              found = e;
              was_expected = ground arith;
              incident_found = e';
              incident_expected = ground arith;
              written = ground arith;
            }
          ]
        ]

  -- What a reader of the store sees after a decision that was taken.
  pub record Effect (s' : MemoryStore) : Type 0 where
    pub before : CandidateAction
    pub was :
        find (has_id record_.candidate_action_id) (get_list incident_id s.actions) ≡ some before
    pub is :
        find (has_id record_.candidate_action_id) (get_list incident_id s'.actions)
        ≡ some (with_status next before)
    pub recorded :
        get_list record_.candidate_action_id s'.approvals
        ≡ get_list record_.candidate_action_id s.approvals ++ record_ ∷ []
    pub not_executed : s'.executions ≡ s.executions

  actions-decide_write :
      get_list incident_id (decide_write now incident_id record_ next new s).actions
      ≡ update_first
          (has_id record_.candidate_action_id)
          (with_status next)
          (get_list incident_id s.actions)
  unfolding decide_write
  actions-decide_write = ground (
    arith,
    eq_iff incident_id incident_id,
    get_list-put incident_id incident_id
        (update_first (has_id record_.candidate_action_id) (with_status next)
          (get_list incident_id s.actions))
        s.actions,
    Option-cases new,
    Option-cases (get incident_id s.incidents),
  )

  approvals-decide_write :
      get_list record_.candidate_action_id
        (decide_write now incident_id record_ next new s).approvals
      ≡ get_list record_.candidate_action_id s.approvals ++ record_ ∷ []
  unfolding decide_write
  approvals-decide_write = ground (
    arith,
    eq_iff record_.candidate_action_id record_.candidate_action_id,
    get_list-put record_.candidate_action_id record_.candidate_action_id
        (get_list record_.candidate_action_id s.approvals ++ record_ ∷ []) s.approvals,
  )

  executions-decide_write :
      (decide_write now incident_id record_ next new s).executions ≡ s.executions
  unfolding decide_write
  executions-decide_write = ground arith

  -- A decision that is taken gives the action its next status, appends the record to the action's
  -- approvals and leaves the executions alone.
  pub decide-Effect :
      (s' : MemoryStore)
      → decide_approval now incident_id record_ expected next old new s ≡ some (true, s')
      → Effect s'
  decide-Effect s' h =
      let d = decide-Decided s' h in
      record {
        before = d.action;
        was = d.found;
        is =
            ap
              (λ (t : MemoryStore).
                find (has_id record_.candidate_action_id) (get_list incident_id t.actions))
              d.written
            ∙ ap (find (has_id record_.candidate_action_id)) actions-decide_write
            ∙ find-update_first (has_id record_.candidate_action_id) (with_status next)
                (get_list incident_id s.actions) d.action (λ y. refl) d.found;
        recorded = rw d.written approvals-decide_write;
        not_executed = rw d.written executions-decide_write;
      }

  -- An action is decided once: after one decision away from the expected status, every other
  -- decision about that action that expects that status is refused and writes nothing.
  pub decide_once :
      (s' : MemoryStore) (later : Time) (other : ApprovalRecord) (target : CandidateActionStatus)
      (old' new' : Option IncidentState)
      → same_status next expected ≡ false
      → decide_approval now incident_id record_ expected next old new s ≡ some (true, s')
      → other.candidate_action_id ≡ record_.candidate_action_id
      → decide_approval later incident_id other expected target old' new' s' ≡ some (false, s')
  unfolding decide_approval
  decide_once s' later other target old' new' moved h same =
      rw same (rw ((decide-Effect s' h).is, decide_approval) (ground arith))
