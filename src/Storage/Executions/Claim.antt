-- ===== src/Storage/Executions/Claim.antt =====
-- ClaimExecution of internal/storage/memory.go: what a claim has seen and what it writes, and that
-- an action is claimed once.
use triovexa.Prelude.{
  Option-cases, inl, inr, String, true, false, ◌≡◌, ap, ◌∙◌, List, [], ◌∷◌, ◌++◌, some, refl, arith,
  find, any, any-append, update_first, Map, get, put, get_list, get-put_self, ◌≢◌, get_list-put,
  eq_iff,
}
use triovexa.Domain.{
  Time, Incident, CandidateAction, CandidateActionStatus, is_executable_status, executing,
  executing_action, ExecutionRecord,
}
use triovexa.Storage.Store.{MemoryStore}
use triovexa.Storage.Incidents.{with_state}
use triovexa.Storage.Actions.{has_id, with_status, update_status_in, update_candidate_action_status}
use triovexa.Storage.Executions.{claim_execution, is_for, target_busy}

executions-update_status :
    (id : String) (status : CandidateActionStatus) (s s' : MemoryStore)
    → update_candidate_action_status id status s ≡ some s'
    → s'.executions ≡ s.executions
unfolding update_candidate_action_status
executions-update_status id status s s' h =
    ground (arith, Option-cases (update_status_in id status s.actions))

module _ (now : Time) (incident_id action_id : String) (record_ : ExecutionRecord)
    (s : MemoryStore) where
  -- A claim that is refused writes nothing.
  pub claim-refused :
      (s' : MemoryStore)
      → claim_execution now incident_id action_id record_ s ≡ some (false, s')
      → s' ≡ s
  unfolding claim_execution
  claim-refused s' h = ground arith

  -- What a claim that succeeds has seen, and what it writes.
  pub record Claimed (s' : MemoryStore) : Type 0 where
    pub action : CandidateAction
    pub incident : Incident
    pub found : find (has_id action_id) (get_list incident_id s.actions) ≡ some action
    pub incident_found : get incident_id s.incidents ≡ some incident
    pub was_executable : is_executable_status action.status ≡ true
    pub first : any (is_for action_id) (get_list incident_id s.executions) ≡ false
    pub free : target_busy s.actions action.target_resource s.executions ≡ false
    pub actions_after :
        s'.actions
        ≡ put incident_id
            (update_first
              (has_id action_id)
              (with_status executing)
              (get_list incident_id s.actions))
            s.actions
    pub incidents_after :
        s'.incidents ≡ put incident_id (with_state now executing_action incident) s.incidents
    pub executions_after :
        s'.executions
        ≡ put incident_id (get_list incident_id s.executions ++ record_ ∷ []) s.executions

  pub claim-Claimed :
      (s' : MemoryStore)
      → claim_execution now incident_id action_id record_ s ≡ some (true, s')
      → Claimed s'
  unfolding claim_execution
  claim-Claimed s' h = elim (Option-cases (get incident_id s.incidents)) [
    | inl e ↦ absurd (ground arith)
    | inr (i, e) ↦ elim (Option-cases (find (has_id action_id) (get_list incident_id s.actions))) [
      | inl e' ↦ absurd (ground arith)
      | inr (a, e') ↦ record {
        action = a;
        incident = i;
        found = e';
        incident_found = e;
        was_executable = ground arith;
        first = ground arith;
        free = ground arith;
        actions_after = ground arith;
        incidents_after = ground arith;
        executions_after = ground arith;
      }
    ]
  ]

  not_first :
      (s' : MemoryStore)
      → any (is_for action_id) (get_list incident_id s.executions) ≡ true
      → claim_execution now incident_id action_id record_ s ≢ some (true, s')
  not_first s' e h = let c = claim-Claimed s' h in cc (c.first)

  -- Where the action may be executed, was never claimed and its target is free, a claim succeeds and
  -- moves the incident to executing_action, whatever state the incident is in: the transition table is
  -- not asked.
  pub claim-executing :
      (incident : Incident) (action : CandidateAction)
      → get incident_id s.incidents ≡ some incident
      → find (has_id action_id) (get_list incident_id s.actions) ≡ some action
      → is_executable_status action.status ≡ true
      → any (is_for action_id) (get_list incident_id s.executions) ≡ false
      → target_busy s.actions action.target_resource s.executions ≡ false
      → (s' : MemoryStore) × (claim_execution now incident_id action_id record_ s ≡ some (true, s'))
        × (get incident_id s'.incidents ≡ some (with_state now executing_action incident))
  unfolding claim_execution
  claim-executing incident action known found may_run first free = (
    record s {
      actions =
          put incident_id
            (update_first (has_id action_id) (with_status executing)
              (get_list incident_id s.actions))
            s.actions;
      incidents = put incident_id (with_state now executing_action incident) s.incidents;
      executions = put incident_id (get_list incident_id s.executions ++ record_ ∷ []) s.executions;
    },
    rw (known, found, may_run, first, free, claim_execution) refl,
    get-put_self incident_id (with_state now executing_action incident) s.incidents,
  )

recorded :
    (now : Time) (incident_id action_id : String) (record_ : ExecutionRecord) (s s' : MemoryStore)
    → record_.candidate_action_id ≡ action_id
    → claim_execution now incident_id action_id record_ s ≡ some (true, s')
    → any (is_for action_id) (get_list incident_id s'.executions) ≡ true
recorded now incident_id action_id record_ s s' same h =
    let c = claim-Claimed now incident_id action_id record_ s s' h in
    rw c.executions_after (
      ground (
        arith,
        eq_iff incident_id incident_id,
        eq_iff record_.candidate_action_id action_id,
        get_list-put incident_id incident_id (get_list incident_id s.executions ++ record_ ∷ [])
            s.executions,
        any-append (is_for action_id) (get_list incident_id s.executions) (record_ ∷ []),
      ))

-- An action is claimed once: after a claim and a change of the action's status, back to approved or
-- to anything else, a second claim does not succeed.
pub claim_once :
    (now later : Time) (incident_id action_id : String) (first second : ExecutionRecord)
    (status : CandidateActionStatus) (s s' s'' t : MemoryStore)
    → first.candidate_action_id ≡ action_id
    → claim_execution now incident_id action_id first s ≡ some (true, s')
    → update_candidate_action_status action_id status s' ≡ some s''
    → claim_execution later incident_id action_id second s'' ≢ some (true, t)
claim_once now later incident_id action_id first second status s s' s'' t same h u =
    not_first later incident_id action_id second s'' t (
      ap (λ (e : Map (List ExecutionRecord)). any (is_for action_id) (get_list incident_id e))
        (executions-update_status action_id status s' s'' u)
      ∙ recorded now incident_id action_id first s s' same h)
