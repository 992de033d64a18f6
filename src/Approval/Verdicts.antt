-- ===== src/Approval/Verdicts.antt =====
-- What a successful approval has checked, and what it stores.
use triovexa.Prelude.{
  ◌+◌, ◌*◌, ◌≤◌, suc, refl, join, String, true, false, ◌≡◌, ◌||◌, ap, ◌∙◌, some, arith, [], ◌∷◌,
  ◌++◌, get_list, str_eq, trim_space,
}
use triovexa.Domain.{
  minute, risk_text, approved_decision, Incident, same_state, approved, CandidateAction,
  is_awaiting, awaiting, approved_status, PolicyDecision, ApprovalRecord,
}
use triovexa.Storage.Incidents.{get_incident}
use triovexa.Storage.Actions.{get_candidate_action, get_policy_decision}
use triovexa.Storage.Approvals.Atomic.{decide-Effect}
use triovexa.StateMachine.{can_transition}
use triovexa.World.{World, Env}
use triovexa.World.Ensures.{
  Ensures, bind-Ensures, guard-Ensures, now-then, new_id-then, attempt-Ensures, fetch-Ensures,
  Within-Ensures, weaken-Ensures,
}
use triovexa.World.Quiet.{Quiet, quiet_rules}
use triovexa.World.Readings.{ReadIn, read_once, widen}
use triovexa.Approval.{action_approval_digest, store_approval, approve_action, approval_record}

module _ (env : Env) where
  -- The checks of an approval that returned, all of them about the store it started from.
  pub record Approves (action_id approved_by note : String) (w w' : World) : Type 0 where
    pub named : str_eq (trim_space approved_by) "" ≡ false
    pub action : CandidateAction
    pub found : get_candidate_action action_id w.store ≡ some action
    pub awaited : is_awaiting action.status ≡ true
    pub decision : PolicyDecision
    pub judged : get_policy_decision action_id w.store ≡ some decision
    pub incident : Incident
    pub incident_found : get_incident action.incident_id w.store ≡ some incident
    pub approvable :
        (same_state incident.state approved || can_transition incident.state approved) ≡ true
    pub approval : ApprovalRecord
    pub stored :
        get_list action_id w'.store.approvals
        ≡ get_list action_id w.store.approvals ++ approval ∷ []
    pub of_action : approval.candidate_action_id ≡ action_id
    pub approves : approval.decision ≡ approved_decision
    pub by_whom : approval.approved_by ≡ approved_by
    pub with_note : approval.note ≡ note
    pub of_content :
        approval.action_digest
        ≡ env.sha256_hex (
            join (
              action.id
              ∷ action.action_type
              ∷ action.target_resource
              ∷ action.parameters_json
              ∷ risk_text action.risk_level
              ∷ trim_space decision.policy_rule_ref
              ∷ []))
    pub of_policy : approval.policy_version ≡ decision.policy_rule_ref
    pub created : ReadIn env w.reads w'.reads (λ at. approval.created_at ≡ at)
    pub expires : approval.expires_at ≡ approval.created_at + 15 * minute
    pub not_dispatched : w'.dispatched ≡ w.dispatched

  record Stores (incident_id : String) (incident : Incident) (record_ : ApprovalRecord)
      (w w' : World) : Type 0 where
    approvable :
        (same_state incident.state approved || can_transition incident.state approved) ≡ true
    stored :
        get_list record_.candidate_action_id w'.store.approvals
        ≡ get_list record_.candidate_action_id w.store.approvals ++ record_ ∷ []
    not_dispatched : w'.dispatched ≡ w.dispatched
    later : w.reads ≤ w'.reads

  store_approval-Stores :
      (incident_id : String) (incident : Incident) (record_ : ApprovalRecord) (w : World)
      → Ensures
          (store_approval env incident_id incident record_)
          w
          (λ _ w'. Stores incident_id incident record_ w w')
  unfolding store_approval
  store_approval-Stores incident_id incident record_ w = bind-Ensures _ _ (
      guard-Ensures _ _ λ can. now-then env _ (
        bind-Ensures _ _ (
          attempt-Ensures _ λ updated s d. bind-Ensures _ _ (
            guard-Ensures updated _ λ done. bind-Ensures _ _ (
              Within-Ensures Quiet _ (search quiet_rules) λ _ v q.
                Within-Ensures Quiet _ (search quiet_rules) λ _ v' q'.
                  let e =
                    decide-Effect (env.clock w.reads) incident_id record_ awaiting approved_status
                      (some incident.state) (some approved) w.store s (rw done at d) in
                  record {
                    approvable = can;
                    stored =
                        ap (get_list record_.candidate_action_id) (q'.approvals ∙ q.approvals)
                        ∙ e.recorded;
                    not_dispatched = q'.dispatched ∙ q.dispatched;
                    later = ground (arith, q.later, q'.later);
                  })))))

  -- An approval that returns has checked the name, the action, its judgement and the incident, and
  -- has stored one record: in the name of the approver, for the content of the action and the rule of
  -- its present judgement, made at a reading of the clock during the call and good for fifteen minutes
  -- from then. The adapter was not called.
  pub approve_action-Approves :
      (action_id approved_by note : String) (w : World)
      → Ensures
          (approve_action env action_id approved_by note)
          w
          (λ _ w'. Approves action_id approved_by note w w')
  unfolding approve_action action_approval_digest
  approve_action-Approves action_id approved_by note w = bind-Ensures _ _ (
      guard-Ensures _ _ λ named. bind-Ensures _ _ (
        fetch-Ensures _ _ λ action found. bind-Ensures _ _ (
          guard-Ensures _ _ λ awaited. bind-Ensures _ _ (
            fetch-Ensures _ _ λ decision judged. now-then env _ (
              new_id-then env _ (
                bind-Ensures _ _ (
                  fetch-Ensures _ _ λ incident incident_found.
                    weaken-Ensures _ _ (store_approval-Stores action.incident_id incident _ _)
                      λ _ w' e. record {
                        named = ground arith;
                        action = action;
                        found = found;
                        awaited = awaited;
                        decision = decision;
                        judged = judged;
                        incident = incident;
                        incident_found = incident_found;
                        approvable = e.approvable;
                        approval =
                            approval_record env (env.uuid w.ids) action_id action decision
                              approved_by note (env.clock w.reads);
                        stored = e.stored;
                        of_action = refl;
                        approves = refl;
                        by_whom = refl;
                        with_note = refl;
                        of_content = refl;
                        of_policy = refl;
                        created =
                            widen w.reads (suc w.reads) w.reads w'.reads (ground arith) e.later
                              (read_once env (λ at. env.clock w.reads ≡ at) w.reads refl);
                        expires = refl;
                        not_dispatched = e.not_dispatched;
                      })))))))
