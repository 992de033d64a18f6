-- ===== src/Execution/Validity.antt =====
-- What validateApproval and validateEvidenceFreshness of internal/execution/service.go establish.
use triovexa.Prelude.{
  ℕ, ◌+◌, ◌<◌, ◌≤◌, String, false, ◌≡◌, ◌≢◌, List, [], ◌∷◌, some, arith, last, keep, All, Map, get,
  get_list, ap, sym, ◌∙◌, subst, str_eq, eq_iff,
}
use triovexa.Domain.{CandidateAction, PolicyDecision, ApprovalRecord, EvidenceItem, Time}
use triovexa.Storage.Incidents.{list_evidence_items, by_timestamp}
use triovexa.Storage.Actions.{get_policy_decision}
use triovexa.Storage.Approvals.{list_approval_records}
use triovexa.World.{World, Env}
use triovexa.World.Quiet.{Quiet}
use triovexa.World.Ensures.{
  Ensures, bind-Ensures, guard-Ensures, now-then, fetch-Ensures, look-Ensures, or_fail-Ensures,
  pure-Ensures, weaken-Ensures, both-Ensures,
}
use triovexa.World.Readings.{ReadIn, read_once, widen, All-widen}
use triovexa.Approval.{action_approval_digest}
use triovexa.Policy.{is_empty}
use triovexa.Execution.Checks.{
  is_approval_of, check_approval, validate_approval, is_incomplete, check_reference,
  check_references, validate_evidence_freshness,
}
use triovexa.Execution.Authorize.{check_reference-Quiet, check_references-Quiet}

module _ (env : Env) where
  -- The last approval of the action is unexpired at one of the readings of the clock, and was given
  -- for the action and the policy rule as they are now.
  pub record ApprovalValid (action : CandidateAction) (w : World) (start end : ℕ) : Type 0 where
    pub decision : PolicyDecision
    pub judged : get_policy_decision action.id w.store ≡ some decision
    pub approval : ApprovalRecord
    pub latest :
        last (keep (is_approval_of action.id) (list_approval_records action.incident_id w.store))
        ≡ some approval
    pub unexpired : ReadIn env start end (λ at. at < approval.expires_at)
    pub same_action :
        approval.action_digest ≡ action_approval_digest env action decision.policy_rule_ref
    pub same_policy : approval.policy_version ≡ decision.policy_rule_ref

  -- If the validation returns, the last approval of the action is unexpired at a reading of the clock
  -- that the validation made, and was given for the action and the policy rule as they are now.
  pub validate_approval-Valid :
      (action : CandidateAction) (w : World)
      → Ensures (validate_approval env action) w (λ _ v. ApprovalValid action w w.reads v.reads)
  unfolding validate_approval check_approval
  validate_approval-Valid action w = bind-Ensures _ _ (
      fetch-Ensures _ _ λ decision judged. bind-Ensures _ _ (
        look-Ensures _ (
          bind-Ensures _ _ (
            or_fail-Ensures _ _ λ r latest. bind-Ensures _ _ (
              guard-Ensures _ _ λ dated. now-then env _ (
                bind-Ensures _ _ (
                  guard-Ensures _ _ λ unexpired. guard-Ensures _ _ λ same. record {
                    decision = decision;
                    judged = judged;
                    approval = r;
                    latest = latest;
                    unexpired =
                        read_once env (λ at. at < r.expires_at) w.reads (ground (arith, unexpired));
                    same_action = ground (
                      arith,
                      same,
                      eq_iff r.action_digest
                          (action_approval_digest env action decision.policy_rule_ref),
                    );
                    same_policy =
                        ground (arith, same, eq_iff r.policy_version decision.policy_rule_ref);
                  })))))))

  -- The reference names a dated item, the last one with that id, that is complete and was at most
  -- `max_age` old at one of the readings of the clock.
  pub record IsFresh (items : List EvidenceItem) (max_age : Time) (start end : ℕ)
      (reference : String) : Type 0 where
    pub item : EvidenceItem
    pub known : last (keep (λ (i : EvidenceItem). str_eq i.id reference) items) ≡ some item
    pub dated : item.timestamp ≢ 0
    pub recent : ReadIn env start end (λ at. at ≤ item.timestamp + max_age)
    pub complete : is_incomplete env item ≡ false

  check_reference-IsFresh :
      (items : List EvidenceItem) (max_age : Time) (reference : String) (w : World)
      → Ensures
          (check_reference env items max_age reference)
          w
          (λ _ v. IsFresh items max_age w.reads v.reads reference)
  unfolding check_reference
  check_reference-IsFresh items max_age reference w = bind-Ensures _ _ (
      or_fail-Ensures _ _ λ item known. bind-Ensures _ _ (
        guard-Ensures _ _ λ dated. now-then env _ (
          bind-Ensures _ _ (
            guard-Ensures _ _ λ recent. guard-Ensures _ _ λ complete. record {
              item = item;
              known = known;
              dated = ground (arith, dated);
              recent =
                  read_once env (λ at. at ≤ item.timestamp + max_age) w.reads
                    (ground (arith, recent));
              complete = ground (arith, complete);
            }))))

  IsFresh-widen :
      (items : List EvidenceItem) (max_age : Time) (start end from to : ℕ)
      → from ≤ start
      → end ≤ to
      → (reference : String) → IsFresh items max_age start end reference
      → IsFresh items max_age from to reference
  IsFresh-widen items max_age start end from to s e reference h = record {
    item = h.item;
    known = h.known;
    dated = h.dated;
    recent = widen start end from to s e h.recent;
    complete = h.complete;
  }

  check_references-IsFresh :
      (items : List EvidenceItem) (max_age : Time) (references : List String) (w : World)
      → Ensures
          (check_references env items max_age references)
          w
          (λ _ v. All (IsFresh items max_age w.reads v.reads) references)
  unfolding check_references
  check_references-IsFresh items max_age [] w = pure-Ensures tt tt
  check_references-IsFresh items max_age (reference ∷ references) w = bind-Ensures _ _ (
      both-Ensures _ _ _ (check_reference-IsFresh items max_age reference w)
        (check_reference-Quiet env items max_age reference)
        λ _ v fresh q.
          both-Ensures _ _ _ (check_references-IsFresh items max_age references v)
            (check_references-Quiet env items max_age references)
            λ _ u rest q'. (
              IsFresh-widen items max_age w.reads v.reads w.reads u.reads (ground arith) q'.later
                  reference fresh,
              All-widen references
                  (IsFresh-widen items max_age v.reads u.reads w.reads u.reads q.later
                    (ground arith))
                  rest,
            ))

  -- The action refers to evidence, and each reference is fresh.
  pub record EvidenceValid (max_age : Time) (action : CandidateAction) (w : World) (start end : ℕ)
      : Type 0 where
    pub referred : is_empty action.evidence_refs ≡ false
    pub fresh :
        All
          (IsFresh (list_evidence_items action.incident_id w.store) max_age start end)
          action.evidence_refs

  -- If the validation returns, the action refers to evidence, and each reference names a dated,
  -- complete item that was at most `max_age` old at a reading of the clock that the validation made.
  pub validate_evidence-Valid :
      (max_age : Time) (action : CandidateAction) (w : World)
      → Ensures
          (validate_evidence_freshness env max_age action)
          w
          (λ _ v. EvidenceValid max_age action w w.reads v.reads)
  unfolding validate_evidence_freshness
  validate_evidence-Valid max_age action w = bind-Ensures _ _ (
      look-Ensures _ (
        bind-Ensures _ _ (
          guard-Ensures _ _ λ referred.
            weaken-Ensures _ _
              (check_references-IsFresh (list_evidence_items action.incident_id w.store) max_age
                action.evidence_refs w)
              λ _ _ fresh. record { referred = ground (arith, referred); fresh = fresh })))

  -- Both read parts of the store only that a quiet step leaves alone.
  pub ApprovalValid-Quiet :
      (action : CandidateAction) (v w : World) (start end from to : ℕ)
      → from ≤ start
      → end ≤ to
      → Quiet v w
      → ApprovalValid action w start end
      → ApprovalValid action v from to
  unfolding get_policy_decision list_approval_records
  ApprovalValid-Quiet action v w start end from to s e q valid = record {
    decision = valid.decision;
    judged = ap (get action.id) (sym q.policies) ∙ valid.judged;
    approval = valid.approval;
    latest = cc (q.actions, q.approvals, valid.latest);
    unexpired = widen start end from to s e valid.unexpired;
    same_action = valid.same_action;
    same_policy = valid.same_policy;
  }

  pub EvidenceValid-Quiet :
      (max_age : Time) (action : CandidateAction) (v w : World) (start end from to : ℕ)
      → from ≤ start
      → end ≤ to
      → Quiet v w
      → EvidenceValid max_age action w start end
      → EvidenceValid max_age action v from to
  unfolding list_evidence_items
  EvidenceValid-Quiet max_age action v w start end from to s e q valid = record {
    referred = valid.referred;
    fresh =
        subst
          (λ (m : Map (List EvidenceItem)).
            All (IsFresh (by_timestamp (get_list action.incident_id m)) max_age from to)
              action.evidence_refs)
          q.evidence
          (All-widen action.evidence_refs
            (IsFresh-widen (list_evidence_items action.incident_id w.store) max_age start end from
              to s e)
            valid.fresh);
  }
