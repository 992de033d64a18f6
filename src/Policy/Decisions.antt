-- ===== src/Policy/Decisions.antt =====
-- What Evaluate of internal/policy/evaluator.go promises, for every catalog and topology.
use triovexa.Prelude.{
  String, Bool, true, false, ◌≡◌, ◌≢◌, ◌↔◌, ◌⊎◌, inl, inr, [], Option-cases, none, some, arith,
  contains, eq_iff,
}
use triovexa.Domain.{Time, low, medium, CandidateAction, allow, approval_required, deny}
use triovexa.Catalog.{ActionDefinition, get_definition}
use triovexa.Topology.{ResourceMetadata, get_metadata}
use triovexa.Policy.{
  Evaluator, Rule, rule_decision, rule_for, rule_of_definition, evaluate, medium_refusal, is_empty,
}

-- A medium risk has a dependency map and an executable action with a rollback plan in the catalog.
pub record MediumPlan (e : Evaluator) (action : CandidateAction) (d : ActionDefinition)
    : Type 0 where
  pub metadata : ResourceMetadata
  pub known : get_metadata e.topology action.target_resource ≡ some metadata
  pub mapped : is_empty metadata.dependencies ≡ false
  pub can_roll_back : d.supports_rollback ≡ true
  pub has_key : d.rollback_action_key ≢ ""
  pub rollback : ActionDefinition
  pub rollback_known : get_definition e.catalog d.rollback_action_key ≡ some rollback
  pub can_execute : d.executable ≡ true

-- The actions that an operator may be asked to approve.
pub record Approvable (e : Evaluator) (action : CandidateAction) (environment : String)
    (kill_switch : Bool) : Type 0 where
  pub definition : ActionDefinition
  pub listed : get_definition e.catalog action.action_type ≡ some definition
  pub switch_off : kill_switch ≡ false
  pub in_environment : contains definition.allowed_environments environment ≡ true
  pub on_target :
      (definition.allowed_targets ≡ [])
      ⊎ (contains definition.allowed_targets action.target_resource ≡ true)
  pub risk :
      (definition.risk_level ≡ low)
      ⊎ ((definition.risk_level ≡ medium) × MediumPlan e action definition)

MediumPlan-refusal :
    (e : Evaluator) (action : CandidateAction) (d : ActionDefinition)
    → MediumPlan e action d
    → medium_refusal e action d ≡ none
unfolding medium_refusal
MediumPlan-refusal e action d p = ground (arith, eq_iff d.rollback_action_key "")

refusal-MediumPlan :
    (e : Evaluator) (action : CandidateAction) (d : ActionDefinition)
    → medium_refusal e action d ≡ none
    → d.executable ≡ true
    → MediumPlan e action d
unfolding medium_refusal
refusal-MediumPlan e action d h x =
    elim (Option-cases (get_metadata e.topology action.target_resource)) [
      | inl p ↦ absurd (ground arith)
      | inr (m, p) ↦ elim (Option-cases (get_definition e.catalog d.rollback_action_key)) [
        | inl q ↦ absurd (ground arith)
        | inr (r, q) ↦ record {
          metadata = m;
          known = p;
          mapped = ground arith;
          can_roll_back = ground arith;
          has_key = ground (arith, eq_iff d.rollback_action_key "");
          rollback = r;
          rollback_known = q;
          can_execute = x;
        }
      ]
    ]

-- A refusal of the medium block always denies.
refusal_denies :
    (e : Evaluator) (action : CandidateAction) (d : ActionDefinition) (rule : Rule)
    → medium_refusal e action d ≡ some rule
    → rule_decision rule ≡ deny
unfolding medium_refusal
refusal_denies e action d rule h = ground arith

module _ (e : Evaluator) (action : CandidateAction) (environment : String)
    (kill_switch : Bool) where
  -- The risk's part of the verdict.
  abbrev RiskApprovable : ActionDefinition → Type 0
  RiskApprovable d = (d.risk_level ≡ low) ⊎ ((d.risk_level ≡ medium) × MediumPlan e action d)

  risk_approved :
      (d : ActionDefinition)
      → rule_decision (rule_of_definition e action environment kill_switch d) ≡ approval_required
      → RiskApprovable d
  unfolding rule_of_definition
  risk_approved d h = elim (Option-cases (medium_refusal e action d)) [
    | inl passed ↦ elim (split passed) [
      | inl l ↦ inl l
      | inr (m, x) ↦ inr (m, refusal-MediumPlan e action d passed x)
    ]
    | inr (rule, r) ↦ inl (ground (arith, refusal_denies e action d rule r))
  ]
    where
      split :
          medium_refusal e action d ≡ none
          → (d.risk_level ≡ low) ⊎ ((d.risk_level ≡ medium) × (d.executable ≡ true))
      split passed = ground arith

  definition_approved :
      (d : ActionDefinition)
      → rule_decision (rule_of_definition e action environment kill_switch d) ≡ approval_required
      → (kill_switch ≡ false)
        × (contains d.allowed_environments environment ≡ true)
        × ((d.allowed_targets ≡ []) ⊎ (contains d.allowed_targets action.target_resource ≡ true))
  unfolding rule_of_definition
  definition_approved d h = ground arith

  approved_definition :
      (d : ActionDefinition)
      → kill_switch ≡ false
      → contains d.allowed_environments environment ≡ true
      → ((d.allowed_targets ≡ []) ⊎ (contains d.allowed_targets action.target_resource ≡ true))
      → RiskApprovable d
      → rule_decision (rule_of_definition e action environment kill_switch d) ≡ approval_required
  unfolding rule_of_definition
  approved_definition d k i t (inl l) = ground arith
  approved_definition d k i t (inr (m, p)) =
      ground (arith, MediumPlan-refusal e action d p, p.can_execute)

module _ (e : Evaluator) (at : Time) (action : CandidateAction) (environment : String)
    (kill_switch : Bool) where
  -- The evaluator never answers `allow`, and it sets the flag of an approval exactly where it asks for
  -- one.
  pub evaluate-never_allows :
      let d = evaluate e at action environment kill_switch in
      (d.decision ≢ allow) × ((d.requires_approval ≡ true) ↔ (d.decision ≡ approval_required))
  unfolding evaluate
  evaluate-never_allows = (ground arith, (ground arith, ground arith))

  -- While the kill switch is on, every action is denied.
  pub evaluate-kill_switch :
      kill_switch ≡ true → (evaluate e at action environment kill_switch).decision ≡ deny
  unfolding evaluate rule_for rule_of_definition
  evaluate-kill_switch h = ground arith

  Approvable-evaluate :
      Approvable e action environment kill_switch
      → (evaluate e at action environment kill_switch).decision ≡ approval_required
  unfolding evaluate rule_for
  Approvable-evaluate a =
      rw (a.listed, rule_for)
        (approved_definition e action environment kill_switch a.definition a.switch_off
          a.in_environment a.on_target a.risk)

  -- Conversely, an approval is asked for only for such an action.
  evaluate-Approvable :
      (evaluate e at action environment kill_switch).decision ≡ approval_required
      → Approvable e action environment kill_switch
  unfolding evaluate rule_for
  evaluate-Approvable h = elim (Option-cases (get_definition e.catalog action.action_type)) [
    | inl missing ↦ absurd (ground arith)
    | inr (d, listed) ↦
        let h' : rule_decision (rule_of_definition e action environment kill_switch d)
            ≡ approval_required =
          (rw (listed, rule_for) at h) in
        let facts = definition_approved e action environment kill_switch d h' in
        record {
          definition = d;
          listed = listed;
          switch_off = facts.0;
          in_environment = facts.1;
          on_target = facts.2;
          risk = risk_approved e action environment kill_switch d h';
        }
  ]

  -- An approval is asked for exactly where the action is listed, the kill switch is off, environment
  -- and target are in scope, and the risk is low, or it is medium, the action is executable, its target
  -- has a dependency map and its rollback is in the catalog.
  pub evaluate_iff :
      ((evaluate e at action environment kill_switch).decision ≡ approval_required)
      ↔ Approvable e action environment kill_switch
  evaluate_iff = (evaluate-Approvable, Approvable-evaluate)
