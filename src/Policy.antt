-- ===== src/Policy.antt =====
-- internal/policy/evaluator.go. A reason is the format of its text, followed by the arguments.
pub mod Decisions
pub mod Shipped
use triovexa.Prelude.{
  ℕ, String, Bool, true, false, not, ◌&&◌, ◌||◌, List, [], ◌∷◌, ◌++◌, Option, none, some, contains,
  str_eq, length, ltb, ◌==◌, if◌then◌else◌,
}
use triovexa.Domain.{
  Time, RiskLevel, low, medium, high, other_risk, CandidateAction, PolicyDecision,
  PolicyDecisionType, allow, approval_required, deny,
}
use triovexa.Catalog.{Catalog, ActionDefinition, get_definition}
use triovexa.Topology.{Registry, ResourceMetadata, get_metadata, default_registry}

-- Evaluator of internal/policy/evaluator.go.
pub record Evaluator : Type 0 where
  pub catalog : Catalog
  pub topology : Registry

unfoldable pub new_evaluator : Catalog → Evaluator
new_evaluator catalog = record { catalog = catalog; topology = default_registry }

-- The rules, by their references.
pub data Rule : Type 0 where
  unknown_action global_kill_switch environment_allowlist target_allowlist : Rule
  metadata_required map_required rollback_plan_required rollback_action_missing : Rule
  low_requires_approval medium_disabled medium_requires_approval high_blocked unknown_risk : Rule

abbrev pub rule_ref : Rule → String
rule_ref unknown_action = "catalog/unknown-action"
rule_ref global_kill_switch = "safety/global-kill-switch"
rule_ref environment_allowlist = "scope/environment-allowlist"
rule_ref target_allowlist = "scope/target-allowlist"
rule_ref metadata_required = "dependency/metadata-required"
rule_ref map_required = "dependency/map-required"
rule_ref rollback_plan_required = "safety/rollback-plan-required"
rule_ref rollback_action_missing = "safety/rollback-action-missing"
rule_ref low_requires_approval = "risk/low-requires-approval"
rule_ref medium_disabled = "risk/medium-disabled"
rule_ref medium_requires_approval = "risk/medium-requires-approval"
rule_ref high_blocked = "risk/high-blocked-in-mvp"
rule_ref unknown_risk = "risk/unknown"

-- What each rule decides: two of them ask for an approval, the others deny.
abbrev pub rule_decision : Rule → PolicyDecisionType
rule_decision low_requires_approval = approval_required
rule_decision medium_requires_approval = approval_required
rule_decision _ = deny

-- ApprovalRequired, which each branch of the switch sets for itself.
abbrev pub rule_approval : Rule → Bool
rule_approval low_requires_approval = true
rule_approval medium_requires_approval = true
rule_approval _ = false

-- `len(xs) == 0`.
abbrev pub is_empty {ℓ} : {A : Type ℓ} → List A → Bool
is_empty [] = true
is_empty (x ∷ xs) = false

-- The switch over the risk level.
unfoldable pub risk_rule : ActionDefinition → RiskLevel → Rule
risk_rule d low = low_requires_approval
risk_rule d medium = if not d.executable then medium_disabled else medium_requires_approval
risk_rule d high = high_blocked
risk_rule d (other_risk s) = unknown_risk

abbrev pub is_medium : RiskLevel → Bool
is_medium medium = true
is_medium _ = false

abbrev pub is_high : RiskLevel → Bool
is_high high = true
is_high _ = false

-- The block for a medium risk; `none` where all its tests pass.
unfoldable pub medium_refusal : Evaluator → CandidateAction → ActionDefinition → Option Rule
medium_refusal e action d = elim (get_metadata e.topology action.target_resource) [
  | none ↦ some metadata_required
  | some metadata ↦
      if is_empty metadata.dependencies
      then some map_required
      else if not d.supports_rollback || str_eq d.rollback_action_key ""
      then some rollback_plan_required
      else elim (get_definition e.catalog d.rollback_action_key) [
        | none ↦ some rollback_action_missing
        | some rollback ↦ none
      ]
]

-- The tests on a definition that the catalog has.
unfoldable pub rule_of_definition :
    Evaluator → CandidateAction → String → Bool → ActionDefinition → Rule
unfolding risk_rule
rule_of_definition e action environment kill_switch d =
    if kill_switch
    then global_kill_switch
    else if not (contains d.allowed_environments environment)
    then environment_allowlist
    else if not (is_empty d.allowed_targets)
        && not (contains d.allowed_targets action.target_resource)
    then target_allowlist
    else if is_medium d.risk_level
    then elim (medium_refusal e action d) [ some rule ↦ rule | none ↦ risk_rule d d.risk_level ]
    else risk_rule d d.risk_level

unfoldable pub rule_for : Evaluator → CandidateAction → String → Bool → Rule
rule_for e action environment kill_switch = elim (get_definition e.catalog action.action_type) [
  | none ↦ unknown_action
  | some d ↦ rule_of_definition e action environment kill_switch d
]

definition_key : Evaluator → CandidateAction → String
definition_key e action = elim (get_definition e.catalog action.action_type) [
  | none ↦ ""
  | some d ↦ d.key
]

definition_rollback : Evaluator → CandidateAction → String
definition_rollback e action = elim (get_definition e.catalog action.action_type) [
  | none ↦ ""
  | some d ↦ d.rollback_action_key
]

target_facts : Evaluator → CandidateAction → List String
target_facts e action = elim (get_metadata e.topology action.target_resource) [
  | none ↦ "" ∷ "" ∷ []
  | some metadata ↦ metadata.service ∷ metadata.owner ∷ metadata.dependencies
]

-- The format of a reason, followed by its arguments.
reason_for : Evaluator → CandidateAction → String → Rule → List String
unfolding definition_key definition_rollback target_facts
reason_for e action environment unknown_action =
    "candidate action is not part of the allowlisted catalog" ∷ []
reason_for e action environment global_kill_switch = "global kill switch is enabled" ∷ []
reason_for e action environment environment_allowlist =
    "action %q is not allowed in environment %q" ∷ definition_key e action ∷ environment ∷ []
reason_for e action environment target_allowlist =
    "target %q is not allowed for action %q" ∷ action.target_resource ∷ definition_key e action ∷ []
reason_for e action environment metadata_required =
    "medium-risk action %q requires dependency metadata for target %q"
    ∷ definition_key e action
    ∷ action.target_resource
    ∷ []
reason_for e action environment map_required =
    "medium-risk target %q is missing dependency map" ∷ action.target_resource ∷ []
reason_for e action environment rollback_plan_required =
    "medium-risk action %q must declare a rollback plan before execution is allowed"
    ∷ definition_key e action
    ∷ []
reason_for e action environment rollback_action_missing =
    "rollback action %q is missing from catalog" ∷ definition_rollback e action ∷ []
reason_for e action environment low_requires_approval =
    "low-risk action is allowlisted but still approval-gated in the initial phases" ∷ []
reason_for e action environment medium_disabled =
    "medium-risk action %q is cataloged but not enabled for execution yet"
    ∷ definition_key e action
    ∷ []
reason_for e action environment medium_requires_approval =
    "medium-risk action touches %s owned by %s with dependencies %v; operator approval is mandatory and rollback plan %q is required"
    ∷ (target_facts e action ++ definition_rollback e action ∷ [])
reason_for e action environment high_blocked =
    "high-risk actions are blocked during the MVP and foundation phases" ∷ []
reason_for e action environment unknown_risk = "risk classification is unknown" ∷ []

-- The reference, the decision, the reason and the flag go together on every path; the time is one
-- reading of the clock.
unfoldable pub evaluate : Evaluator → Time → CandidateAction → String → Bool → PolicyDecision
unfolding reason_for
evaluate e at action environment kill_switch =
    let rule = rule_for e action environment kill_switch in
    record {
      id = "";
      candidate_action_id = action.id;
      decision = rule_decision rule;
      reason = reason_for e action environment rule;
      requires_approval = rule_approval rule;
      policy_rule_ref = rule_ref rule;
      decided_at = at;
    }
