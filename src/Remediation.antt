-- ===== src/Remediation.antt =====
-- The heuristic generator of internal/remediation/service.go, which proposes actions by what the evidence
-- says. Metadata is decoded as elsewhere; the n-th new action has the n-th id and reading of the clock.
pub mod Evidence
pub mod Proposals
pub mod Validity
use Prim.Native.String.{◌++◌}
use triovexa.Prelude.{
  ℕ, suc, String, Bool, true, false, not, ◌&&◌, List, [], ◌∷◌, ◌++◌ as append, Option, none, some,
  str_eq, trim_space, to_lower, text_contains, contains, any, ltb, if◌then◌else◌, Map, get,
}
use triovexa.Numbers.{ℤ, pos, ltb_int, int_of_float}
use triovexa.Domain.{
  Time, Incident, TriageResult, EvidenceItem, DocumentReference, CandidateAction,
  CandidateActionStatus, proposed, invalid, Details, Json, text, float, RiskLevel, risk_text,
}
use triovexa.Catalog.{Catalog, ActionDefinition, ParameterDefinition, get_definition}
use triovexa.Policy.{is_empty}
use triovexa.Remediation.Evidence.{Source}
use triovexa.Remediation.Proposals.{Proposal, proposals}

unfoldable pub compact_strings : List String → List String
compact_strings [] = []
compact_strings (value ∷ values) =
    let rest = compact_strings values in if str_eq (trim_space value) "" then rest else value ∷ rest

-- A required parameter is there.
unfoldable pub has_required : List ParameterDefinition → Details → Option String
has_required [] parameters = none
has_required (p ∷ ps) parameters =
    let rest = has_required ps parameters in
    if p.required
    then elim (get p.name parameters) [ none ↦ some p.name | some value ↦ rest ]
    else rest

-- A key that the catalog does not define.
unfoldable pub unknown_key : List ParameterDefinition → Details → Option String
unknown_key ps [] = none
unknown_key ps ((key, value) ∷ m) =
    let rest = unknown_key ps m in
    if any (λ (p : ParameterDefinition). str_eq p.name key) ps then rest else some key

unfoldable pub approval_hint : ActionDefinition → String
approval_hint d =
    if d.needs_approval
    then (if d.supports_rollback && not (str_eq d.rollback_action_key "")
        then "This action is valid but requires operator approval before execution. Prepared rollback: "
          ++ d.rollback_action_key ++ "."
        else "This action is valid but requires operator approval before execution.")
    else "This action does not require additional approval."

module _ (s : Source) (catalog : Catalog) where
  -- newAction; `none` is the error that the catalog does not list it.
  unfoldable pub new_action : Incident → ℕ → Proposal → Option CandidateAction
  new_action incident n p = elim (get_definition catalog p.action_type) [
    | none ↦ none
    | some d ↦ some (record {
      id = s.uuid n;
      incident_id = incident.id;
      action_type = p.action_type;
      target_resource = p.target;
      parameters_json = s.marshal p.parameters;
      risk_level = d.risk_level;
      rationale = p.rationale;
      evidence_refs = compact_strings p.refs;
      approval_hint = approval_hint d;
      status = proposed;
      created_at = s.clock n;
    })
  ]

  unfoldable pub parameters_text : String → String
  parameters_text json = if str_eq (trim_space json) "" then "{}" else json

  -- The text of the error; `none` where the parameters are valid.
  unfoldable pub check_keys : ActionDefinition → Option Details → Option String
  check_keys d none = some "parameters_json is not valid JSON object"
  check_keys d (some parameters) = elim (unknown_key d.parameters parameters) [
    | some key ↦ some ("parameter " ++ s.quote key ++ " is not defined in catalog")
    | none ↦ elim (has_required d.parameters parameters) [
      | some name ↦ some ("required parameter " ++ s.quote name ++ " is missing")
      | none ↦ none
    ]
  ]

  unfoldable pub validate_parameters : ActionDefinition → String → Option String
  unfolding check_keys parameters_text
  validate_parameters d json = check_keys d (s.unmarshal (parameters_text json))

  abbrev pub refused : CandidateAction → String → CandidateAction
  refused action reason = record action {
    status = invalid;
    approval_hint = "validation failed: " ++ reason;
  }

  unfoldable pub validate_with : Incident → CandidateAction → ActionDefinition → CandidateAction
  validate_with incident action d =
      if not (str_eq (risk_text action.risk_level) (risk_text d.risk_level))
      then refused action "risk level does not match the catalog"
      else if not (is_empty d.allowed_environments)
          && not (contains d.allowed_environments incident.environment)
      then refused action
          ("environment " ++ s.quote incident.environment ++ " is not allowed for this action")
      else if not (is_empty d.allowed_targets)
          && not (contains d.allowed_targets action.target_resource)
      then refused action ("target " ++ s.quote action.target_resource ++ " is not allowed")
      else elim (validate_parameters d action.parameters_json) [
        | some reason ↦ refused action reason
        | none ↦ record action { approval_hint = approval_hint d }
      ]

  unfoldable pub validate_action : Incident → CandidateAction → CandidateAction
  validate_action incident action = elim (get_definition catalog action.action_type) [
    | none ↦ refused action "action is not present in the catalog"
    | some d ↦ validate_with incident action d
  ]

  -- Each proposal is made and validated; the first one that cannot be made ends the round.
  unfoldable pub make_actions : Incident → ℕ → List Proposal → Option (List CandidateAction)
  unfolding new_action validate_action
  make_actions incident n [] = some []
  make_actions incident n (p ∷ ps) =
      let rest = make_actions incident (suc n) ps in
      elim (new_action incident n p) [
        | none ↦ none
        | some action ↦ elim rest [
          | none ↦ none
          | some actions ↦ some (validate_action incident action ∷ actions)
        ]
      ]

  -- Generate; `none` is the error of an action that the catalog does not list.
  unfoldable pub generate :
      Incident
      → TriageResult
      → List EvidenceItem
      → List DocumentReference
      → Option (List CandidateAction)
  unfolding make_actions
  generate incident triage evidence documents =
      make_actions incident 0 (proposals s incident triage evidence)
