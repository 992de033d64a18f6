-- ===== src/Remediation/Validity.antt =====
-- The actions of internal/remediation/service.go are admissible, or marked as invalid.
use triovexa.Prelude.{
  ℕ, suc, String, Bool, true, false, not, ◌&&◌, ◌≡◌, ◌⊎◌, refl, inl, inr, Bool-cases, Option,
  Option-cases, none, some, List, [], ◌∷◌, ◌++◌ as append, All, arith, str_eq, eq_iff, contains,
  get, if◌then◌else◌,
}
use triovexa.Numbers.{ℤ, pos, ltb_int}
use triovexa.Domain.{
  Incident, TriageResult, EvidenceItem, DocumentReference, CandidateAction, invalid, risk_text,
}
use triovexa.Catalog.{Catalog, ActionDefinition, get_definition}
use triovexa.Catalog.Default.{default_catalog}
use triovexa.Policy.{is_empty}
use triovexa.Remediation.Evidence.{Source, detect_mode, extract_int_metric}
use triovexa.Remediation.Proposals.{
  Proposal, is_real, at_least, retry_job, pause, retries, pauses, stall_proposals, proposals,
}
use triovexa.Remediation.{
  new_action, validate_action, validate_with, validate_parameters, make_actions, generate,
}

-- The catalog lists the action with its risk, and the environment, the target and the parameters are allowed.
pub record IsAdmissible (s : Source) (catalog : Catalog) (incident : Incident)
    (action : CandidateAction) : Type 0 where
  pub definition : ActionDefinition
  pub listed : get_definition catalog action.action_type ≡ some definition
  pub same_risk : risk_text action.risk_level ≡ risk_text definition.risk_level
  pub in_environment :
      (is_empty definition.allowed_environments ≡ true)
      ⊎ (contains definition.allowed_environments incident.environment ≡ true)
  pub on_target :
      (is_empty definition.allowed_targets ≡ true)
      ⊎ (contains definition.allowed_targets action.target_resource ≡ true)
  pub valid_parameters : validate_parameters s catalog definition action.parameters_json ≡ none

abbrev pub IsSound : Source → Catalog → Incident → CandidateAction → Type 0
IsSound s catalog incident action =
    (action.status ≡ invalid) ⊎ IsAdmissible s catalog incident action

module _ (s : Source) (catalog : Catalog) (incident : Incident) where
  allowed : (b c : Bool) → (not b && not c) ≡ false → (b ≡ true) ⊎ (c ≡ true)
  allowed true c h = inl refl
  allowed false true h = inr refl
  allowed false false h = absurd (ground (arith, h))

  validate_with-IsSound :
      (action : CandidateAction) (d : ActionDefinition)
      → get_definition catalog action.action_type ≡ some d
      → IsSound s catalog incident (validate_with s catalog incident action d)
  unfolding validate_with
  validate_with-IsSound action d listed =
      elim (Bool-cases (str_eq (risk_text action.risk_level) (risk_text d.risk_level))) [
        | inr e ↦ rw (e, validate_with) (inl refl)
        | inl risk ↦
            elim (Bool-cases (
              not (is_empty d.allowed_environments)
              && not (contains d.allowed_environments incident.environment))) [
                | inl e ↦ rw (risk, e, validate_with) (inl refl)
                | inr environment ↦
                    elim (Bool-cases (
                      not (is_empty d.allowed_targets)
                      && not (contains d.allowed_targets action.target_resource))) [
                        | inl e ↦ rw (risk, environment, e, validate_with) (inl refl)
                        | inr target ↦
                            elim (Option-cases
                              (validate_parameters s catalog d action.parameters_json)) [
                                | inr (reason, e) ↦
                                    rw (risk, environment, target, e, validate_with) (inl refl)
                                | inl valid ↦
                                    rw (risk, environment, target, valid, validate_with)
                                      (inr (record {
                                        definition = d;
                                        listed = listed;
                                        same_risk = (eq_iff _ _).0 risk;
                                        in_environment = allowed _ _ environment;
                                        on_target = allowed _ _ target;
                                        valid_parameters = valid;
                                      }))
                              ]
                      ]
              ]
      ]

  validate_action-IsSound :
      (action : CandidateAction)
      → IsSound s catalog incident (validate_action s catalog incident action)
  unfolding validate_action
  validate_action-IsSound action = elim (Option-cases (get_definition catalog action.action_type)) [
    | inl e ↦ rw (e, validate_action) (inl refl)
    | inr (d, e) ↦ rw (e, validate_action) (validate_with-IsSound action d e)
  ]

-- The catalog lists the action of a proposal.
abbrev is_listed : Catalog → Proposal → Bool
is_listed catalog p = elim (get_definition catalog p.action_type) [ none ↦ false | some d ↦ true ]

abbrev all_listed : Catalog → List Proposal → Bool
all_listed catalog [] = true
all_listed catalog (p ∷ ps) = is_listed catalog p && all_listed catalog ps

-- Actions that are returned, and that are sound.
pub record ReturnsSound (s : Source) (catalog : Catalog) (incident : Incident)
    (o : Option (List CandidateAction)) : Type 0 where
  pub actions : List CandidateAction
  pub returned : o ≡ some actions
  pub sound : All (IsSound s catalog incident) actions

module _ (s : Source) (catalog : Catalog) (incident : Incident) where
  make_actions-ReturnsSound :
      (n : ℕ) (ps : List Proposal)
      → all_listed catalog ps ≡ true
      → ReturnsSound s catalog incident (make_actions s catalog incident n ps)
  unfolding make_actions new_action
  make_actions-ReturnsSound n [] h = record { actions = []; returned = refl; sound = tt }
  make_actions-ReturnsSound n (p ∷ ps) h =
      elim (Option-cases (get_definition catalog p.action_type)) [
        | inl e ↦ absurd (ground (arith, e, h))
        | inr (d, e) ↦
            let r = make_actions-ReturnsSound (suc n) ps (ground (arith, h)) in
            rw (e, make_actions, new_action)
              (rw (r.returned, make_actions)
                (record {
                  actions = _;
                  returned = refl;
                  sound = (validate_action-IsSound s catalog incident _, r.sound);
                }))
      ]

module _ (c : Catalog) where
  listed-if :
      (b : Bool) (xs ys : List Proposal)
      → all_listed c xs ≡ true
      → all_listed c ys ≡ true
      → all_listed c (if b then xs else ys) ≡ true
  listed-if true xs ys p q = p
  listed-if false xs ys p q = q

  one_listed-if :
      (b : Bool) (x y : Proposal) (ps : List Proposal)
      → is_listed c x ≡ true
      → is_listed c y ≡ true
      → all_listed c ps ≡ true
      → all_listed c ((if b then x else y) ∷ ps) ≡ true
  one_listed-if true x y ps p q r = ground (arith, p, r)
  one_listed-if false x y ps p q r = ground (arith, q, r)

  listed-append :
      (xs ys : List Proposal)
      → all_listed c xs ≡ true
      → all_listed c ys ≡ true
      → all_listed c (append xs ys) ≡ true
  listed-append [] ys p q = q
  listed-append (x ∷ xs) ys p q = ground (arith, p, listed-append xs ys (ground (arith, p)) q)

module _ (s : Source) (incident : Incident) (triage : TriageResult) where
  stall-listed :
      (backlog : ℤ) (refs : List String)
      → all_listed default_catalog (stall_proposals incident triage backlog refs) ≡ true
  unfolding stall_proposals get_definition get default_catalog
  stall-listed backlog refs =
      let c = default_catalog in
      let real = is_real incident in
      one_listed-if c real _ _
        (append (retries incident backlog refs) (pauses incident backlog refs)) refl refl
        (listed-append c (retries incident backlog refs) (pauses incident backlog refs)
          (listed-if c (at_least backlog 80 && not real) (retry_job refs ∷ []) [] refl refl)
          (listed-if c (at_least backlog 120) (pause incident refs ∷ []) []
            (one_listed-if c real _ _ [] refl refl refl) refl))

  proposals-listed :
      (evidence : List EvidenceItem)
      → all_listed default_catalog (proposals s incident triage evidence) ≡ true
  unfolding proposals get_definition get default_catalog
  proposals-listed evidence =
      listed-if default_catalog (str_eq (detect_mode evidence) "worker_stall") _ _
        (stall-listed (extract_int_metric s evidence "queue_backlog") _)
        (listed-if default_catalog (str_eq (detect_mode evidence) "timeout_after_deploy") _ _ refl (
          listed-if default_catalog
            (str_eq (detect_mode evidence) "error_rate_spike"
              && not (ltb_int (extract_int_metric s evidence "latency_ms") (pos 500)))
            _ _ refl refl))

  -- With the catalog that is shipped the generator always returns, and each action is marked as invalid or
  -- the catalog lists it with its risk, and its environment, its target and its parameters are allowed.
  pub generate-ReturnsSound :
      (evidence : List EvidenceItem) (documents : List DocumentReference)
      → ReturnsSound s default_catalog incident
          (generate s default_catalog incident triage evidence documents)
  unfolding generate
  generate-ReturnsSound evidence documents =
      make_actions-ReturnsSound s default_catalog incident 0 _ (proposals-listed evidence)
