-- ===== src/Policy/Shipped.antt =====
-- The evaluator over DefaultCatalog and DefaultRegistry, as cmd/server/main.go builds it.
use triovexa.Prelude.{
  String, Bool, true, false, ◌&&◌, ◌||◌, ◌≡◌, ◌≢◌, refl, ◌⊎◌, inl, inr, List, [], ◌∷◌, Option, none,
  some, arith, contains, str_eq, eq_iff, get, every, every-get, ◌∙◌, sym, ap,
}
use triovexa.Domain.{Time, CandidateAction, allow, approval_required, deny, PolicyDecisionType}
use triovexa.Catalog.{ActionDefinition, get_definition}
use triovexa.Catalog.Default.{default_catalog}
use triovexa.Topology.{get_metadata, default_registry}
use triovexa.Policy.{Evaluator, new_evaluator, evaluate, is_medium, is_high}
use triovexa.Policy.Decisions.{Approvable, evaluate_iff, evaluate-never_allows}

unfoldable pub shipped : Evaluator
unfolding new_evaluator
shipped = new_evaluator default_catalog

-- Every environment of the list is one of the two.
local_or_staging : List String → Bool
local_or_staging [] = true
local_or_staging (x ∷ xs) = (str_eq x "local" || str_eq x "staging") && local_or_staging xs

contained :
    (xs : List String) (e : String)
    → local_or_staging xs ≡ true
    → contains xs e ≡ true
    → (e ≡ "local") ⊎ (e ≡ "staging")
unfolding local_or_staging
contained [] e h c = cc
contained (x ∷ xs) e h c =
    ground (arith, eq_iff x "local", eq_iff x "staging", eq_iff x e, contained xs e)

bounded : ActionDefinition → Bool
unfolding local_or_staging
bounded d = is_high d.risk_level || local_or_staging d.allowed_environments

catalog_bounded : every bounded default_catalog ≡ true
unfolding bounded default_catalog
catalog_bounded = refl

-- With the catalog that is shipped an approval is asked for in the environments "local" and
-- "staging" only.
pub shipped_environments :
    (at : Time) (action : CandidateAction) (environment : String) (kill_switch : Bool)
    → (evaluate shipped at action environment kill_switch).decision ≡ approval_required
    → (environment ≡ "local") ⊎ (environment ≡ "staging")
unfolding shipped get_definition bounded
shipped_environments at action environment kill_switch h =
    let a = (evaluate_iff shipped at action environment kill_switch).0 h in
    let d = a.definition in
    let b : (is_high d.risk_level || local_or_staging d.allowed_environments) ≡ true =
      every-get bounded action.action_type default_catalog d catalog_bounded a.listed in
    ground (arith, b, a.risk, a.in_environment, contained d.allowed_environments environment)

only_queue_worker : List String → Bool
only_queue_worker (x ∷ []) = str_eq x "queue-worker"
only_queue_worker _ = false

only_target :
    (xs : List String) (target : String)
    → only_queue_worker xs ≡ true
    → (xs ≡ []) ⊎ (contains xs target ≡ true)
    → target ≡ "queue-worker"
unfolding only_queue_worker
only_target [] target q c = cc
only_target (x ∷ []) target q c = ground (arith, eq_iff x "queue-worker", eq_iff x target)
only_target (x ∷ y ∷ ys) target q c = cc

-- A medium-risk definition whose one target is "queue-worker".
queue_worker_only : Option ActionDefinition → Bool
queue_worker_only none = false
queue_worker_only (some d) = is_medium d.risk_level && only_queue_worker d.allowed_targets

pause_consumer_definition :
    queue_worker_only (get_definition default_catalog "pause_consumer") ≡ true
unfolding queue_worker_only only_queue_worker get_definition default_catalog get
pause_consumer_definition = refl

queue_worker_unknown : get_metadata default_registry "queue-worker" ≡ none
unfolding get_metadata default_registry get
queue_worker_unknown = refl

pause_consumer_not-Approvable :
    (action : CandidateAction) (environment : String) (kill_switch : Bool)
    → action.action_type ≡ "pause_consumer"
    → ¬ Approvable shipped action environment kill_switch
unfolding shipped queue_worker_only
pause_consumer_not-Approvable action environment kill_switch same a =
    let d = a.definition in
    let listed : get_definition default_catalog "pause_consumer" ≡ some d =
      ap (get_definition default_catalog) (sym same) ∙ a.listed in
    let facts : (is_medium d.risk_level && only_queue_worker d.allowed_targets) ≡ true =
      ap queue_worker_only (sym listed) ∙ pause_consumer_definition in
    let target : action.target_resource ≡ "queue-worker" =
      only_target d.allowed_targets action.target_resource (ground (arith, facts)) a.on_target in
    let unknown : get_metadata default_registry action.target_resource ≡ none =
      ap (get_metadata default_registry) target ∙ queue_worker_unknown in
    elim a.risk [ inl l ↦ ground (arith, facts) | inr (m, plan) ↦ cc (unknown, plan.known) ]

denied : (t : PolicyDecisionType) → t ≢ allow → t ≢ approval_required → t ≡ deny
denied t h k = ground arith

-- The registry that is shipped does not know the one target of "pause_consumer": although the
-- catalog marks the action executable, no such action is ever put up for an approval.
pub pause_consumer_denied :
    (at : Time) (action : CandidateAction) (environment : String) (kill_switch : Bool)
    → action.action_type ≡ "pause_consumer"
    → (evaluate shipped at action environment kill_switch).decision ≡ deny
pause_consumer_denied at action environment kill_switch same =
    denied (evaluate shipped at action environment kill_switch).decision
      (evaluate-never_allows shipped at action environment kill_switch).0
      λ h.
        pause_consumer_not-Approvable action environment kill_switch same
          ((evaluate_iff shipped at action environment kill_switch).0 h)
