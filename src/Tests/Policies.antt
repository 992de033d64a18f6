-- ===== src/Tests/Policies.antt =====
-- Judgements of the evaluator that is shipped.
use triovexa.Prelude.{
  String, Bool, true, false, List, [], ◌∷◌, ◌≡◌, ◌≢◌, refl, ◌⊎◌, inl, inr, ◌↔◌, Option, none, some,
}
use triovexa.Domain.{CandidateAction, awaiting, approval_required, deny}
use triovexa.Catalog.Default.{default_catalog}
use triovexa.Catalog.{get_definition}
use triovexa.Policy.{evaluate, new_evaluator}
use triovexa.Policy.Decisions.{Approvable, evaluate_iff}
use triovexa.Policy.Shipped.{shipped, shipped_environments, pause_consumer_denied}
use triovexa.Tests.Scenario.{restart}

abbrev pause : CandidateAction
pause = record (restart awaiting) { action_type = "pause_consumer" }

restart_judged :
    (evaluate shipped 5 (restart awaiting) "staging" false).decision ≡ approval_required
unfolding evaluate shipped new_evaluator default_catalog get_definition triovexa.Policy.rule_for
    triovexa.Policy.rule_of_definition triovexa.Prelude.get triovexa.Policy.medium_refusal
restart_judged = refl

evaluate_iff_example :
    ((evaluate shipped 5 (restart awaiting) "staging" false).decision ≡ approval_required)
    ↔ Approvable shipped (restart awaiting) "staging" false
evaluate_iff_example = evaluate_iff shipped 5 (restart awaiting) "staging" false

abbrev pause_demo : CandidateAction
pause_demo = record (restart awaiting) {
  action_type = "pause_demo_queue_consumer";
  target_resource = "demo-queue-consumer";
}

-- The case of evaluator_test.go for an enabled action of medium risk.
pause_demo_judged : (evaluate shipped 5 pause_demo "staging" false).decision ≡ approval_required
unfolding evaluate shipped new_evaluator default_catalog get_definition triovexa.Policy.rule_for
    triovexa.Policy.rule_of_definition triovexa.Prelude.get triovexa.Policy.medium_refusal
    triovexa.Topology.get_metadata triovexa.Topology.default_registry triovexa.Policy.risk_rule
pause_demo_judged = refl

abbrev staging : String
staging = "staging"

shipped_environments_example : (staging ≡ "local") ⊎ (staging ≡ "staging")
shipped_environments_example =
    shipped_environments 5 (restart awaiting) "staging" false restart_judged

pause_consumer_denied_example : (evaluate shipped 5 pause "staging" false).decision ≡ deny
pause_consumer_denied_example = pause_consumer_denied 5 pause "staging" false refl
