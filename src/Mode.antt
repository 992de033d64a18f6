-- ===== src/Mode.antt =====
-- internal/mode/manager.go: which reasoning and which observability are in use.
use triovexa.Prelude.{
  String, Option, none, some, str_eq, trim_space, to_lower, if◌then◌else◌, ◌≡◌, refl,
}

pub data Reasoning : Type 0 where
  heuristic llm : Reasoning

pub data Observability : Type 0 where
  demo grafana : Observability

-- Manager, and Snapshot too: its mutex makes each operation one step.
pub record Manager : Type 0 where
  pub reasoning : Reasoning
  pub observability : Observability

-- `none` is the error that names the mode.
unfoldable pub parse_reasoning : String → Option Reasoning
parse_reasoning value =
    if str_eq (to_lower (trim_space value)) "heuristic"
    then some heuristic
    else if str_eq (to_lower (trim_space value)) "llm"
    then some llm
    else none

unfoldable pub parse_observability : String → Option Observability
parse_observability value =
    if str_eq (to_lower (trim_space value)) "demo"
    then some demo
    else if str_eq (to_lower (trim_space value)) "grafana"
    then some grafana
    else none

unfoldable pub normalize_reasoning : String → Reasoning
normalize_reasoning value = elim (parse_reasoning value) [ none ↦ heuristic | some parsed ↦ parsed ]

unfoldable pub normalize_observability : String → Observability
normalize_observability value = elim (parse_observability value) [
  | none ↦ demo
  | some parsed ↦ parsed
]

unfoldable pub new_manager : String → String → Manager
unfolding normalize_reasoning normalize_observability
new_manager reasoning observability = record {
  reasoning = normalize_reasoning reasoning;
  observability = normalize_observability observability;
}

-- The manager after, which is also the answer.
unfoldable pub set_reasoning : String → Manager → Manager
unfolding normalize_reasoning
set_reasoning value m = record m { reasoning = normalize_reasoning value }

unfoldable pub set_observability : String → Manager → Manager
unfolding normalize_observability
set_observability value m = record m { observability = normalize_observability value }

-- The texts of the constants.
abbrev pub reasoning_text : Reasoning → String
reasoning_text heuristic = "heuristic"
reasoning_text llm = "llm"

abbrev pub observability_text : Observability → String
observability_text demo = "demo"
observability_text grafana = "grafana"

-- The texts of the settings of a manager make the same manager again.
pub new_manager-texts :
    (m : Manager)
    → new_manager (reasoning_text m.reasoning) (observability_text m.observability) ≡ m
unfolding new_manager normalize_reasoning normalize_observability parse_reasoning
    parse_observability to_lower trim_space
new_manager-texts m = both m.reasoning m.observability
  where
    reasons : (r : Reasoning) → normalize_reasoning (reasoning_text r) ≡ r
    reasons heuristic = refl
    reasons llm = refl

    observes : (o : Observability) → normalize_observability (observability_text o) ≡ o
    observes demo = refl
    observes grafana = refl

    both :
        (r : Reasoning) (o : Observability)
        → new_manager (reasoning_text r) (observability_text o)
          ≡ record { reasoning = r; observability = o }
    both r o = rw (reasons r, observes o) refl
