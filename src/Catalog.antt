-- ===== src/Catalog.antt =====
-- internal/execution/catalog.go: the allowlist of actions.
pub mod Default
use triovexa.Prelude.{ℕ, String, Bool, List, Option, Map, get}
use triovexa.Domain.{RiskLevel, Time}

pub record ParameterDefinition : Type 0 where
  pub name : String
  pub type : String
  pub required : Bool
  pub description : String

pub record ActionDefinition : Type 0 where
  pub key : String
  pub description : String
  pub risk_level : RiskLevel
  pub needs_approval : Bool
  pub executable : Bool
  pub supports_rollback : Bool
  pub rollback_action_key : String
  pub allowed_environments : List String
  pub allowed_targets : List String
  pub max_execution_attempts : ℕ
  pub execution_cooldown : Time
  pub parameters : List ParameterDefinition

abbrev pub Catalog : Type 0
Catalog = Map ActionDefinition

unfoldable pub get_definition : Catalog → String → Option ActionDefinition
get_definition c key = get key c
