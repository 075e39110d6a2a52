-- ===== src/Policy.antt =====
-- policylatch/policy.py: a resolved policy, as `load_policy` returns it.
pub mod Merge
pub mod Resolve
pub mod Validate
use mcp_guard.Base.{String, Bool, Option, List, []}
use mcp_guard.Base.Dict.{Dict, get_or}
use mcp_guard.Models.{Decision, Effect}
use mcp_guard.Json.{Value}

pub data Metric : Type 0 where
  calls impact unique_targets : Metric

pub data Window : Type 0 where
  hour day : Window

-- One entry of `budgets`, after validation. A missing optional field is `none`.
pub record Budget : Type 0 where
  pub metric : Metric
  pub limit : Value
  pub window : Window
  pub effect : Option Effect
  pub action_types : List String
  pub per_tool : Option Bool
  pub count_duplicates : Option Bool
  pub payload_classes : List String

abbrev pub Rules : Type 0
Rules = Dict (List String)

pub record Policy : Type 0 where
  pub default_decision : Decision
  pub rules : Dict Rules
  pub budgets : Dict Budget

-- policy["rules"].get(section, {}).get(name, [])
unfoldable pub patterns : String → String → Policy → List String
unfolding get_or
patterns section name policy = get_or [] name (get_or [] section policy.rules)
