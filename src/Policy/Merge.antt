-- ===== src/Policy/Merge.antt =====
-- How policylatch/policy.py merges one policy into another, with the sources of each value.
pub mod Laws
use mcp_guard.Base.{
  String, ◌<>◌, not, Option, none, some, List, [], ◌∷◌, ◌++◌, ◌==◌, if◌then◌else◌, contains,
}
use mcp_guard.Base.Dict.{Dict, get_or, insert}
use mcp_guard.Models.{Decision, warn}
use mcp_guard.Policy.{Rules, Budget, Policy}

pub record Provenance : Type 0 where
  pub profiles : List String
  pub sources : List String
  pub default_decision_source : String
  pub rule_sources : Dict String
  pub budget_sources : Dict String

pub record Resolved : Type 0 where
  pub policy : Policy
  pub provenance : Provenance

-- What a policy file gives itself. A missing `rules` or `budgets` is empty.
pub record Overlay : Type 0 where
  pub default_decision : Option Decision
  pub rules : Dict Rules
  pub budgets : Dict Budget

-- _empty_policy
unfoldable pub empty_policy : Resolved
empty_policy = record {
  policy = record { default_decision = warn; rules = []; budgets = [] };
  provenance = record {
    profiles = [];
    sources = [];
    default_decision_source = "built-in-default";
    rule_sources = [];
    budget_sources = [];
  };
}

-- target.update(values)
unfoldable pub put_all {ℓ} : {V : Type ℓ} → Dict V → Dict V → Dict V
put_all [] target = target
put_all ((k, v) ∷ rest) target = put_all rest (insert k v target)

-- The loop over the sections of the rules.
unfoldable pub merge_rules : Dict Rules → Dict Rules → Dict Rules
merge_rules [] target = target
merge_rules ((section, values) ∷ rest) target =
    merge_rules rest (insert section (put_all values (get_or [] section target)) target)

-- The same source for each of the keys, with a prefix.
source_keys {ℓ} : {V : Type ℓ} → String → String → Dict V → Dict String → Dict String
source_keys prefix source [] target = target
source_keys prefix source ((k, _) ∷ rest) target =
    source_keys prefix source rest (insert (prefix <> k) source target)

section_sources : String → Dict Rules → Dict String → Dict String
unfolding source_keys
section_sources source [] target = target
section_sources source ((section, values) ∷ rest) target =
    section_sources source rest (source_keys (section <> ".") source values target)

-- Appended unless it is there.
unfoldable pub add_new : String → List String → List String
add_new s xs = if contains xs s then xs else xs ++ (s ∷ [])

unfoldable pub add_all_new : List String → List String → List String
unfolding add_new
add_all_new [] target = target
add_all_new (s ∷ ss) target = add_all_new ss (add_new s target)

-- _merge
unfoldable pub merge : Resolved → Overlay → String → Resolved
unfolding section_sources source_keys
merge target overlay source = record {
  policy = record {
    default_decision = elim overlay.default_decision [
      | some d ↦ d
      | none ↦ target.policy.default_decision
    ];
    rules = merge_rules overlay.rules target.policy.rules;
    budgets = put_all overlay.budgets target.policy.budgets;
  };
  provenance = record {
    profiles = target.provenance.profiles;
    sources = add_new source target.provenance.sources;
    default_decision_source = elim overlay.default_decision [
      | some _ ↦ source
      | none ↦ target.provenance.default_decision_source
    ];
    rule_sources =
        source_keys "budgets." source overlay.budgets
          (section_sources source overlay.rules target.provenance.rule_sources);
    budget_sources = source_keys "" source overlay.budgets target.provenance.budget_sources;
  };
}

-- _merge_resolved. The sources of the rules of `resolved` are those that it merges: every rule has one.
unfoldable pub merge_resolved : Resolved → Resolved → Resolved
merge_resolved target resolved =
    let sets_default = not (resolved.provenance.default_decision_source == "built-in-default") in
    record {
      policy = record {
        default_decision =
            if sets_default
            then resolved.policy.default_decision
            else target.policy.default_decision;
        rules = merge_rules resolved.policy.rules target.policy.rules;
        budgets = put_all resolved.policy.budgets target.policy.budgets;
      };
      provenance = record {
        profiles = add_all_new resolved.provenance.profiles target.provenance.profiles;
        sources = add_all_new resolved.provenance.sources target.provenance.sources;
        default_decision_source =
            if sets_default
            then resolved.provenance.default_decision_source
            else target.provenance.default_decision_source;
        rule_sources = put_all resolved.provenance.rule_sources target.provenance.rule_sources;
        budget_sources =
            put_all resolved.provenance.budget_sources target.provenance.budget_sources;
      };
    }
