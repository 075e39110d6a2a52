-- ===== src/Tests/Policies.antt =====
-- Examples for policylatch/policy.py.
use mcp_guard.Base.{
  String, ◌<>◌, ◌≡◌, refl, true, false, none, some, [], ◌∷◌, ◌==◌, if◌then◌else◌, is_space,
  is_blank, ◌≤◌, List, length, All,
}
use mcp_guard.Base.Dict.{Dict, has_key}
use mcp_guard.Policy.{Rules}
use mcp_guard.Policy.Merge.{merge_rules, Resolved}
use mcp_guard.Policy.Merge.Laws.{or_else, rule_of, rule_of-merge_rules}
use mcp_guard.Policy.Resolve.{
  resolve_file, PolicyFile, Files, count_read, read_mapping, resolve_reference, inherit_all,
  max_policy_total_bytes, max_policy_files, load_policy,
}
use mcp_guard.Result.{ok, raise_if, for_each}
use mcp_guard.Matching.{is_infix}
use mcp_guard.Base.Int.{pos}
use mcp_guard.Json.{
  Fields, field, end, obj, arr, str, int, cons, nil, get, has, field_names, only_fields, equals_one,
  equals_text, in_set,
}
use mcp_guard.Policy.Validate.{
  validate_mapping, text_items, text_list, pairs, mapping, is_budget_id, is_positive, is_int,
  bool_or_missing, all_in, nonempty_in, validate_fields, budget_mapping, validate_budget,
  extends_list, validate_profile, validate_extends,
}
use mcp_guard.Policy.Validate.Laws.{validate_mapping-IsValid, IsValid}
use mcp_guard.Gateway.{object_field}
use mcp_guard.Policy.Resolve.Visits.{total_size, IsSmall, load_policy-Visits, Visits}
use mcp_guard.Validation.{is_huge}

abbrev base_rules : Dict Rules
base_rules = ("shell", ("deny_patterns", "rm" ∷ []) ∷ ("warn_patterns", "curl" ∷ []) ∷ []) ∷ []

abbrev own_rules : Dict Rules
own_rules = ("shell", ("deny_patterns", "sudo" ∷ []) ∷ []) ∷ []

rule_of-merge_rules_example :
    rule_of "shell" "warn_patterns" (merge_rules own_rules base_rules)
    ≡ or_else
        (rule_of "shell" "warn_patterns" own_rules)
        (rule_of "shell" "warn_patterns" base_rules)
unfolding has_key
rule_of-merge_rules_example =
    rule_of-merge_rules own_rules base_rules "shell" "warn_patterns" (refl, (refl, tt), tt)

abbrev file_of : String → PolicyFile
file_of path = record {
  profile = none;
  extends = if path == "policy.yml" then "base.yml" ∷ [] else [];
  own = record { default_decision = none; rules = own_rules; budgets = [] };
}

-- A policy that extends `base.yml` in the same directory.
abbrev disk : Files
disk = record {
  is_absolute = λ path. false;
  candidate = λ current reference. reference;
  is_inside = λ root path. true;
  size = λ path. some 100;
  document = λ path. ok (file_of path);
  label = λ path root. "policy:" <> path;
}

loaded_policy :
    (r : Resolved) × (load_policy disk "." "policy.yml" ≡ ok (r, record { files = 2; bytes = 200 }))
unfolding load_policy resolve_file raise_if read_mapping count_read inherit_all resolve_reference
    is_infix
loaded_policy = (_, refl)

load_policy-Visits_example :
    (paths : List String) × Visits disk "." "policy.yml" paths
    × (length paths ≤ max_policy_files)
    × (total_size disk "." paths ≤ max_policy_total_bytes)
    × All (IsSmall disk ".") paths
load_policy-Visits_example =
    load_policy-Visits disk "." "policy.yml" loaded_policy.0 (record { files = 2; bytes = 200 })
      loaded_policy.1

abbrev budget : Fields
budget = field "metric" (str "calls") (
    field "limit" (int (pos 3))
      (field "window" (str "hour") (field "action_types" (arr (cons (str "shell") nil)) end)))

abbrev document : Fields
document = field "version" (int (pos 1)) (
    field "extends" (str "base.yml")
      (field "budgets" (obj (field "shell-calls" (obj budget) end)) end))

validate_mapping-IsValid_example : IsValid document
unfolding validate_mapping raise_if only_fields equals_one get has extends_list is_blank for_each
    pairs object_field validate_budget is_budget_id budget_mapping validate_fields in_set is_huge
    is_positive equals_text field_names all_in bool_or_missing is_int mapping nonempty_in text_items
    text_list validate_extends validate_profile is_space
validate_mapping-IsValid_example = validate_mapping-IsValid document refl
