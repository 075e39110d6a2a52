-- ===== src/Policy/Validate.antt =====
-- `_validate_mapping` of policylatch/policy.py: the checks of a policy document. The keys of its mappings
-- are texts, and the messages do not list unknown names.
pub mod Laws
use mcp_guard.Approval.Request.{texts}
use mcp_guard.Base.{
  ℕ, String, ◌<>◌, Bool, true, false, not, ◌&&◌, ◌||◌, Option, none, some, List, [], ◌∷◌, length,
  ltb, leb, nat_eq, ◌==◌, if◌then◌else◌, any, all, contains, is_empty, codes, str_len, is_blank,
}
use mcp_guard.Base.Int.{pos}
use mcp_guard.Gateway.{object_field}
use mcp_guard.Json.{
  get, has, only_fields, equals_one, equals_text, nonblank_text, in_set, Fields, field, end, Value,
  obj, arr, str, int, float, bool, null, Items, cons, nil,
}
use mcp_guard.Validation.{is_huge}
use mcp_guard.Result.{
  ◌>>=◌, ◌>>◌, raise_if, for_each, policy_error, overflow_error, Result, err, ok,
}

abbrev pub profile_names : List String
profile_names = "balanced" ∷ "ci" ∷ "minimal" ∷ "strict" ∷ []

abbrev pub max_budgets : ℕ
max_budgets = 128

-- list(value), if that is a list of texts
unfoldable pub text_items : Items → Option (List String)
text_items nil = some []
text_items (cons (str s) rest) = elim (text_items rest) [ some ss ↦ some (s ∷ ss) | none ↦ none ]
text_items (cons _ rest) = none

unfoldable pub text_list : Option Value → Option (List String)
text_list (some (arr items)) = text_items items
text_list _ = none

-- _string_list
unfoldable pub string_list : String → Value → Result (Unit {0})
string_list location v = elim (text_list (some v)) [
  | none ↦ err (policy_error (location <> " must be a list of strings."))
  | some texts ↦
      raise_if (any is_blank texts) (policy_error (location <> " cannot contain empty patterns."))
]

-- data.items()
unfoldable pub pairs : Fields → List (String × Value)
pairs end = []
pairs (field k v rest) = (k, v) ∷ pairs rest

-- The keys of RULE_KEYS[section]; no keys for an unknown section.
unfoldable pub rule_keys : String → List String
rule_keys section =
    if section == "shell"
    then "deny_patterns" ∷ "warn_patterns" ∷ []
    else if section == "files"
    then "deny_paths" ∷ "warn_paths" ∷ []
    else if section == "network"
    then "allow_domains" ∷ "deny_domains" ∷ []
    else if section == "mcp_tools"
    then "allow_names" ∷ "deny_names" ∷ "deny_if_description_contains" ∷ "warn_if_name_contains"
      ∷ "warn_if_schema_contains" ∷ []
    else []

-- data.get(name, {}), if that is a mapping
unfoldable pub mapping : String → String → Fields → Result Fields
mapping name message raw =
    if has name raw
    then elim (object_field name raw) [ some fs ↦ ok fs | none ↦ err (policy_error message) ]
    else ok end

unfoldable pub validate_section : String × Value → Result (Unit {0})
validate_section (section, obj values) = do
  raise_if (not (only_fields (rule_keys section) values))
      (policy_error ("Unknown rule(s) in rules." <> section))
  for_each (λ (p : String × Value). string_list ("rules." <> (section <> ("." <> p.0))) p.1)
      (pairs values)
validate_section (section, _) = err (policy_error ("rules." <> (section <> " must be a mapping.")))

-- _BUDGET_ID
unfoldable pub is_budget_id : String → Bool
is_budget_id s =
    leb 1 (str_len s)
    && leb (str_len s) 64
    && all
        (λ c.
          (leb 65 c && leb c 90)
          || (leb 97 c && leb c 122)
          || (leb 48 c && leb c 57)
          || nat_eq c 46
          || nat_eq c 95
          || nat_eq c 45)
        (codes s)

-- A finite number above 0 that is no bool; an int too large for a float is refused before.
unfoldable pub is_positive : Option Value → Bool
is_positive (some (int (pos n))) = ltb 0 n
is_positive (some (float (pos z) k)) = ltb 0 z
is_positive _ = false

unfoldable pub is_int : Option Value → Bool
is_int (some (int n)) = true
is_int _ = false

unfoldable pub bool_or_missing : String → Fields → Bool
bool_or_missing name fs = elim (get name fs) [ none ↦ true | some (bool b) ↦ true | some _ ↦ false ]

unfoldable pub all_in : List String → Option (List String) → Bool
all_in options none = false
all_in options (some items) = all (contains options) items

unfoldable pub nonempty_in : List String → Option (List String) → Bool
nonempty_in options none = false
nonempty_in options (some items) = not (is_empty items) && all (contains options) items

abbrev budget_fields : List String
budget_fields =
    "metric" ∷ "limit" ∷ "window" ∷ "effect" ∷ "action_types" ∷ "per_tool" ∷ "count_duplicates"
    ∷ "payload_classes" ∷ []

abbrev pub budget_actions : List String
budget_actions = "file" ∷ "filesystem" ∷ "network" ∷ "shell" ∷ []

abbrev pub size_classes : List String
size_classes = "small" ∷ "medium" ∷ "large" ∷ []

unfoldable pub validate_fields : String → Fields → Result (Unit {0})
validate_fields name budget = do
  raise_if (not (only_fields budget_fields budget))
      (policy_error ("budgets." <> (name <> " contains unknown fields.")))
  metric ← in_set ("calls" ∷ "impact" ∷ "unique_targets" ∷ []) (get "metric" budget)
  raise_if (not metric) (policy_error ("budgets." <> (name <> ".metric is invalid.")))
  raise_if (is_huge (get "limit" budget)) (overflow_error "int too large to convert to float")
  raise_if (not (is_positive (get "limit" budget)))
      (policy_error ("budgets." <> (name <> ".limit must be a positive finite number.")))
  raise_if (not (equals_text "impact" (get "metric" budget)) && not (is_int (get "limit" budget)))
      (policy_error ("budgets." <> (name <> ".limit must be an integer for this metric.")))
  window ← in_set ("hour" ∷ "day" ∷ []) (get "window" budget)
  raise_if (not window) (policy_error ("budgets." <> (name <> ".window must be hour or day.")))
  effect ←
      (if has "effect" budget then in_set ("warn" ∷ "deny" ∷ []) (get "effect" budget) else ok true)
  raise_if (not effect) (policy_error ("budgets." <> (name <> ".effect must be warn or deny.")))
  raise_if (not (nonempty_in budget_actions (text_list (get "action_types" budget))))
      (policy_error ("budgets." <> (name <> ".action_types must list supported actions.")))
  raise_if (not (bool_or_missing "per_tool" budget))
      (policy_error ("budgets." <> (name <> ".per_tool must be boolean.")))
  raise_if (not (bool_or_missing "count_duplicates" budget))
      (policy_error ("budgets." <> (name <> ".count_duplicates must be boolean.")))
  raise_if
      (has "payload_classes" budget
        && not (all_in size_classes (text_list (get "payload_classes" budget))))
      (policy_error ("budgets." <> (name <> ".payload_classes is invalid.")))

unfoldable pub budget_mapping : String → Value → Result Fields
budget_mapping name (obj budget) = ok budget
budget_mapping name _ = err (policy_error ("budgets." <> (name <> " must be a mapping.")))

unfoldable pub validate_budget : String × Value → Result (Unit {0})
validate_budget (name, v) = do
  raise_if (not (is_budget_id name))
      (policy_error "Budget IDs may use 1-64 letters, numbers, dot, dash, or underscore.")
  budget ← budget_mapping name v
  validate_fields name budget

-- A text stands for a list of one.
unfoldable pub extends_list : Fields → Option (List String)
extends_list raw = elim (get "extends" raw) [
  | none ↦ some []
  | some (str s) ↦ some (s ∷ [])
  | some v ↦ text_list (some v)
]

unfoldable pub validate_profile : Option Value → Result (Unit {0})
validate_profile none = ok tt
validate_profile (some null) = ok tt
validate_profile (some v) = elim (nonblank_text (some v)) [
  | none ↦ err (policy_error "profile must be a non-empty built-in profile name.")
  | some name ↦
      raise_if (not (contains profile_names name))
        (policy_error ("Unknown policy profile '" <> (name <> "'.")))
]

unfoldable pub validate_extends : Option (List String) → Result (Unit {0})
validate_extends none =
    err (policy_error "extends must be a relative path or a list of relative paths.")
validate_extends (some paths) = do
  raise_if (any is_blank paths) (policy_error "extends cannot contain an empty path.")
  raise_if (ltb 16 (length paths)) (policy_error "extends cannot contain more than 16 paths.")

unfoldable pub validate_mapping : Fields → Result (Unit {0})
unfolding validate_profile validate_extends mapping
validate_mapping raw = do
  raise_if
      (not (
        only_fields
          ("version" ∷ "default_decision" ∷ "rules" ∷ "profile" ∷ "extends" ∷ "budgets" ∷ []) raw))
      (policy_error "Unknown top-level policy field(s).")
  raise_if (not (equals_one (get "version" raw)))
      (policy_error "Only policy version 1 is supported.")
  known ←
      (if has "default_decision" raw
        then in_set ("allow" ∷ "warn" ∷ "deny" ∷ []) (get "default_decision" raw)
        else ok true)
  raise_if (not known) (policy_error "default_decision must be allow, warn, or deny.")
  validate_profile (get "profile" raw)
  validate_extends (extends_list raw)
  rules ← mapping "rules" "rules must be a mapping." raw
  raise_if (not (only_fields ("shell" ∷ "files" ∷ "network" ∷ "mcp_tools" ∷ []) rules))
      (policy_error "Unknown rule section(s).")
  for_each validate_section (pairs rules)
  budgets ← mapping "budgets" "budgets must be a mapping with at most 128 entries." raw
  raise_if (ltb max_budgets (length (pairs budgets)))
      (policy_error "budgets must be a mapping with at most 128 entries.")
  for_each validate_budget (pairs budgets)
