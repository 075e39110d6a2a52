-- ===== src/Policy/Validate/Laws.antt =====
-- What a policy document that policylatch/policy.py accepts satisfies.
use mcp_guard.Base.{
  String, ◌≡◌, refl, Bool, true, false, not, ◌&&◌, List, [], ◌∷◌, arith, if◌then◌else◌, ◌≤◌, Option,
  none, some, length, All, All-map,
}
use mcp_guard.Json.{get, has, equals_text, in_set, Fields, Value, obj, equals_one}
use mcp_guard.Policy.Validate.{
  text_list, is_budget_id, is_positive, is_int, nonempty_in, budget_actions, validate_fields,
  validate_budget, max_budgets, pairs, mapping, validate_section, budget_mapping, extends_list,
  validate_profile, validate_extends, validate_mapping,
}
use mcp_guard.Result.{for_each, >>=-eq-ok, raise_if-eq-ok, Result, ok, raise_if, policy_error, err}
use mcp_guard.Gateway.{object_field}
use mcp_guard.Journal.Append.{first}
use mcp_guard.Journal.Append.Invariant.{is_whole}

for_each-All {ℓ} :
    {A : Type ℓ} (f : A → Result (Unit {0})) (xs : List A)
    → for_each f xs ≡ ok tt
    → All (λ x. f x ≡ ok tt) xs
unfolding for_each
for_each-All f [] h = tt
for_each-All f (x ∷ xs) h =
    let (u, first, rest) = >>=-eq-ok (f x) _ h in (first, for_each-All f xs rest)

-- A budget has an id of 1 to 64 allowed characters, a positive limit that is an integer unless it
-- limits the impact, and action types.
pub record IsBudget (entry : String × Value) : Type 0 where
  pub fields : Fields
  pub is_mapping : entry.1 ≡ obj fields
  pub id : is_budget_id entry.0 ≡ true
  pub limit : is_positive (get "limit" fields) ≡ true
  pub whole :
      equals_text "impact" (get "metric" fields) ≡ false → is_int (get "limit" fields) ≡ true
  pub actions : nonempty_in budget_actions (text_list (get "action_types" fields)) ≡ true

of_not : (b : Bool) → not b ≡ false → b ≡ true
of_not b h = ground arith

whole_of :
    (is_impact is_whole : Bool)
    → (not is_impact && not is_whole) ≡ false
    → is_impact ≡ false
    → is_whole ≡ true
whole_of is_impact is_whole h e = ground arith

budget_mapping-ok :
    (name : String) (v : Value) (budget : Fields)
    → budget_mapping name v ≡ ok budget
    → v ≡ obj budget
unfolding budget_mapping
budget_mapping-ok name v budget h = ground arith

validate_budget-IsBudget : (entry : String × Value) → validate_budget entry ≡ ok tt → IsBudget entry
unfolding validate_budget validate_fields
validate_budget-IsBudget (name, v) h =
    let (named, h0) = raise_if-eq-ok _ _ _ h in
    let (budget, found, h1) = >>=-eq-ok (budget_mapping name v) _ h0 in
    let (known, h2) = raise_if-eq-ok _ _ _ h1 in
    let (metric, member, h3) = >>=-eq-ok (in_set _ (get "metric" budget)) _ h2 in
    let (has_metric, h4) = raise_if-eq-ok _ _ _ h3 in
    let (convertible, h4') = raise_if-eq-ok _ _ _ h4 in
    let (positive, h5) = raise_if-eq-ok _ _ _ h4' in
    let (integral, h6) = raise_if-eq-ok _ _ _ h5 in
    let (window, wanted, h7) = >>=-eq-ok (in_set _ (get "window" budget)) _ h6 in
    let (has_window, h8) = raise_if-eq-ok _ _ _ h7 in
    let (effect, given, h9) =
      >>=-eq-ok
        (if has "effect" budget
          then in_set ("warn" ∷ "deny" ∷ []) (get "effect" budget)
          else ok true)
        _ h8 in
    let (has_effect, h10) = raise_if-eq-ok _ _ _ h9 in
    let (acts, h11) = raise_if-eq-ok _ _ _ h10 in
    record {
      fields = budget;
      is_mapping = budget_mapping-ok name v budget found;
      id = of_not _ named;
      limit = of_not _ positive;
      whole = whole_of _ _ integral;
      actions = of_not _ acts;
    }

-- An accepted document has version 1, at most 16 paths that it extends, and at most 128 budgets, each
-- with a valid id, limit and list of actions.
pub record IsValid (raw : Fields) : Type 0 where
  pub version : equals_one (get "version" raw) ≡ true
  pub paths : List String
  pub has_paths : extends_list raw ≡ some paths
  pub few_paths : length paths ≤ 16
  pub budgets : Fields
  pub has_budgets : has "budgets" raw ≡ true → object_field "budgets" raw ≡ some budgets
  pub few_budgets : length (pairs budgets) ≤ max_budgets
  pub valid_budgets : All IsBudget (pairs budgets)

validate_extends-ok :
    (o : Option (List String))
    → validate_extends o ≡ ok tt
    → (paths : List String) × (o ≡ some paths) × (length paths ≤ 16)
unfolding validate_extends raise_if
validate_extends-ok none h = cc
validate_extends-ok (some paths) h = (paths, refl, ground arith)

mapping-ok :
    (name message : String) (raw fs : Fields)
    → mapping name message raw ≡ ok fs
    → has name raw ≡ true
    → object_field name raw ≡ some fs
unfolding mapping
mapping-ok name message raw fs h present = found_mapping (object_field name raw) (rw present at h)
  where
    found_mapping :
        (o : Option Fields)
        → elim o as (λ _. Result Fields) [ some gs ↦ ok gs | none ↦ err (policy_error message) ]
          ≡ ok fs
        → o ≡ some fs
    found_mapping none h = cc
    found_mapping (some gs) h = cc

-- A policy document that passes the checks has version 1, at most 16 paths that it extends, and at
-- most 128 budgets, each with a valid id, a positive limit and supported actions.
pub validate_mapping-IsValid : (raw : Fields) → validate_mapping raw ≡ ok tt → IsValid raw
unfolding validate_mapping
validate_mapping-IsValid raw h =
    let (known, h1) = raise_if-eq-ok _ _ _ h in
    let (version, h2) = raise_if-eq-ok _ _ _ h1 in
    let (default, given, h3) =
      >>=-eq-ok
        (if has "default_decision" raw
          then in_set ("allow" ∷ "warn" ∷ "deny" ∷ []) (get "default_decision" raw)
          else ok true)
        _ h2 in
    let (decides, h4) = raise_if-eq-ok _ _ _ h3 in
    let (_, profile, h5) = >>=-eq-ok (validate_profile (get "profile" raw)) _ h4 in
    let (_, extended, h6) = >>=-eq-ok (validate_extends (extends_list raw)) _ h5 in
    let (rules, has_rules, h7) = >>=-eq-ok (mapping "rules" _ raw) _ h6 in
    let (sections, h8) = raise_if-eq-ok _ _ _ h7 in
    let (_, each, h9) = >>=-eq-ok (for_each validate_section (pairs rules)) _ h8 in
    let (budgets, has_budgets, h10) = >>=-eq-ok (mapping "budgets" _ raw) _ h9 in
    let (few, h11) = raise_if-eq-ok _ _ _ h10 in
    let (paths, has_paths, few_paths) = validate_extends-ok (extends_list raw) extended in
    record {
      version = of_not _ version;
      paths = paths;
      has_paths = has_paths;
      few_paths = few_paths;
      budgets = budgets;
      has_budgets = mapping-ok "budgets" _ raw budgets has_budgets;
      few_budgets = ground (arith, few);
      valid_budgets =
          All-map validate_budget-IsBudget (pairs budgets)
            (for_each-All validate_budget (pairs budgets) h11);
    }
