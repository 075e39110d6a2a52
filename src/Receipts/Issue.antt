-- ===== src/Receipts/Issue.antt =====
-- policylatch/receipts.py: the hash of a policy, the rules that a report matched, the receipt of a
-- decision and the projections of a request. A policy is the dict that the loader returns.
use mcp_guard.Base.{
  String, Bool, false, not, ◌&&◌, ◌||◌, Option, none, some, List, [], ◌∷◌, ◌==◌, if◌then◌else◌,
  text_lt, Unicode,
}
use mcp_guard.Approval.Request.{sorted_set, texts}
use mcp_guard.Base.Int.{pos}
use mcp_guard.Json.{
  get, has, field_names, only_fields, equals_text, as_text, append_field, Fields, field, end, Value,
  obj, arr, str, int, bool, null, Items, cons, nil,
}
use mcp_guard.Jsonl.{hash, Coding}
use mcp_guard.Receipts.{object_at}
use mcp_guard.Reports.{validate_report, reasons_of}
use mcp_guard.Result.{◌>>=◌, Result, ok}

unfoldable pub get_value : Value → String → Fields → Value
get_value default name fields = elim (get name fields) [ none ↦ default | some v ↦ v ]

-- canonical_policy_hash
unfoldable pub canonical_policy_hash : Coding → Fields → Result String
unfolding get_value
canonical_policy_hash c policy = hash c (
    obj (
      field "version" (get_value null "version" policy) (
        field "default_decision" (get_value null "default_decision" policy) (
          field "rules" (get_value null "rules" policy)
            (field "budgets" (get_value (obj end) "budgets" policy) end)))))

pub record MatchedRule : Type 0 where
  pub id : String
  pub effect : String
  pub source : String

-- The order of the triples (rule, effect, source).
rule_lt : MatchedRule → MatchedRule → Bool
rule_lt a b =
    text_lt a.id b.id
    || (a.id == b.id
        && (text_lt a.effect b.effect || (a.effect == b.effect && text_lt a.source b.source)))

rule_eq : MatchedRule → MatchedRule → Bool
rule_eq a b = a.id == b.id && (a.effect == b.effect && a.source == b.source)

insert_rule : MatchedRule → List MatchedRule → List MatchedRule
unfolding rule_lt rule_eq
insert_rule r [] = r ∷ []
insert_rule r (s ∷ rules) =
    let rest = s ∷ insert_rule r rules in
    if rule_eq r s then s ∷ rules else if rule_lt r s then r ∷ s ∷ rules else rest

text_in : String → Fields → String
unfolding get_value
text_in name fields = as_text (get_value (str "") name fields)

-- The triple of a reason, put into the set.
add_reason : Fields → Value → List MatchedRule → List MatchedRule
unfolding insert_rule text_in
add_reason sources (obj reason) rules =
    insert_rule
      (record {
        id = text_in "rule" reason;
        effect = text_in "effect" reason;
        source = as_text (get_value (str "runtime") (text_in "rule" reason) sources);
      })
      rules
add_reason sources other rules = rules

add_reasons : Fields → Items → List MatchedRule → List MatchedRule
unfolding add_reason
add_reasons sources nil rules = rules
add_reasons sources (cons x xs) rules = add_reason sources x (add_reasons sources xs rules)

add_rows : Fields → Items → List MatchedRule → List MatchedRule
unfolding add_reasons
add_rows sources nil rules = rules
add_rows sources (cons row rows) rules =
    add_reasons sources (reasons_of row) (add_rows sources rows rules)

-- policy_provenance(policy)
unfoldable pub policy_provenance : Fields → Fields
policy_provenance policy = object_at "_provenance" policy

-- _matched_rules
unfoldable pub matched_rules : Fields → Fields → Result (List MatchedRule)
unfolding add_rows policy_provenance
matched_rules report policy = do
  rows ← validate_report report
  ok (add_rows (object_at "rule_sources" (policy_provenance policy)) rows [])

rule_items : List MatchedRule → Items
rule_items [] = nil
rule_items (r ∷ rules) =
    cons
      (obj
        (field "id" (str r.id) (field "effect" (str r.effect) (field "source" (str r.source) end))))
      (rule_items rules)

unfoldable pub decision_receipt : Coding → String → Fields → Fields → Fields → Result Fields
unfolding rule_items text_in get_value
decision_receipt c version report policy projection = do
  _ ← validate_report report
  let provenance = policy_provenance policy
  policy_hash ← canonical_policy_hash c policy
  request ← hash c (obj projection)
  rules ← matched_rules report policy
  let core = field "schema_version" (int (pos 1)) (
      field "kind" (str "decision_receipt") (
        field "evaluator"
          (obj (field "name" (str "policylatch") (field "version" (str version) end)))
          (field "policy"
            (obj (
              field "hash" (str policy_hash) (
                field "profiles" (get_value (arr nil) "profiles" provenance)
                  (field "sources" (get_value (arr nil) "sources" provenance) end))))
            (field "request"
              (obj (
                field "projection"
                  (str (as_text (get_value (str "decision") "contract" projection)))
                  (field "fingerprint" (str request) end)))
              (field "decision" (get_value null "decision" report) (
                field "rules" (arr (rule_items rules)) (
                  field "execution" (obj (field "claimed" (bool false) end))
                    (field "extensions" (obj end) end))))))))
  fingerprint ← hash c (obj core)
  ok (append_field core "receipt_fingerprint" (str fingerprint))

-- sorted(name for name in names if name in fields), for names in order
fields_present : List String → Fields → Items
fields_present [] fields = nil
fields_present (name ∷ names) fields =
    let rest = fields_present names fields in if has name fields then cons (str name) rest else rest

target_fields : List String
target_fields = "command" ∷ "domain" ∷ "path" ∷ "url" ∷ []

-- gateway_request_projection
unfoldable pub gateway_request_projection : Fields → Fields
unfolding fields_present target_fields
gateway_request_projection request =
    let params = object_at "params" request in
    let arguments = object_at "arguments" params in
    field "contract" (str "mcp-tools-call-v1") (
      field "method"
        (str (if equals_text "tools/call" (get "method" request) then "tools/call" else "invalid"))
        (field "argument_fields" (arr (fields_present target_fields arguments)) (
          field "unclassified_arguments" (bool (not (only_fields target_fields arguments)))
            (field "task_augmented" (bool (has "task" params)) end))))

module _ ⦃u : Unicode⦄ where
  normalized_type : Option Value → String
  normalized_type (some (str s)) = u.casefold s
  normalized_type _ = "invalid"

  -- action_request_projection
  unfoldable pub action_request_projection : Fields → Fields
  unfolding normalized_type fields_present target_fields
  action_request_projection action = field "contract" (str "action-v1") (
      field "action_type" (str (normalized_type (get "action_type" action))) (
        field "fields" (arr (fields_present target_fields action)) (
          field "actor_present" (bool (has "actor" action)) (
            field "tool_present" (bool (has "tool" action)) (
              field "budget_fields"
                (arr (texts (sorted_set (field_names (object_at "budget" action))))) end)))))
