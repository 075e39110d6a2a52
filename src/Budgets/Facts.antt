-- ===== src/Budgets/Facts.antt =====
-- The facts on an action that the journal keeps for budgets: action_budget_facts of policylatch/budgets.py.
use mcp_guard.Base.{String, Option, none, some, [], ◌∷◌, leb, if◌then◌else◌, Unicode}
use mcp_guard.Base.Int.{pos}
use mcp_guard.Journal.{pick}
use mcp_guard.Json.{get, as_text, Fields, field, end, Value, obj, str, int, null}
use mcp_guard.Jsonl.{Coding}
use mcp_guard.Receipts.{object_at}
use mcp_guard.Receipts.Issue.{get_value}
use mcp_guard.Result.{◌>>=◌, ◌>>◌, Result, ok}
use mcp_guard.ToolResult.Findings.{text_fingerprint}
use mcp_guard.Validation.{validate_action}

-- action.get("budget") if it is an object, else {}
budget_of : Fields → Fields
budget_of action = object_at "budget" action

unfoldable pub payload_size_class : Option Value → String
payload_size_class (some (int (pos n))) =
    if leb n 1048576 then "small" else if leb n 104857600 then "medium" else "large"
payload_size_class _ = "unknown"

-- value if the field is there and not None, else None
or_null : Option Value → Value
or_null none = null
or_null (some v) = v

unfoldable pub text_digest : Coding → String → Option Value → Result Value
text_digest c label (some (str s)) = do digest ← text_fingerprint c label s; ok (str digest)
text_digest c label _ = ok null

module _ ⦃u : Unicode⦄ (c : Coding) where
  action_type_text : Fields → String
  action_type_text action =
      u.casefold (elim (get "action_type" action) [ none ↦ "" | some v ↦ as_text v ])

  -- _action_fingerprint
  unfoldable pub action_fingerprint : Fields → Result String
  unfolding action_type_text or_null
  action_fingerprint action = do
    projection ← c.dumps (
        obj (
          field "contract" (str "budget-action-v1") (
            field "action_type" (str (action_type_text action)) (
              field "values"
                (obj (
                  pick ("actor" ∷ "tool" ∷ "command" ∷ "cwd" ∷ "path" ∷ "url" ∷ "domain" ∷ [])
                    action))
                (field "budget" (get_value (obj end) "budget" action) end)))))
    text_fingerprint c "budget-action" projection

  unfoldable pub action_budget_facts : Fields → Result Fields
  unfolding action_fingerprint budget_of or_null action_type_text payload_size_class
  action_budget_facts action = do
    validate_action action
    let budget = budget_of action
    fingerprint ← action_fingerprint action
    target ← text_digest c "budget-target" (get "target_id" budget)
    tool ← text_digest c "budget-tool" (get "tool" action)
    ok (
        field "action_fingerprint" (str fingerprint) (
          field "action_type" (str (action_type_text action)) (
            field "confirmation" (get_value (str "unknown") "confirmation" budget) (
              field "impact" (or_null (get "impact" budget)) (
                field "payload_size_class" (str (payload_size_class (get "payload_bytes" budget)))
                  (field "target_fingerprint" target (field "tool_fingerprint" tool end)))))))
