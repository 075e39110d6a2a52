-- ===== src/ToolResult/Scan.antt =====
-- scan_tool_result of policylatch/result_scanner.py: the values, the outcome and the report.
use mcp_guard.Base.{
  String, ℕ, suc, ◌<>◌, Bool, not, ◌&&◌, ◌||◌, none, some, List, [], ◌∷◌, length, filter, ◌==◌,
  if◌then◌else◌, any, text_lt, decimal_text, Unicode,
}
use mcp_guard.Approval.Provider.{outcome}
use mcp_guard.Approval.Request.{
  texts, decision_text, ScanReport, Outcome, clean, review, block_next_step,
}
use mcp_guard.Base.Int.{pos}
use mcp_guard.Json.{
  get, as_text, Fields, field, end, Value, obj, arr, str, int, bool, null, Items, cons, nil,
}
use mcp_guard.Jsonl.{Coding}
use mcp_guard.Models.{is_denial, Reason, Decision, allow, warn, deny, Effect, warns, denies}
use mcp_guard.Receipts.{object_at}
use mcp_guard.Receipts.Issue.{get_value, decision_receipt}
use mcp_guard.Result.{◌>>=◌, ◌>>◌, Result, ok}
use mcp_guard.ToolResult.{validate_tool_result}
use mcp_guard.ToolResult.Findings.{text_fingerprint, scan_values, scan_names, Findings}
use mcp_guard.ToolResult.Patterns.{prompt_markers, exfiltration_markers}

insert_named : String × String → List (String × String) → List (String × String)
insert_named p [] = p ∷ []
insert_named p (q ∷ qs) =
    let rest = q ∷ insert_named p qs in if text_lt p.0 q.0 then p ∷ q ∷ qs else rest

-- sorted(fields.items(), key=name), for fields that hold texts; a name stands in a dict once
unfoldable pub sorted_fields : Fields → List (String × String)
unfolding insert_named
sorted_fields end = []
sorted_fields (field name v fs) = insert_named (name, as_text v) (sorted_fields fs)

field_values : ℕ → List (String × String) → List (String × String)
field_values index [] = []
field_values index ((name, text) ∷ rest) =
    ("field-value:" <> decimal_text index, text) ∷ field_values (suc index) rest

-- data.get("content", "")
unfoldable pub content_text : Fields → String
content_text result = elim (get "content" result) [ none ↦ "" | some v ↦ as_text v ]

unfoldable pub result_fields : Fields → List (String × String)
unfolding sorted_fields
result_fields result = sorted_fields (object_at "fields" result)

-- The values with their locations: the content, then the fields in the order of their names.
unfoldable pub located_values : Fields → List (String × String)
unfolding field_values content_text result_fields
located_values result = ("content", content_text result) ∷ field_values 0 (result_fields result)

item_texts : Items → List String
item_texts nil = []
item_texts (cons x xs) = as_text x ∷ item_texts xs

-- data.get("expected_domains", [])
unfoldable pub expected_domains : Fields → List String
unfolding item_texts
expected_domains result = elim (get "expected_domains" result) [
  | none ↦ []
  | some found ↦ elim found [ arr xs ↦ item_texts xs | _ ↦ [] ]
]

reason_lt : Reason → Reason → Bool
reason_lt a b = text_lt a.rule b.rule || (a.rule == b.rule && text_lt a.matched b.matched)

-- Behind the reasons that are not greater, since the sort is stable.
unfoldable pub insert_reason : Reason → List Reason → List Reason
unfolding reason_lt
insert_reason r [] = r ∷ []
insert_reason r (s ∷ rs) =
    let rest = s ∷ insert_reason r rs in if reason_lt r s then r ∷ s ∷ rs else rest

-- findings.sort(key=(rule, matched)), which takes the findings from the first on
unfoldable pub sort_onto : List Reason → List Reason → List Reason
unfolding insert_reason
sort_onto sorted [] = sorted
sort_onto sorted (r ∷ rs) = sort_onto (insert_reason r sorted) rs

unfoldable pub outcome_of : List Reason → Outcome
outcome_of [] = clean
outcome_of (r ∷ rs) = if any is_denial (r ∷ rs) then block_next_step else review

unfoldable pub outcome_decision : Outcome → Decision
outcome_decision clean = allow
outcome_decision review = warn
outcome_decision block_next_step = deny

outcome_text : Outcome → String
outcome_text clean = "clean"
outcome_text review = "review"
outcome_text block_next_step = "block-next-step"

outcome_risk : Outcome → String
outcome_risk clean = "low"
outcome_risk review = "medium"
outcome_risk block_next_step = "high"

outcome_advice : Outcome → String
outcome_advice clean = "Continue only within the original request scope."
outcome_advice review = "Require review before using this result in another action."
outcome_advice block_next_step = "Do not feed this result into another tool or agent step."

effect_text : Effect → String
effect_text warns = "warn"
effect_text denies = "deny"

reason_items : List Reason → Items
unfolding effect_text
reason_items [] = nil
reason_items (r ∷ rs) =
    cons
      (obj (
        field "rule" (str r.rule) (
          field "effect" (str (effect_text r.effect))
            (field "matched" (str r.matched) (field "message" (str r.message) end)))))
      (reason_items rs)

effect_count : (Reason → Bool) → List Reason → Value
effect_count p rs = int (pos (length (filter p rs)))

scanner_source : Value
scanner_source = str "builtin:tool-result-v1"

text_array : List String → Value
text_array ss = arr (texts ss)

-- _scanner_policy
unfoldable pub scanner_policy : Fields
unfolding scanner_source text_array
scanner_policy = field "version" (int (pos 1)) (
    field "default_decision" (str "allow") (
      field "rules"
        (obj (
          field "tool_result"
            (obj (
              field "prompt_markers" (text_array prompt_markers) (
                field "exfiltration_markers" (text_array exfiltration_markers)
                  (field "secret_pattern_count" (int (pos 3)) end))))
            end))
        (field "_provenance"
          (obj (
            field "profiles" (arr nil) (
              field "sources" (arr (cons scanner_source nil)) (
                field "default_decision_source" scanner_source (
                  field "rule_sources"
                    (obj (
                      field "tool-result.exfiltration-direction" scanner_source (
                        field "tool-result.external-url" scanner_source (
                          field "tool-result.pii-field-name" scanner_source (
                            field "tool-result.prompt-injection" scanner_source
                              (field "tool-result.secret-like-content" scanner_source end))))))
                    end)))))
          end)))

-- The report without its receipt; `source` is the name of the file.
unfoldable pub scan_document :
    Fields → String → Outcome → List Reason → String → String → String → Fields
unfolding outcome_text outcome_risk outcome_advice reason_items effect_count
scan_document result source outcome reasons request_id result_id tool =
    field "schema_version" (int (pos 1)) (
      field "kind" (str "tool_result_scan") (
        field "source" (str source) (
          field "postflight_outcome" (str (outcome_text outcome)) (
            field "decision" (str (decision_text (outcome_decision outcome))) (
              field "risk_level" (str (outcome_risk outcome)) (
                field "subject" (str "tool-result") (
                  field "source_trust" (get_value null "source_trust" result) (
                    field "correlation"
                      (obj (
                        field "request_fingerprint" (str request_id) (
                          field "result_fingerprint" (str result_id)
                            (field "tool_fingerprint" (str tool) end))))
                      (field "summary"
                        (obj (
                          field "findings" (int (pos (length reasons))) (
                            field "review" (effect_count (λ r. not (is_denial r)) reasons)
                              (field "block_next_step" (effect_count is_denial reasons) end))))
                        (field "reasons" (arr (reason_items reasons))
                          (field "recommended_action" (str (outcome_advice outcome)) end)))))))))))

unfoldable pub scan_projection : Fields → Fields
scan_projection result = field "contract" (str "tool-result-v1") (
    field "source_trust" (get_value null "source_trust" result) (
      field "content_present" (bool (not (content_text result == ""))) (
        field "field_count" (int (pos (length (result_fields result))))
          (field "expected_domain_count" (int (pos (length (expected_domains result)))) end))))

module _ ⦃u : Unicode⦄ (c : Coding) where
  -- The findings of a result that is checked, in the order in which they are added.
  unfoldable pub scan_findings : Fields → String → Result Findings
  scan_findings result request_id = do
    st ← scan_names c request_id 0 (result_fields result) (record { found = []; seen = [] })
    scan_values c request_id (expected_domains result) (located_values result) st

  unfoldable pub scan_tool_result : String → Fields → String → Result ScanReport
  unfolding scan_findings scan_document scan_projection scanner_policy
  scan_tool_result version result source = do
    validate_tool_result result
    request_id ← text_fingerprint c "request_id" (as_text (get_value null "request_id" result))
    result_id ← text_fingerprint c "result_id" (as_text (get_value null "result_id" result))
    tool ← text_fingerprint c "tool" (as_text (get_value null "tool" result))
    st ← scan_findings result request_id
    let reasons = sort_onto [] st.found
    let outcome = outcome_of reasons
    receipt ←
        decision_receipt c version
          (scan_document result source outcome reasons request_id result_id tool) scanner_policy
          (scan_projection result)
    ok (record {
      outcome = outcome;
      decision = outcome_decision outcome;
      reasons = reasons;
      result_fingerprint = result_id;
      tool_fingerprint = tool;
      receipt_fingerprint = as_text (get_value null "receipt_fingerprint" receipt);
    })
