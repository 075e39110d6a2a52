-- ===== src/ToolResult/Decides.antt =====
-- The outcome of scan_tool_result in policylatch/result_scanner.py, by what stands in the result.
use mcp_guard.Base.{
  String, ◌≡◌, refl, Bool, false, not, ◌&&◌, ◌||◌, List, [], ◌∷◌, arith, if◌then◌else◌, any,
  is_empty, Unicode, ◌↔◌, true, sym, ap, ◌∙◌,
}
use mcp_guard.Approval.Request.{Outcome, clean, review, block_next_step, ScanReport}
use mcp_guard.Json.{Fields, as_text, null}
use mcp_guard.Jsonl.{Coding}
use mcp_guard.Models.{is_denial, Reason}
use mcp_guard.Result.{>>=-eq-ok, ok, ok-injective}
use mcp_guard.ToolResult.Adding.{IsBacked}
use mcp_guard.ToolResult.Findings.{scan_names, Findings, was_seen, text_fingerprint}
use mcp_guard.ToolResult.Outcomes.{must_block, must_review, scan_values-Adds, scan_names-Adds}
use mcp_guard.ToolResult.Patterns.{is_pii_name}
use mcp_guard.ToolResult.Scan.{
  result_fields, located_values, expected_domains, insert_reason, sort_onto, outcome_of,
  scan_findings, outcome_decision, scan_tool_result, scanner_policy, scan_document, scan_projection,
}
use mcp_guard.Receipts.Issue.{get_value, decision_receipt}
use mcp_guard.ToolResult.{validate_tool_result}

insert_reason-denial :
    (r : Reason) (rs : List Reason)
    → any is_denial (insert_reason r rs) ≡ (is_denial r || any is_denial rs)
unfolding insert_reason
insert_reason-denial r [] = refl
insert_reason-denial r (s ∷ rs) = ground (arith, insert_reason-denial r rs)

sort_onto-denial :
    (sorted rs : List Reason)
    → any is_denial (sort_onto sorted rs) ≡ (any is_denial sorted || any is_denial rs)
unfolding sort_onto
sort_onto-denial sorted [] = ground arith
sort_onto-denial sorted (r ∷ rs) =
    ground (arith, sort_onto-denial (insert_reason r sorted) rs, insert_reason-denial r sorted)

is_empty-insert_reason : (r : Reason) (rs : List Reason) → is_empty (insert_reason r rs) ≡ false
unfolding insert_reason
is_empty-insert_reason r [] = refl
is_empty-insert_reason r (s ∷ rs) = ground arith

is_empty-sort_onto :
    (sorted rs : List Reason) → is_empty (sort_onto sorted rs) ≡ (is_empty sorted && is_empty rs)
unfolding sort_onto
is_empty-sort_onto sorted [] = ground arith
is_empty-sort_onto sorted (r ∷ rs) =
    ground (arith, is_empty-sort_onto (insert_reason r sorted) rs, is_empty-insert_reason r sorted)

-- The outcome by two tests on the findings.
outcome_by : Bool → Bool → Outcome
outcome_by blocked some_found =
    if blocked then block_next_step else if some_found then review else clean

outcome_of-outcome_by :
    (rs : List Reason) → outcome_of rs ≡ outcome_by (any is_denial rs) (not (is_empty rs))
unfolding outcome_of outcome_by
outcome_of-outcome_by [] = refl
outcome_of-outcome_by (r ∷ rs) = ground arith

outcome_by_iff :
    (b w : Bool) (o : Outcome)
    → o ≡ outcome_by b (b || w)
    → ((o ≡ block_next_step) ↔ (b ≡ true)) × ((o ≡ clean) ↔ ((b ≡ false) × (w ≡ false)))
unfolding outcome_by
outcome_by_iff true w o h = ((λ e. refl, λ e. h), (λ e. cc, λ e. cc (e.0)))
outcome_by_iff false true o h = ((λ e. cc, λ e. cc), (λ e. cc, λ e. cc (e.1)))
outcome_by_iff false false o h = ((λ e. cc, λ e. cc), (λ e. (refl, refl), λ e. h))

any-or :
    (p q : String × String → Bool) (vs : List (String × String))
    → any (λ v. p v || q v) vs ≡ (any p vs || any q vs)
any-or p q [] = refl
any-or p q (v ∷ vs) = ground (arith, any-or p q vs)

module _ ⦃u : Unicode⦄ (result : Fields) where
  -- The content or the value of a field holds a marker or a secret.
  unfoldable pub blocks : Bool
  blocks = any (λ v. must_block v.1) (located_values result)

  -- A value holds a URL outside the expected domains, or the name of a field is one of personal data.
  unfoldable pub warrants_review : Bool
  warrants_review =
      any (λ f. is_pii_name f.0) (result_fields result)
      || any (λ v. must_review (expected_domains result) v.1) (located_values result)

module _ ⦃u : Unicode⦄ (c : Coding) where
  no_findings-IsBacked : IsBacked (record { found = []; seen = [] })
  unfolding was_seen
  no_findings-IsBacked = record { denials = λ r l e d. cc; any_found = λ r l e. cc }

  scan_findings-outcome :
      (result : Fields) (request : String) {st : Findings}
      → scan_findings c result request ≡ ok st
      → outcome_of (sort_onto [] st.found)
        ≡ outcome_by (blocks result) (blocks result || warrants_review result)
  unfolding scan_findings blocks warrants_review
  scan_findings-outcome result request {st} h =
      let start : Findings = record { found = []; seen = [] } in
      let values = located_values result in
      let domains = expected_domains result in
      let (mid, e, h1) = >>=-eq-ok (scan_names c request 0 (result_fields result) start) _ h in
      let names = scan_names-Adds c request 0 (result_fields result) start e no_findings-IsBacked in
      let added = scan_values-Adds c request domains values mid h1 names.backed in
      let sorted = sort_onto [] st.found in
      let denied : any is_denial sorted ≡ any (λ v. must_block v.1) values =
        ground (arith, sort_onto-denial [] st.found, added.denies_now, names.denies_now) in
      let empty = is_empty-sort_onto [] st.found in
      let some : not (is_empty sorted) ≡ (
          any (λ v. must_block v.1) values
          || (any (λ f. is_pii_name f.0) (result_fields result)
              || any (λ v. must_review domains v.1) values)) =
        ground (
          arith,
          empty,
          added.has_now,
          names.has_now,
          any-or (λ v. must_block v.1) (λ v. must_review domains v.1) values,
        ) in
      rw (outcome_of-outcome_by sorted, denied, some)

  -- A scan that returns says block-next-step exactly when the content or the value of a field holds a
  -- prompt or exfiltration marker or a secret, and clean exactly when none does, no value holds a URL
  -- outside the expected domains, and no field has a name of personal data. The decision is that of the
  -- outcome: deny, warn or allow.
  pub scan_tool_result-outcome :
      (version : String) (result : Fields) (source : String) {report : ScanReport}
      → scan_tool_result c version result source ≡ ok report
      → ((report.outcome ≡ block_next_step) ↔ (blocks result ≡ true))
        × ((report.outcome ≡ clean) ↔ ((blocks result ≡ false) × (warrants_review result ≡ false)))
        × (report.decision ≡ outcome_decision report.outcome)
  unfolding scan_tool_result
  scan_tool_result-outcome version result source {report} h =
      let (_, _, h1) = >>=-eq-ok (validate_tool_result result) _ h in
      let (request_id, _, h2) =
        >>=-eq-ok (text_fingerprint c "request_id" (as_text (get_value null "request_id" result))) _
          h1 in
      let (result_id, _, h3) =
        >>=-eq-ok (text_fingerprint c "result_id" (as_text (get_value null "result_id" result))) _
          h2 in
      let (tool, _, h4) =
        >>=-eq-ok (text_fingerprint c "tool" (as_text (get_value null "tool" result))) _ h3 in
      let (st, scanned, h5) = >>=-eq-ok (scan_findings c result request_id) _ h4 in
      let outcome = outcome_of (sort_onto [] st.found) in
      let (receipt, _, h6) =
        >>=-eq-ok
          (decision_receipt c version
            (scan_document result source outcome (sort_onto [] st.found) request_id result_id tool)
            scanner_policy (scan_projection result))
          _ h5 in
      let same : outcome ≡ report.outcome = ap (λ (r : ScanReport). r.outcome) (ok-injective h6) in
      let decided : outcome_decision outcome ≡ report.decision =
        ap (λ (r : ScanReport). r.decision) (ok-injective h6) in
      let (blocked, cleared) =
        outcome_by_iff (blocks result) (warrants_review result) report.outcome
          (sym same ∙ scan_findings-outcome result request_id scanned) in
      (blocked, cleared, sym decided ∙ ap outcome_decision same)
