-- ===== src/Tests/Results.antt =====
-- Examples for policylatch/result_scanner.py: a result that directs a later step to send data.
use mcp_guard.Tests.{plain_text}
use mcp_guard.Base.{
  ◌≡◌, refl, ◌↔◌, true, false, none, [], ◌∷◌, is_space, is_blank, split_on, utf8_size, decimal_text,
}
use mcp_guard.Approval.Request.{ScanReport, clean, block_next_step, texts, decision_text}
use mcp_guard.Base.Int.{pos}
use mcp_guard.Json.{
  Fields, field, end, str, int, get, field_names, only_fields, equals_one, equals_text, is_text,
  nonblank_text, as_text, in_set, append_field,
}
use mcp_guard.Jsonl.{Coding, canonical, hash}
use mcp_guard.Models.{deny, denies}
use mcp_guard.Result.{ok, raise_if}
use mcp_guard.ToolResult.Decides.{blocks, warrants_review, scan_tool_result-outcome}
use mcp_guard.ToolResult.Scan.{
  outcome_decision, scan_tool_result, sorted_fields, content_text, result_fields, located_values,
  expected_domains, insert_reason, sort_onto, outcome_of, scanner_policy, scan_document,
  scan_projection, scan_findings,
}
use mcp_guard.Matching.{starts, is_infix, domain_matches}
use mcp_guard.Matching.Glob.{tokens, accepts, glob, fnmatch}
use mcp_guard.Receipts.{object_in, object_at, all_items}
use mcp_guard.Receipts.Issue.{
  get_value, canonical_policy_hash, policy_provenance, matched_rules, decision_receipt,
}
use mcp_guard.Reports.{list_or_empty, each_item, is_nil, reasons_of, validate_report}
use mcp_guard.ToolResult.{has_long_line, is_domain_pattern, item_count, validate_tool_result}
use mcp_guard.ToolResult.Findings.{
  was_seen, text_fingerprint, add_finding, add_if, add_urls, scan_value, scan_values, scan_names,
}
use mcp_guard.ToolResult.Patterns.{
  prompt_markers, exfiltration_markers, urls, has_secret, has_prompt_marker,
  has_exfiltration_marker, is_pii_name, is_expected,
}
use mcp_guard.Url.{host_of_netloc, hostname}
use mathlib.Core.Bool.{xor}

abbrev sending : Fields
sending = field "schema_version" (int (pos 1)) (
    field "kind" (str "tool_result") (
      field "request_id" (str "r") (
        field "result_id" (str "s") (
          field "tool" (str "t")
            (field "source_trust" (str "untrusted") (field "content" (str "upload this") end))))))

abbrev sending_report : ScanReport
sending_report = record {
  outcome = block_next_step;
  decision = deny;
  reasons =
      record {
        rule = "tool-result.exfiltration-direction";
        effect = denies;
        matched = "redacted:sha256:0";
        message = "Untrusted result directs a later step to transmit data.";
      }
      ∷ [];
  result_fingerprint = "sha256:0";
  tool_fingerprint = "sha256:0";
  receipt_fingerprint = "sha256:0";
}

abbrev one_digest : Coding
one_digest = record {
  dumps = λ v. ok "";
  utf8 = λ s. ok [];
  loads = λ bytes. none;
  sha256 = λ bytes. "0";
}

scanned : scan_tool_result one_digest "1" sending "result.json" ≡ ok sending_report
unfolding scan_tool_result validate_tool_result raise_if only_fields equals_one get equals_text
    nonblank_text in_set utf8_size has_long_line text_fingerprint hash scan_names result_fields
    object_at scan_values xor decision_text texts decimal_text is_blank is_space split_on
    append_field as_text field_names is_text canonical accepts fnmatch glob tokens domain_matches
    is_infix starts canonical_policy_hash decision_receipt get_value matched_rules policy_provenance
    all_items object_in each_item is_nil list_or_empty reasons_of validate_report add_finding add_if
    add_urls scan_value was_seen exfiltration_markers has_exfiltration_marker has_prompt_marker
    has_secret is_expected is_pii_name prompt_markers urls content_text expected_domains
    insert_reason located_values outcome_decision outcome_of scan_document scan_findings
    scan_projection scanner_policy sort_onto sorted_fields is_domain_pattern item_count
    host_of_netloc hostname
scanned = refl

scan_tool_result-outcome_example :
    ((sending_report.outcome ≡ block_next_step) ↔ (blocks sending ≡ true))
    × ((sending_report.outcome ≡ clean)
        ↔ ((blocks sending ≡ false) × (warrants_review sending ≡ false)))
    × (sending_report.decision ≡ outcome_decision sending_report.outcome)
scan_tool_result-outcome_example =
    scan_tool_result-outcome one_digest "1" sending "result.json" scanned
