-- ===== src/Tests/Budgeting.antt =====
-- Examples for policylatch/budgets.py: a reservation of a shell action, checked against a budget of five
-- calls in an hour.
use mcp_guard.Tests.Journals.{digest, proposal, second_day}
use mcp_guard.Base.{String, ◌≡◌, refl, Bool, true, false, none, some, [], ◌∷◌, ltb, replace}
use mcp_guard.Base.Int.{pos}
use mcp_guard.Budgets.{
  in_budget, calls_used, in_window, applies, consider, proceed, gather, window_length, flag,
}
use mcp_guard.Budgets.Document.{
  budget_receipt, budget_check_document, BudgetDocument, checked, same_signature, budget_record,
  budget_records, reservation_of, sorted_budgets, results_document, is_reserved, check_reserved,
  check_reservation, check_signatures, check_loaded, check_journal,
}
use mcp_guard.Budgets.Reserved.{budget_check_document-allow, Reserved}
use mcp_guard.Journal.File.{
  content, read_record, continue_with, read_records, finished, read_bytes, load_journal, bytes_of,
}
use mcp_guard.Json.{
  get, equals_text, Fields, field, end, Value, obj, arr, str, int, bool, null, nil, exactly_fields,
  equals_one, is_text, is_object, in_set, as_text,
}
use mcp_guard.Jsonl.{Coding, canonical, hash, read_line, ends_line}
use mcp_guard.Models.{allow, low, risk_for, highest}
use mcp_guard.Policy.{Budget, Policy, calls, hour}
use mcp_guard.Receipts.{object_at, is_fingerprint, validate_receipt}
use mcp_guard.Receipts.Issue.{canonical_policy_hash}
use mcp_guard.Result.{ok, raise_if, for_each}
use mcp_guard.Budgets.Check.{
  measure, over, result_row, measured_row, row_of, row_for, budget_result, budget_results,
  budget_decision,
}
use mcp_guard.Fingerprint.{is_hash}
use mcp_guard.Journal.{timestamp, check_window, is_none}
use mcp_guard.Journal.Entry.{validate_journal_entry}
use mcp_guard.Reports.{validate_report}
use mcp_guard.Journal.Duplicates.{value_at}

abbrev confirmed_facts : Fields
confirmed_facts = field "action_fingerprint" null (
    field "action_type" (str "shell") (
      field "confirmation" (str "confirmed") (
        field "impact" null (
          field "payload_size_class" (str "unknown")
            (field "target_fingerprint" null (field "tool_fingerprint" null end))))))

abbrev reservation : Fields
reservation = field "schema_version" (int (pos 1)) (
    field "kind" (str "agent_action_audit") (
      field "request_id" (str digest) (
        field "receipt_fingerprint" (str digest) (
          field "stage" (str "proposed") (
            field "verification_state" (str "unverified") (
              field "recorded_at" (str "0001-01-02T00:00:00Z") (
                field "decision" (str "warn") (
                  field "policy_hash" (str digest) (
                    field "evaluator_version" (str "1") (
                      field "rule_ids" (arr nil) (
                        field "budget_facts" (obj confirmed_facts) (
                          field "duplicate"
                            (obj (
                              field "detected" (bool false) (
                                field "window_seconds" (int (pos 60))
                                  (field "prior_event_id" null end))))
                            (field "event_id" (str digest) end)))))))))))))

-- The line of the journal is the reservation.
abbrev one_line_coding : Coding
one_line_coding = record {
  dumps = λ v. ok "e";
  utf8 = λ s. ok (1 ∷ []);
  loads = λ bytes. some (obj reservation);
  sha256 = λ bytes. "0000000000000000000000000000000000000000000000000000000000000000";
}

abbrev shell_budget : Budget
shell_budget = record {
  metric = calls;
  limit = int (pos 5);
  window = hour;
  effect = none;
  action_types = "shell" ∷ [];
  per_tool = none;
  count_duplicates = none;
  payload_classes = [];
}

abbrev limited : Policy
limited = record { default_decision = allow; rules = []; budgets = ("shell", shell_budget) ∷ [] }

abbrev more_than : Value → Value → Bool
more_than (int (pos m)) (int (pos n)) = ltb n m
more_than _ _ = false

abbrev in_limit : BudgetDocument
in_limit = record {
  status = checked in_budget;
  decision = allow;
  risk_level = low;
  results =
      record {
        subject = "shell";
        decision = allow;
        risk_level = low;
        status = in_budget;
        usage = calls_used 1;
        reasons = [];
      }
      ∷ [];
}

allowed :
    budget_check_document second_day one_line_coding
      (λ vs. int (pos 0))
      more_than
      (λ v. "5")
      proposal
      limited
      end
      same_signature
      (content (1 ∷ b'\n' ∷ []))
      digest
    ≡ ok in_limit
unfolding budget_check_document raise_if is_hash budget_receipt validate_report in_set get
    validate_receipt exactly_fields equals_one equals_text for_each is_object is_text is_fingerprint
    hash canonical_policy_hash canonical check_journal check_loaded check_signatures reservation_of
    check_reservation is_reserved check_reserved budget_records budget_record sorted_budgets
    results_document budget_results budget_result gather consider proceed applies in_window row_for
    row_of measure measured_row over result_row budget_decision highest risk_for load_journal
    timestamp validate_journal_entry continue_with finished read_bytes read_record read_records
    bytes_of read_line ends_line replace is_none check_window as_text value_at window_length flag
allowed = refl

budget_check_document-allow_example :
    (found : Fields) × (budget_receipt one_line_coding proposal ≡ ok found)
    × ((policy_hash : String) × (canonical_policy_hash one_line_coding end ≡ ok policy_hash)
        × (equals_text policy_hash (get "hash" (object_at "policy" found)) ≡ true))
    × Reserved second_day one_line_coding
        (λ vs. int (pos 0))
        more_than
        (λ v. "5")
        limited
        found
        digest
        same_signature
        (content (1 ∷ b'\n' ∷ []))
        in_limit
budget_check_document-allow_example =
    budget_check_document-allow second_day one_line_coding (λ vs. int (pos 0)) more_than (λ v. "5")
      limited proposal end same_signature (content (1 ∷ b'\n' ∷ [])) digest allowed refl
