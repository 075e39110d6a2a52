-- ===== src/Budgets/Document.antt =====
-- budget_check_document of policylatch/budgets.py. The receipt that is attached to the document is left
-- out (Receipts/Issue), and so are its constant texts.
use mcp_guard.Base.{
  ℕ, String, ltb, contains, Bool, true, false, not, ◌&&◌, Option, none, some, List, [], ◌∷◌,
  if◌then◌else◌, any, text_lt,
}
use mcp_guard.Base.Dict.{Dict}
use mcp_guard.Budgets.{
  window_length, BudgetFacts, JournalRecord, BudgetResult, Status, in_budget, exceeded, unknown,
}
use mcp_guard.Budgets.Check.{budget_results, budget_decision}
use mcp_guard.Fingerprint.{is_hash}
use mcp_guard.Journal.{timestamp, Calendar}
use mcp_guard.Journal.Duplicates.{value_at}
use mcp_guard.Journal.File.{load_journal, JournalFile, absent, no_status, unreadable, content}
use mcp_guard.Json.{get, equals_text, as_text, Fields, Value, obj, str, null}
use mcp_guard.Jsonl.{Coding}
use mcp_guard.Models.{risk_for, Decision, deny, RiskLevel, high}
use mcp_guard.Policy.{Budget, Policy}
use mcp_guard.Receipts.{object_at, validate_receipt}
use mcp_guard.Receipts.Issue.{canonical_policy_hash}
use mcp_guard.Reports.{validate_report}
use mcp_guard.Result.{
  ◌>>=◌, ◌>>◌, raise_if, is_input_error, input_error, overflow_error, Result, err, ok,
}

pub data DocumentStatus : Type 0 where
  unknown_document : String → String → DocumentStatus
  not_applicable : DocumentStatus
  checked : Status → DocumentStatus

pub record BudgetDocument : Type 0 where
  pub status : DocumentStatus
  pub decision : Decision
  pub risk_level : RiskLevel
  pub results : List BudgetResult

-- _unknown_document, for its rule and message
unfoldable pub unknown_budget : String → String → BudgetDocument
unknown_budget rule message = record {
  status = unknown_document rule message;
  decision = deny;
  risk_level = high;
  results = [];
}

-- The two signatures of the file around the loading: `stat` may fail behind it, or they may differ.
pub data Signatures : Type 0 where
  same_signature other_signature no_signature : Signatures

-- _receipt_from_report
unfoldable pub budget_receipt : Coding → Fields → Result Fields
budget_receipt c report = do
  rows ← validate_report report
  elim (get "receipt" report) [
    | none ↦ err (input_error "Budget input report does not contain a decision receipt.")
    | some found ↦ elim found [
      | obj receipt ↦ validate_receipt c receipt
      | _ ↦ err (input_error "Budget input report does not contain a decision receipt.")
    ]
  ]

text_or_none : Option Value → Option String
text_or_none (some (str s)) = some s
text_or_none _ = none

text_at : String → Fields → String
text_at name fields = as_text (value_at name fields)

some_unless_null : Option Value → Option Value
some_unless_null (some null) = none
some_unless_null o = o

unfoldable pub facts_of_record : Fields → BudgetFacts
unfolding text_or_none text_at some_unless_null
facts_of_record entry =
    let facts = object_at "budget_facts" entry in
    record {
      action_type = text_at "action_type" facts;
      confirmation = text_at "confirmation" facts;
      impact = some_unless_null (get "impact" facts);
      payload_size_class = text_at "payload_size_class" facts;
      target_fingerprint = text_or_none (get "target_fingerprint" facts);
      tool_fingerprint = text_or_none (get "tool_fingerprint" facts);
      action_fingerprint = text_or_none (get "action_fingerprint" facts);
    }

-- A record as the loop over the records reads it.
unfoldable pub budget_record : Calendar → Fields → Result JournalRecord
unfolding facts_of_record text_at
budget_record cal entry = do
  stamp ← timestamp cal (get "recorded_at" entry)
  ok (record {
    stage = text_at "stage" entry;
    recorded_at = stamp.parsed;
    facts = facts_of_record entry;
  })

unfoldable pub budget_records : Calendar → List Fields → Result (List JournalRecord)
unfolding budget_record
budget_records cal [] = ok []
budget_records cal (entry ∷ entries) = do
  r ← budget_record cal entry
  rest ← budget_records cal entries
  ok (r ∷ rest)

-- next((r for r in records if r["event_id"] == event_id), None)
unfoldable pub reservation_of : String → List Fields → Option Fields
reservation_of event_id [] = none
reservation_of event_id (entry ∷ entries) =
    let rest = reservation_of event_id entries in
    if equals_text event_id (get "event_id" entry) then some entry else rest

unfoldable pub insert_budget : String × Budget → Dict Budget → Dict Budget
insert_budget p [] = p ∷ []
insert_budget p (q ∷ qs) =
    let rest = q ∷ insert_budget p qs in if text_lt p.0 q.0 then p ∷ q ∷ qs else rest

-- sorted(policy.get("budgets", {}).items())
unfoldable pub sorted_budgets : Dict Budget → Dict Budget
unfolding insert_budget
sorted_budgets [] = []
sorted_budgets (p ∷ ps) = insert_budget p (sorted_budgets ps)

abbrev is_unknown_row : BudgetResult → Bool
is_unknown_row r = elim r.status [ unknown ↦ true | _ ↦ false ]

abbrev is_exceeded_row : BudgetResult → Bool
is_exceeded_row r = elim r.status [ exceeded ↦ true | _ ↦ false ]

results_status : List BudgetResult → DocumentStatus
results_status [] = not_applicable
results_status (r ∷ rs) = checked (
    if any is_unknown_row (r ∷ rs)
    then unknown
    else if any is_exceeded_row (r ∷ rs)
    then exceeded
    else in_budget)

-- The document of the rows.
unfoldable pub results_document : List BudgetResult → Result BudgetDocument
unfolding results_status
results_document results = do
  decision ← budget_decision results
  ok (record {
    status = results_status results;
    decision = decision;
    risk_level = risk_for decision;
    results = results;
  })

unfoldable pub is_reserved : Fields → Fields → Bool
is_reserved receipt entry =
    equals_text "proposed" (get "stage" entry)
    && equals_text (as_text (value_at "receipt_fingerprint" receipt))
        (get "receipt_fingerprint" entry)

unfoldable pub no_reservation : Result BudgetDocument
no_reservation = ok (
    unknown_budget "budget.reservation-missing"
      "A matching proposed-stage journal reservation is required before budget check.")

unfoldable pub unavailable : String → Result BudgetDocument
unavailable message = ok (unknown_budget "budget.journal-unavailable" message)

-- current_time - timedelta(...), for a budget that applies, is before the first year.
unfoldable pub too_early : BudgetFacts → ℕ → String × Budget → Bool
too_early facts current p =
    contains p.1.action_types facts.action_type && ltb current (window_length p.1.window)

module _ (cal : Calendar) (c : Coding) (sum : List Value → Value) (exceeds : Value → Value → Bool)
    (number : Value → String) where
  -- The part from the reservation on.
  unfoldable pub check_reserved : Policy → List Fields → Fields → Result BudgetDocument
  unfolding results_document facts_of_record too_early
  check_reserved policy records reservation = do
    stamp ← timestamp cal (get "recorded_at" reservation)
    journal ← budget_records cal records
    let budgets = sorted_budgets policy.budgets
    raise_if (any (too_early (facts_of_record reservation) stamp.parsed) budgets)
        (overflow_error "date value out of range")
    results_document (
        budget_results sum exceeds number budgets (facts_of_record reservation) stamp.parsed
          journal)

  unfoldable pub check_reservation :
      Policy → Fields → List Fields → Option Fields → Result BudgetDocument
  unfolding check_reserved is_reserved no_reservation
  check_reservation policy receipt records none = no_reservation
  check_reservation policy receipt records (some entry) =
      if is_reserved receipt entry then check_reserved policy records entry else no_reservation

  unfoldable pub check_signatures :
      Policy → Fields → String → Signatures → Option (List Fields) → Result BudgetDocument
  unfolding check_reservation unavailable reservation_of
  check_signatures policy receipt event_id no_signature loaded =
      unavailable "Budget state is unknown because the journal cannot be inspected."
  check_signatures policy receipt event_id other_signature loaded = ok (
      unknown_budget "budget.journal-race"
        "Budget state changed during the check; retry with a fresh reservation.")
  check_signatures policy receipt event_id same_signature none =
      unavailable "Budget state is unknown because the journal is unavailable."
  check_signatures policy receipt event_id same_signature (some records) =
      check_reservation policy receipt records (reservation_of event_id records)

  unfoldable pub check_loaded :
      Policy → Fields → String → Signatures → Result (Option (List Fields)) → Result BudgetDocument
  unfolding check_signatures unavailable
  check_loaded policy receipt event_id signatures (ok loaded) =
      check_signatures policy receipt event_id signatures loaded
  check_loaded policy receipt event_id signatures (err e) =
      if is_input_error e
      then unavailable "Budget state is unknown because the journal is missing or invalid."
      else err e

  -- The `try` block; the first `stat` fails for a file that is not there.
  unfoldable pub check_journal :
      Policy → Fields → String → Signatures → JournalFile → Result BudgetDocument
  unfolding check_loaded unavailable
  check_journal policy receipt event_id signatures absent =
      unavailable "Budget state is unknown because the journal cannot be inspected."
  check_journal policy receipt event_id signatures (no_status m) =
      unavailable "Budget state is unknown because the journal cannot be inspected."
  check_journal policy receipt event_id signatures (unreadable size m) =
      check_loaded policy receipt event_id signatures (load_journal cal c false (unreadable size m))
  check_journal policy receipt event_id signatures (content bytes) =
      check_loaded policy receipt event_id signatures (load_journal cal c false (content bytes))

  -- `document` is the dict of the policy.
  unfoldable pub budget_check_document :
      Fields → Policy → Fields → Signatures → JournalFile → String → Result BudgetDocument
  unfolding check_journal
  budget_check_document report policy document signatures file event_id = do
    raise_if (not (is_hash event_id))
        (input_error "Budget check event_id must be a SHA-256 fingerprint.")
    receipt ← budget_receipt c report
    policy_hash ← canonical_policy_hash c document
    if equals_text policy_hash (get "hash" (object_at "policy" receipt))
        then check_journal policy receipt event_id signatures file
        else ok (
            unknown_budget "budget.policy-mismatch"
              "Report receipt and selected budget policy do not have the same canonical hash.")
