-- ===== src/Journal/Duplicates.antt =====
-- _prior_duplicate, journal_entry_from_report and replay_check_document of policylatch/journal.py.
pub mod Made
pub mod Latest
pub mod Detection
use mcp_guard.Approval.Request.{sorted_set, texts}
use mcp_guard.Base.{
  ℕ, ◌-◌, ◌*◌, String, Bool, true, false, not, ◌&&◌, ◌||◌, Option, none, some, List, [], ◌∷◌, ltb,
  leb, if◌then◌else◌, is_some, contains,
}
use mcp_guard.Base.Int.{ℤ, pos}
use mcp_guard.Journal.{
  stages, timestamp, timestamp_argument, window_of, event_core, is_none, Calendar, Stamp,
}
use mcp_guard.Journal.Entry.{validate_journal_entry}
use mcp_guard.Journal.File.{load_journal, JournalFile}
use mcp_guard.Json.{
  get, equals_text, as_text, Fields, field, end, Value, obj, arr, str, int, bool, null, Items, cons,
  nil, append_field,
}
use mcp_guard.Jsonl.{hash, Coding}
use mcp_guard.Models.{Reason, Decision, allow, warn, RiskLevel, low, medium, warns}
use mcp_guard.Receipts.{object_at, validate_receipt}
use mcp_guard.Reports.{validate_report}
use mcp_guard.Result.{◌>>=◌, ◌>>◌, raise_if, input_error, overflow_error, Result, err, ok}

-- A fingerprint of an action rules a record out only where both are given and differ.
unfoldable pub same_action : Option Value → Option Value → Bool
same_action fingerprint (some (str prior)) = is_none fingerprint || equals_text prior fingerprint
same_action fingerprint prior = true

unfoldable pub concerns : String → Option Value → Fields → Bool
unfolding same_action
concerns request_id fingerprint record_ =
    equals_text request_id (get "request_id" record_)
    && same_action fingerprint (get "action_fingerprint" (object_at "budget_facts" record_))

unfoldable pub add_match : Bool → ℕ → Fields → List (ℕ × Fields) → List (ℕ × Fields)
add_match true time entry found = (time, entry) ∷ found
add_match false time entry found = found

-- The loop over the records, which gathers the matches with their times.
unfoldable pub matches_of :
    Calendar → String → Option Value → ℕ → ℕ → List Fields → Result (List (ℕ × Fields))
unfolding add_match
matches_of cal request_id fingerprint earliest at [] = ok []
matches_of cal request_id fingerprint earliest at (entry ∷ entries) = do
  stamp ← timestamp cal (get "recorded_at" entry)
  found ← matches_of cal request_id fingerprint earliest at entries
  ok (
      add_match
        ((leb earliest stamp.parsed && leb stamp.parsed at)
          && concerns request_id fingerprint entry)
        stamp.parsed entry found)

-- max(matches, key=time): the first of the latest
unfoldable pub latest : ℕ × Fields → List (ℕ × Fields) → ℕ × Fields
latest best [] = best
latest best (m ∷ ms) = latest (if ltb best.0 m.0 then m else best) ms

unfoldable pub latest_match : List (ℕ × Fields) → Option Fields
unfolding latest
latest_match [] = none
latest_match (m ∷ ms) = some (latest m ms).1

-- at - timedelta(seconds=window)
unfoldable pub earliest_time : ℕ → ℕ → Result ℕ
earliest_time at window = do
  raise_if (ltb at (window * 1000000)) (overflow_error "date value out of range")
  ok (at - window * 1000000)

-- _prior_duplicate
unfoldable pub prior_duplicate :
    Calendar → List Fields → String → ℕ → ℕ → Option Value → Result (Option Fields)
unfolding matches_of latest_match earliest_time
prior_duplicate cal records request_id at window fingerprint = do
  earliest ← earliest_time at window
  found ← matches_of cal request_id fingerprint earliest at records
  ok (latest_match found)

-- _receipt_from_report
unfoldable pub receipt_from_report : Coding → Fields → Result Fields
receipt_from_report c report = do
  rows ← validate_report report
  elim (get "receipt" report) [
    | none ↦ err (input_error "Journal input report does not contain a decision receipt.")
    | some found ↦ elim found [
      | obj receipt ↦ validate_receipt c receipt
      | _ ↦ err (input_error "Journal input report does not contain a decision receipt.")
    ]
  ]

-- receipt["request"]["fingerprint"]
unfoldable pub receipt_request : Fields → String
receipt_request receipt = elim (get "fingerprint" (object_at "request" receipt)) [
  | none ↦ ""
  | some v ↦ as_text v
]

-- The facts of a report without any.
no_facts : Fields
no_facts = field "action_fingerprint" null (
    field "action_type" (str "unknown") (
      field "confirmation" (str "unknown") (
        field "impact" null (
          field "payload_size_class" (str "unknown")
            (field "target_fingerprint" null (field "tool_fingerprint" null end))))))

unfoldable pub facts_in : Option Value → Result Fields
unfolding no_facts
facts_in none = ok no_facts
facts_in (some null) = ok no_facts
facts_in (some (obj facts)) = ok facts
facts_in (some _) = err (input_error "Journal input report budget_facts must be an object.")

unfoldable pub budget_facts_of : Fields → Result Fields
unfolding facts_in
budget_facts_of report = facts_in (get "budget_facts" report)

-- entry[name] of an entry that has the field
unfoldable pub value_at : String → Fields → Value
value_at name entry = elim (get name entry) [ none ↦ null | some v ↦ v ]

-- The texts rule["id"] of the rules of a receipt.
rule_ids : Items → List String
unfolding value_at
rule_ids nil = []
rule_ids (cons (obj rule) xs) = as_text (value_at "id" rule) ∷ rule_ids xs
rule_ids (cons _ xs) = rule_ids xs

receipt_rules : Fields → Items
receipt_rules receipt = elim (get "rules" receipt) [
  | none ↦ nil
  | some found ↦ elim found [ arr xs ↦ xs | _ ↦ nil ]
]

duplicate_of : ℤ → Option Fields → Value
unfolding value_at
duplicate_of window prior = obj (
    field "detected" (bool (is_some prior)) (
      field "window_seconds" (int window) (
        field "prior_event_id" (elim prior [ none ↦ null | some entry ↦ value_at "event_id" entry ])
          end)))

-- The entry without its event_id.
unfoldable pub entry_body : Fields → String → Stamp → Fields → ℤ → Option Fields → Fields
unfolding value_at rule_ids receipt_rules duplicate_of
entry_body receipt stage stamp facts window prior = field "schema_version" (int (pos 1)) (
    field "kind" (str "agent_action_audit") (
      field "request_id" (str (receipt_request receipt)) (
        field "receipt_fingerprint" (value_at "receipt_fingerprint" receipt) (
          field "stage" (str stage) (
            field "verification_state" (str "unverified") (
              field "recorded_at" (str stamp.normalized) (
                field "decision" (value_at "decision" receipt) (
                  field "policy_hash" (value_at "hash" (object_at "policy" receipt)) (
                    field "evaluator_version" (value_at "version" (object_at "evaluator" receipt)) (
                      field "rule_ids" (arr (texts (sorted_set (rule_ids (receipt_rules receipt)))))
                        (field "budget_facts" (obj facts)
                          (field "duplicate" (duplicate_of window prior) end))))))))))))

unfoldable pub journal_entry_from_report :
    Calendar → Coding → Fields → List Fields → String → Option String → ℤ → Result Fields
unfolding entry_body append_field budget_facts_of
journal_entry_from_report cal c report records stage recorded_at window_seconds = do
  raise_if (not (contains stages stage)) (input_error "Journal stage is invalid.")
  window ← window_of window_seconds
  stamp ← timestamp_argument cal recorded_at
  receipt ← receipt_from_report c report
  facts ← budget_facts_of report
  prior ←
      prior_duplicate cal records (receipt_request receipt) stamp.parsed window
        (get "action_fingerprint" facts)
  let body = entry_body receipt stage stamp facts window_seconds prior
  event ← hash c (obj (event_core body))
  validate_journal_entry cal c (append_field body "event_id" (str event))

pub data ReplayStatus : Type 0 where
  source_unavailable duplicate clear : ReplayStatus

-- The document of a replay check, less its constant texts.
pub record ReplayCheck : Type 0 where
  pub status : ReplayStatus
  pub checked_at : String
  pub decision : Decision
  pub risk_level : RiskLevel
  pub prior_event_id : Option Value
  pub reasons : List Reason

unfoldable pub replay_document : Stamp → Option Fields → ReplayCheck
unfolding value_at
replay_document stamp none = record {
  status = clear;
  checked_at = stamp.normalized;
  decision = allow;
  risk_level = low;
  prior_event_id = none;
  reasons = [];
}
replay_document stamp (some prior) = record {
  status = duplicate;
  checked_at = stamp.normalized;
  decision = warn;
  risk_level = medium;
  prior_event_id = some (value_at "event_id" prior);
  reasons =
      record {
        rule = "journal.duplicate-window";
        effect = warns;
        matched = "request-fingerprint";
        message = "A matching redacted request occurred inside the replay window.";
      }
      ∷ [];
}

unfoldable pub unavailable_document : Stamp → ReplayCheck
unavailable_document stamp = record {
  status = source_unavailable;
  checked_at = stamp.normalized;
  decision = warn;
  risk_level = medium;
  prior_event_id = none;
  reasons =
      record {
        rule = "journal.source-unavailable";
        effect = warns;
        matched = "no-journal";
        message = "Duplicate status is unknown because the journal is unavailable.";
      }
      ∷ [];
}

-- The fingerprint of the action, if the facts of the report are an object.
unfoldable pub report_action : Fields → Option Value
report_action report = get "action_fingerprint" (object_at "budget_facts" report)

unfoldable pub replay_check_document :
    Calendar → Coding → Fields → JournalFile → Option String → ℤ → Result ReplayCheck
unfolding replay_document unavailable_document report_action
replay_check_document cal c report file at window_seconds = do
  receipt ← receipt_from_report c report
  window ← window_of window_seconds
  loaded ← load_journal cal c true file
  stamp ← timestamp_argument cal at
  elim loaded [
    | none ↦ ok (unavailable_document stamp)
    | some records ↦ do
      prior ←
          prior_duplicate cal records (receipt_request receipt) stamp.parsed window
            (report_action report)
      ok (replay_document stamp prior)
  ]
