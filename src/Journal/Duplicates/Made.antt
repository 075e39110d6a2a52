-- ===== src/Journal/Duplicates/Made.antt =====
-- An entry that journal_entry_from_report returns: its parts, and the checks that it has passed.
use mcp_guard.Base.{String, ℕ, ◌≡◌, sym, Option, List}
use mcp_guard.Base.Int.{ℤ}
use mcp_guard.Journal.{timestamp_argument, window_of, event_core, Calendar, Stamp}
use mcp_guard.Journal.Duplicates.{
  prior_duplicate, receipt_from_report, receipt_request, budget_facts_of, journal_entry_from_report,
  entry_body,
}
use mcp_guard.Journal.Entry.{
  validate_journal_entry, validate_journal_entry-eq-ok, validate_journal_entry_same,
}
use mcp_guard.Json.{get, Fields, obj, str, append_field}
use mcp_guard.Jsonl.{hash, Coding}
use mcp_guard.Result.{>>=-eq-ok, raise_if-eq-ok, ok}

pub record Made (cal : Calendar) (c : Coding) (report : Fields) (records : List Fields)
    (stage : String) (recorded_at : Option String) (seconds : ℤ) (entry : Fields) : Type 0 where
  pub window : ℕ
  pub stamp : Stamp
  pub receipt : Fields
  pub facts : Fields
  pub prior : Option Fields
  pub event : String
  pub windows : window_of seconds ≡ ok window
  pub stamps : timestamp_argument cal recorded_at ≡ ok stamp
  pub receipts : receipt_from_report c report ≡ ok receipt
  pub has_facts : budget_facts_of report ≡ ok facts
  pub priors :
      prior_duplicate cal records
        (receipt_request receipt)
        stamp.parsed
        window
        (get "action_fingerprint" facts)
      ≡ ok prior
  pub is_made :
      entry
      ≡ append_field (entry_body receipt stage stamp facts seconds prior) "event_id" (str event)
  pub valid : validate_journal_entry cal c entry ≡ ok entry

pub journal_entry_from_report-Made :
    (cal : Calendar) (c : Coding) (report : Fields) (records : List Fields) (stage : String)
    (recorded_at : Option String) (seconds : ℤ) {entry : Fields}
    → journal_entry_from_report cal c report records stage recorded_at seconds ≡ ok entry
    → Made cal c report records stage recorded_at seconds entry
unfolding journal_entry_from_report
journal_entry_from_report-Made cal c report records stage recorded_at seconds {entry} h =
    let (_, h1) = raise_if-eq-ok _ _ _ h in
    let (window, windows, h2) = >>=-eq-ok (window_of seconds) _ h1 in
    let (stamp, stamps, h3) = >>=-eq-ok (timestamp_argument cal recorded_at) _ h2 in
    let (receipt, receipts, h4) = >>=-eq-ok (receipt_from_report c report) _ h3 in
    let (facts, has_facts, h5) = >>=-eq-ok (budget_facts_of report) _ h4 in
    let (prior, priors, h6) =
      >>=-eq-ok
        (prior_duplicate cal records (receipt_request receipt) stamp.parsed window
          (get "action_fingerprint" facts))
        _ h5 in
    let body = entry_body receipt stage stamp facts seconds prior in
    let (event, _, h7) = >>=-eq-ok (hash c (obj (event_core body))) _ h6 in
    record {
      window = window;
      stamp = stamp;
      receipt = receipt;
      facts = facts;
      prior = prior;
      event = event;
      windows = windows;
      stamps = stamps;
      receipts = receipts;
      has_facts = has_facts;
      priors = priors;
      is_made =
          sym (validate_journal_entry_same cal c (append_field body "event_id" (str event)) h7);
      valid = validate_journal_entry-eq-ok cal c (append_field body "event_id" (str event)) h7;
    }
