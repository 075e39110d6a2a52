-- ===== src/Tests/Journals.antt =====
-- Examples for policylatch/journal.py: one report, appended to a journal that is not there yet.
use mcp_guard.Base.{
  String, ◌≡◌, refl, true, false, none, some, [], ◌∷◌, ◌++◌, nat_eq, if◌then◌else◌, replace, ◌+◌,
  ◌-◌, ◌*◌, ◌≤◌, sym, ◌∙◌, Option, List, arith, ℕ, ◌<>◌, Bool, ◌&&◌, codes,
}
use mcp_guard.Base.Int.{pos}
use mcp_guard.Journal.{
  Calendar, utc, stamp_of, stamp_parsed, timestamp, timestamp_argument, check_window, natural,
  window_of, event_core, is_none, max_journal_line_bytes,
}
use mcp_guard.Journal.Append.{prepare_entry, same_event, append_journal, Encoded, written, short}
use mcp_guard.Journal.Append.RoundTrip.{
  ReadsBack, load_journal-append_journal, load_journal-append_journal_short, IsOneLine,
}
use mcp_guard.Journal.File.{
  absent, read_record, continue_with, read_records, finished, read_bytes, load_journal, bytes_of,
  records_of,
}
use mcp_guard.Json.{
  Fields, field, end, obj, arr, str, int, bool, null, nil, get, has, field_names, only_fields,
  exactly_fields, equals_one, equals_text, is_text, is_object, as_text, in_set, append_field, Value,
}
use mcp_guard.Jsonl.{Coding, hash, put_byte, read_line, ends_line, canonical}
use mcp_guard.Jsonl.Lines.{no_feed}
use mcp_guard.Result.{ok-injective, ok, raise_if, for_each, input_error, err}
use mathlib.Core.Path.{subst}
use mcp_guard.Approval.Request.{sorted_set, texts}
use mcp_guard.Fingerprint.{is_hash}
use mcp_guard.Journal.Duplicates.{
  same_action, concerns, add_match, matches_of, latest, latest_match, earliest_time,
  prior_duplicate, receipt_from_report, receipt_request, facts_in, budget_facts_of, value_at,
  entry_body, journal_entry_from_report, replay_check_document, ReplayCheck, duplicate,
}
use mcp_guard.Journal.Entry.{validate_journal_entry}
use mcp_guard.Receipts.{
  object_in, object_at, all_items, is_list_of, is_fingerprint, without, validate_receipt,
}
use mcp_guard.Reports.{list_or_empty, each_item, is_nil, validate_report}
use mcp_guard.Journal.Append.Invariant.{is_whole, append_journal-IsJournal, IsJournal}
use mcp_guard.Journal.Append.Replay.{replay_check_document-append_journal}
use mcp_guard.Journal.Duplicates.Latest.{Prior, prior_duplicate-Prior}
use mcp_guard.Journal.File.Reading.{read_records-read_bytes}
use mcp_guard.Models.{warn}
use mcp_guard.Journal.Entry.Same.{SortsKeys}
use mcp_guard.Json.Same.{
  same_leaf, SameDict-on, SameDict, same_value, same_object, SameField, both_fields,
}

abbrev pub digest : String
digest = "sha256:0000000000000000000000000000000000000000000000000000000000000000"

abbrev pub receipt : Fields
receipt = field "schema_version" (int (pos 1)) (
    field "kind" (str "decision_receipt") (
      field "evaluator" (obj (field "name" (str "policylatch") (field "version" (str "1") end))) (
        field "policy"
          (obj (
            field "hash" (str digest) (field "profiles" (arr nil) (field "sources" (arr nil) end))))
          (field "request"
            (obj (field "projection" (str "decision") (field "fingerprint" (str digest) end)))
            (field "decision" (str "warn") (
              field "rules" (arr nil) (
                field "execution" (obj (field "claimed" (bool false) end)) (
                  field "extensions" (obj end)
                    (field "receipt_fingerprint" (str digest) end)))))))))

abbrev pub proposal : Fields
proposal =
    field "decision" (str "warn")
      (field "risk_level" (str "medium") (field "receipt" (obj receipt) end))

abbrev recorded_entry : Fields
recorded_entry = field "schema_version" (int (pos 1)) (
    field "kind" (str "agent_action_audit") (
      field "request_id" (str digest) (
        field "receipt_fingerprint" (str digest) (
          field "stage" (str "proposed") (
            field "verification_state" (str "unverified") (
              field "recorded_at" (str "0001-01-02T00:00:00Z") (
                field "decision" (str "warn") (
                  field "policy_hash" (str digest) (
                    field "evaluator_version" (str "1") (
                      field "rule_ids" (arr nil) (
                        field "budget_facts"
                          (obj (
                            field "action_fingerprint" null (
                              field "action_type" (str "unknown") (
                                field "confirmation" (str "unknown") (
                                  field "impact" null (
                                    field "payload_size_class" (str "unknown") (
                                      field "target_fingerprint" null
                                        (field "tool_fingerprint" null end))))))))
                          (field "duplicate"
                            (obj (
                              field "detected" (bool false) (
                                field "window_seconds" (int (pos 60))
                                  (field "prior_event_id" null end))))
                            (field "event_id" (str digest) end)))))))))))))

-- Every text is the second day of the calendar.
abbrev pub second_day : Calendar
second_day = record {
  now = 86400000000;
  fromisoformat = λ s. utc 86400000000;
  isoformat = λ t. "0001-01-02T00:00:00+00:00";
}

abbrev text_of_field : Option Value → String
text_of_field (some (str s)) = s
text_of_field _ = ""

abbrev same_bytes : List ℕ → List ℕ → Bool
same_bytes [] [] = true
same_bytes (a ∷ xs) (b ∷ ys) = nat_eq a b && same_bytes xs ys
same_bytes _ _ = false

kept : {v : Value} → SameField (some v) (some v)
kept {v} = both_fields (same_value v)

-- The entry as it is read: with its keys in their order.
abbrev read_entry : Fields
read_entry =
    field "budget_facts"
      (obj (
        field "action_fingerprint" null (
          field "action_type" (str "unknown") (
            field "confirmation" (str "unknown") (
              field "impact" null (
                field "payload_size_class" (str "unknown")
                  (field "target_fingerprint" null (field "tool_fingerprint" null end))))))))
      (field "decision" (str "warn") (
        field "duplicate"
          (obj (
            field "detected" (bool false)
              (field "prior_event_id" null (field "window_seconds" (int (pos 60)) end))))
          (field "event_id" (str digest) (
            field "evaluator_version" (str "1") (
              field "kind" (str "agent_action_audit") (
                field "policy_hash" (str digest) (
                  field "receipt_fingerprint" (str digest) (
                    field "recorded_at" (str "0001-01-02T00:00:00Z") (
                      field "request_id" (str digest) (
                        field "rule_ids" (arr nil) (
                          field "schema_version" (int (pos 1)) (
                            field "stage" (str "proposed")
                              (field "verification_state" (str "unverified") end)))))))))))))

-- The texts of three fields, under their keys in order.
abbrev sorted_text : Value → String
sorted_text (obj fs) =
    "{\"decision\":\""
    <> (text_of_field (get "decision" fs)
        <> ("\",\"event_id\":\""
            <> (text_of_field (get "event_id" fs)
                <> ("\",\"stage\":\"" <> (text_of_field (get "stage" fs) <> "\"}")))))
sorted_text v = "null"

-- One codec for the examples: the text of a dict names three of its fields, and a dict with the keys in
-- order is read from that of the entry. Every digest is that of the examples.
abbrev sorting : Coding
sorting = record {
  dumps = λ v. ok (sorted_text v);
  utf8 = λ s. ok (codes s);
  loads = λ bytes.
      if same_bytes bytes (codes (sorted_text (obj recorded_entry)) ++ b'\n' ∷ [])
      then some (obj read_entry)
      else none;
  sha256 = λ bytes. "0000000000000000000000000000000000000000000000000000000000000000";
}

sorting-SortsKeys : SortsKeys sorting
unfolding get
sorting-SortsKeys fs gs s = rw (
  same_leaf text_of_field (λ _ _. refl) (s.under "decision"),
  same_leaf text_of_field (λ _ _. refl) (s.under "event_id"),
  same_leaf text_of_field (λ _ _. refl) (s.under "stage"),
)

same_duplicate :
    SameDict
      (field "detected"
        (bool false)
        (field "window_seconds" (int (pos 60)) (field "prior_event_id" null end)))
      (field "detected"
        (bool false)
        (field "prior_event_id" null (field "window_seconds" (int (pos 60)) end)))
unfolding get only_fields field_names
same_duplicate =
    SameDict-on ("detected" ∷ "prior_event_id" ∷ "window_seconds" ∷ []) _ _ refl refl
      (kept, (kept, (kept, tt)))

recorded_entry-SameDict : SameDict recorded_entry read_entry
unfolding get only_fields field_names
recorded_entry-SameDict =
    SameDict-on
      ("budget_facts" ∷ "decision" ∷ "duplicate" ∷ "event_id" ∷ "evaluator_version" ∷ "kind"
        ∷ "policy_hash" ∷ "receipt_fingerprint" ∷ "recorded_at" ∷ "request_id" ∷ "rule_ids"
        ∷ "schema_version" ∷ "stage" ∷ "verification_state" ∷ [])
      recorded_entry read_entry refl refl
      (
        kept,
        (
          kept,
          (
            both_fields (same_object _ _ same_duplicate.under),
            (
              kept,
              (kept, (kept, (kept, (kept, (kept, (kept, (kept, (kept, (kept, (kept, tt)))))))))),
            ),
          ),
        ),
      )

recorded_entry-IsOneLine : IsOneLine sorting recorded_entry
unfolding canonical get
recorded_entry-IsOneLine text e = subst (λ t. no_feed t ≡ true) (ok-injective e) refl

recorded_entry-ReadsBack : ReadsBack sorting recorded_entry
unfolding canonical get
recorded_entry-ReadsBack = record {
  read = read_entry;
  sorts = sorting-SortsKeys;
  one_line = recorded_entry-IsOneLine;
  same = recorded_entry-SameDict;
  reads = λ {text} e.
      subst (λ t. sorting.loads (t ++ b'\n' ∷ []) ≡ some (obj read_entry)) (ok-injective e) refl;
}

prepared :
    prepare_entry second_day sorting true proposal "proposed" none (pos 60) absent
    ≡ ok (record {
      entry = recorded_entry;
      encoded = codes (sorted_text (obj recorded_entry)) ++ b'\n' ∷ [];
    })
unfolding prepare_entry raise_if load_journal journal_entry_from_report window_of timestamp_argument
    receipt_from_report validate_report in_set get validate_receipt exactly_fields equals_one
    equals_text for_each is_object is_text sorted_set texts replace is_hash same_event add_match
    append_field budget_facts_of concerns earliest_time entry_body facts_in latest latest_match
    matches_of prior_duplicate receipt_request same_action value_at validate_journal_entry bytes_of
    continue_with finished read_bytes read_record read_records records_of check_window event_core
    is_none natural stamp_of stamp_parsed timestamp as_text field_names has only_fields ends_line
    hash put_byte read_line all_items is_fingerprint is_list_of object_at object_in without
    each_item is_nil list_or_empty
prepared = refl

appended :
    (append_journal second_day sorting written true proposal "proposed" none
      (pos 60)
      absent).outcome
    ≡ ok recorded_entry
unfolding append_journal
appended = rw prepared

load_journal-append_journal_example :
    (loaded : Option (List Fields)) × (load_journal second_day sorting true absent ≡ ok loaded)
    × ((read : Fields) × SameDict recorded_entry read
        × (load_journal second_day sorting true
              (append_journal second_day sorting written true proposal "proposed" none
                (pos 60)
                absent).file
            ≡ ok (some (records_of loaded ++ read ∷ []))))
load_journal-append_journal_example =
    load_journal-append_journal second_day sorting true proposal "proposed" none (pos 60) written
      absent appended recorded_entry-ReadsBack

load_journal-append_journal_short_example :
    ((append_journal second_day sorting
        (short 1)
        true
        proposal
        "proposed"
        none
        (pos 60)
        absent).outcome
      ≡ err (input_error "Could not append journal: partial journal append"))
    × (load_journal second_day sorting true
          (append_journal second_day sorting
            (short 1)
            true
            proposal
            "proposed"
            none
            (pos 60)
            absent).file
        ≡ err (input_error "Journal contains an incomplete final record."))
unfolding get
load_journal-append_journal_short_example =
    load_journal-append_journal_short second_day sorting true proposal "proposed" none (pos 60) 1
      absent prepared recorded_entry-IsOneLine (omega arith) (omega arith)

found :
    prior_duplicate second_day (recorded_entry ∷ []) digest 86400000000 60 none
    ≡ ok (some recorded_entry)
unfolding prior_duplicate earliest_time raise_if matches_of timestamp stamp_of stamp_parsed replace
    get concerns same_action is_none equals_text object_at object_in add_match latest_match latest
found = refl

prior_duplicate-Prior_example :
    (60 * 1000000 ≤ 86400000000)
    × Prior second_day digest none
        (86400000000 - 60 * 1000000)
        86400000000
        (recorded_entry ∷ [])
        (some recorded_entry)
prior_duplicate-Prior_example =
    prior_duplicate-Prior second_day (recorded_entry ∷ []) digest 86400000000 60 none found

now_stamp :
    timestamp_argument second_day none
    ≡ ok (record { normalized = "0001-01-02T00:00:00Z"; parsed = 86400000000 })
unfolding timestamp_argument timestamp stamp_of stamp_parsed replace
now_stamp = refl

entry_stamp :
    timestamp second_day (get "recorded_at" recorded_entry)
    ≡ ok (record { normalized = "0001-01-02T00:00:00Z"; parsed = 86400000000 })
unfolding timestamp stamp_of stamp_parsed replace get
entry_stamp = refl

one_minute : window_of (pos 60) ≡ ok 60
unfolding window_of check_window raise_if natural
one_minute = refl

replay_check_document-append_journal_example :
    (check : ReplayCheck) × (replay_check_document second_day sorting proposal
        (append_journal second_day sorting written true proposal "proposed" none
          (pos 60)
          absent).file
        none
        (pos 60)
      ≡ ok check)
    × (check.status ≡ duplicate)
    × (check.decision ≡ warn)
replay_check_document-append_journal_example =
    replay_check_document-append_journal second_day sorting true proposal "proposed" none (pos 60)
      written absent none (pos 60) 60
      (record { normalized = "0001-01-02T00:00:00Z"; parsed = 86400000000 })
      (record { normalized = "0001-01-02T00:00:00Z"; parsed = 86400000000 }) appended
      recorded_entry-ReadsBack one_minute now_stamp entry_stamp (omega arith) (omega arith)
      (omega arith)

absent-IsJournal : IsJournal second_day sorting absent
unfolding load_journal records_of bytes_of
absent-IsJournal = record {
  loaded = none;
  loads_as = refl;
  distinct = tt;
  few = omega arith;
  small = omega arith;
}

prepared_reads :
    (p : Encoded)
    → prepare_entry second_day sorting true proposal "proposed" none (pos 60) absent ≡ ok p
    → ReadsBack sorting p.entry
prepared_reads p h =
    let same : record {
      entry = recorded_entry;
      encoded = codes (sorted_text (obj recorded_entry)) ++ b'\n' ∷ [];
    }
        ≡ p =
      ok-injective (sym prepared ∙ h) in
    subst (λ q. ReadsBack sorting q.entry) same recorded_entry-ReadsBack

append_journal-IsJournal_example :
    IsJournal second_day sorting
      (append_journal second_day sorting written true proposal "proposed" none (pos 60) absent).file
unfolding is_whole
append_journal-IsJournal_example =
    append_journal-IsJournal second_day sorting written true proposal "proposed" none (pos 60)
      absent refl absent-IsJournal prepared_reads

read_records-read_bytes_example :
    read_records second_day sorting (max_journal_line_bytes + 1) 3 (1 ∷ b'\n' ∷ []) []
    ≡ some (read_bytes second_day sorting (1 ∷ b'\n' ∷ []))
read_records-read_bytes_example =
    read_records-read_bytes second_day sorting 3 (1 ∷ b'\n' ∷ []) (omega arith)
