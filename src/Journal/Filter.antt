-- ===== src/Journal/Filter.antt =====
-- filter_journal and journal_report_document of policylatch/journal.py.
use mcp_guard.Base.{
  ℕ, String, Bool, true, false, not, ◌||◌, Option, none, some, List, [], ◌∷◌, length, filter, ltb,
  ◌==◌, if◌then◌else◌, contains,
}
use mcp_guard.Journal.{stages, timestamp, timestamp_argument, Calendar}
use mcp_guard.Journal.Entry.{detected}
use mcp_guard.Json.{get, equals_text, Fields}
use mcp_guard.Reports.{decisions}
use mcp_guard.Result.{◌>>=◌, ◌>>◌, raise_if, input_error, Result, ok}

-- The arguments of filter_journal.
pub record Filter : Type 0 where
  pub stage : Option String
  pub decision : Option String
  pub duplicate : Option Bool
  pub from_timestamp : Option String
  pub to_timestamp : Option String

-- `_timestamp(text)[1] if text else None`
unfoldable pub bound_of : Calendar → Option String → Result (Option ℕ)
bound_of cal none = ok none
bound_of cal (some s) =
    if s == ""
    then ok none
    else (do stamp ← timestamp_argument cal (some s); ok (some stamp.parsed))

unfoldable pub given_and : (String → Bool) → Option String → Bool
given_and p none = false
given_and p (some s) = p s

unfoldable pub is_after : Option ℕ → Option ℕ → Bool
is_after (some a) (some b) = ltb b a
is_after _ _ = false

unfoldable pub bool_eq : Bool → Bool → Bool
bool_eq true b = b
bool_eq false b = not b

-- The tests that make the loop `continue`.
unfoldable pub excluded : Filter → Option ℕ → Option ℕ → ℕ → Fields → Bool
unfolding given_and is_after bool_eq
excluded f from_dt to_dt time entry =
    given_and (λ stage. not (equals_text stage (get "stage" entry))) f.stage
    || (given_and (λ decision. not (equals_text decision (get "decision" entry))) f.decision
        || ((elim f.duplicate [ none ↦ false | some d ↦ not (bool_eq (detected entry) d) ])
            || (is_after from_dt (some time) || is_after (some time) to_dt)))

unfoldable pub keep_unless : Bool → Fields → List Fields → List Fields
keep_unless true entry entries = entries
keep_unless false entry entries = entry ∷ entries

-- The loop over the records.
unfoldable pub select : Calendar → Filter → Option ℕ → Option ℕ → List Fields → Result (List Fields)
unfolding excluded keep_unless
select cal f from_dt to_dt [] = ok []
select cal f from_dt to_dt (entry ∷ entries) = do
  stamp ← timestamp cal (get "recorded_at" entry)
  output ← select cal f from_dt to_dt entries
  ok (keep_unless (excluded f from_dt to_dt stamp.parsed entry) entry output)

unfoldable pub filter_journal : Calendar → Filter → List Fields → Result (List Fields)
unfolding select bound_of
filter_journal cal f records = do
  raise_if (given_and (λ stage. not (contains stages stage)) f.stage)
      (input_error "Journal filter stage is invalid.")
  raise_if (given_and (λ decision. not (contains decisions decision)) f.decision)
      (input_error "Journal filter decision is invalid.")
  from_dt ← bound_of cal f.from_timestamp
  to_dt ← bound_of cal f.to_timestamp
  raise_if (is_after from_dt to_dt) (input_error "Journal --from timestamp cannot be after --to.")
  select cal f from_dt to_dt records

pub record JournalSummary : Type 0 where
  pub total : ℕ
  pub duplicates : ℕ

-- The summary of journal_report_document.
unfoldable pub journal_summary : List Fields → JournalSummary
journal_summary records = record {
  total = length records;
  duplicates = length (filter detected records);
}
