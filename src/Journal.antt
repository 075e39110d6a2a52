-- ===== src/Journal.antt =====
-- policylatch/journal.py: the constants, time stamps, the window and the fields of an entry. Times are
-- microseconds from the first one that a `datetime` can hold.
pub mod Entry
pub mod File
pub mod Duplicates
pub mod Append
pub mod Filter
use mcp_guard.Base.{
  String, ℕ, ◌*◌, ◌^◌, Bool, true, false, not, ◌&&◌, Option, none, some, List, [], ◌∷◌, leb,
  replace,
}
use mcp_guard.Base.Int.{int_between, ℤ, pos, negsuc}
use mcp_guard.Json.{get, Fields, field, end, Value, str, int, float, nan, infinite, bool, null}
use mcp_guard.Result.{
  ◌>>=◌, ◌>>◌, raise_if, input_error, type_error, attribute_error, overflow_error, Result, err, ok,
}

-- JOURNAL_STAGES
abbrev pub stages : List String
stages = "proposed" ∷ "evaluated" ∷ "observed-result" ∷ []

abbrev pub max_journal_line_bytes : ℕ
max_journal_line_bytes = 65536

abbrev pub max_journal_bytes : ℕ
max_journal_bytes = 16777216

abbrev pub max_journal_records : ℕ
max_journal_records = 10000

abbrev pub max_replay_window_seconds : ℕ
max_replay_window_seconds = 86400

-- What datetime.fromisoformat and astimezone(timezone.utc) make of a text.
pub data Parsed : Type 0 where
  malformed naive out_of_range : Parsed
  utc : ℕ → Parsed

-- Python's datetime: datetime.now, fromisoformat, and isoformat(timespec="seconds") in UTC.
pub record Calendar : Type 0 where
  pub now : ℕ
  pub fromisoformat : String → Parsed
  pub isoformat : ℕ → String

pub record Stamp : Type 0 where
  pub normalized : String
  pub parsed : ℕ

unfoldable pub stamp_of : Calendar → ℕ → Stamp
stamp_of cal t = record { normalized = replace "+00:00" "Z" (cal.isoformat t); parsed = t }

unfoldable pub stamp_parsed : Calendar → Parsed → Result Stamp
unfolding stamp_of
stamp_parsed cal malformed = err (input_error "Journal timestamps must be valid ISO-8601 values.")
stamp_parsed cal naive = err (input_error "Journal timestamps must include a timezone.")
stamp_parsed cal out_of_range = err (overflow_error "date value out of range")
stamp_parsed cal (utc t) = ok (stamp_of cal t)

-- _timestamp, on the value of a field
unfoldable pub timestamp : Calendar → Option Value → Result Stamp
unfolding stamp_parsed stamp_of
timestamp cal none = ok (stamp_of cal cal.now)
timestamp cal (some null) = ok (stamp_of cal cal.now)
timestamp cal (some (str s)) = stamp_parsed cal (cal.fromisoformat (replace "Z" "+00:00" s))
timestamp cal (some _) = err (attribute_error "replace")

-- _timestamp, on an argument
unfoldable pub timestamp_argument : Calendar → Option String → Result Stamp
unfolding timestamp
timestamp_argument cal none = timestamp cal none
timestamp_argument cal (some s) = timestamp cal (some (str s))

-- _window
unfoldable pub check_window : Option Value → Result (Unit {0})
check_window (some (int n)) =
    raise_if (not (int_between 1 n max_replay_window_seconds))
      (input_error "Replay window must be between 1 and 86400 seconds.")
check_window (some (float (pos z) k)) =
    raise_if (not (leb (2 ^ k) z && leb z (max_replay_window_seconds * 2 ^ k)))
      (input_error "Replay window must be between 1 and 86400 seconds.")
check_window (some (float (negsuc z) k)) =
    err (input_error "Replay window must be between 1 and 86400 seconds.")
check_window (some nan) = err (input_error "Replay window must be between 1 and 86400 seconds.")
check_window (some (infinite negative)) =
    err (input_error "Replay window must be between 1 and 86400 seconds.")
check_window (some (bool b)) =
    err (input_error "Replay window must be between 1 and 86400 seconds.")
check_window _ = err (type_error "'<=' not supported")

unfoldable pub natural : ℤ → ℕ
natural (pos n) = n
natural (negsuc n) = 0

-- _window, on a number of seconds
unfoldable pub window_of : ℤ → Result ℕ
unfolding check_window natural
window_of seconds = do check_window (some (int seconds)); ok (natural seconds)

-- {name: entry[name] for name in names}, for an entry that has them
unfoldable pub pick : List String → Fields → Fields
pick [] entry = end
pick (name ∷ names) entry = elim (get name entry) [
  | none ↦ pick names entry
  | some v ↦ field name v (pick names entry)
]

-- _event_core
unfoldable pub event_core : Fields → Fields
unfolding pick
event_core entry =
    pick
      ("schema_version" ∷ "kind" ∷ "request_id" ∷ "receipt_fingerprint" ∷ "stage"
        ∷ "verification_state" ∷ "recorded_at" ∷ "decision" ∷ "policy_hash" ∷ "evaluator_version"
        ∷ "rule_ids" ∷ "budget_facts" ∷ [])
      entry

-- entry[name] is None, or entry.get(name) is None
unfoldable pub is_none : Option Value → Bool
is_none none = true
is_none (some null) = true
is_none (some _) = false
