-- ===== src/Journal/File.antt =====
-- load_journal of policylatch/journal.py, over the bytes of the file.
pub mod Reading
pub mod Growing
pub mod Loaded
pub mod Valid
use mcp_guard.Base.{
  ℕ, zero, suc, ◌+◌, String, ◌<>◌, Bool, not, Option, none, some, List, [], ◌∷◌, ◌++◌, length, ltb,
  if◌then◌else◌, is_empty,
}
use mcp_guard.Journal.{max_journal_line_bytes, max_journal_bytes, max_journal_records, Calendar}
use mcp_guard.Journal.Entry.{validate_journal_entry}
use mcp_guard.Json.{Fields, obj, Value}
use mcp_guard.Jsonl.{ends_line, Coding, read_line}
use mcp_guard.Result.{◌>>=◌, ◌>>◌, raise_if, input_error, runtime_error, Result, err, ok}

-- What Path.exists, stat and reading give for the path of a journal.
pub data JournalFile : Type 0 where
  absent : JournalFile
  no_status : String → JournalFile
  unreadable : ℕ → String → JournalFile
  content : List ℕ → JournalFile

-- The part of the loop's body on one line that is not empty.
read_value : Calendar → Coding → Option Value → Result Fields
read_value cal c none = err (input_error "Journal contains an invalid JSONL record.")
read_value cal c (some (obj entry)) = validate_journal_entry cal c entry
read_value cal c (some _) = err (input_error "Journal records must be JSON objects.")

unfoldable pub read_record : Calendar → Coding → List ℕ → List Fields → Result (List Fields)
unfolding read_value
read_record cal c raw records = do
  raise_if (ltb max_journal_line_bytes (length raw))
      (input_error "Journal line exceeds the 65536-byte limit.")
  raise_if (not (ends_line raw)) (input_error "Journal contains an incomplete final record.")
  entry ← read_value cal c (c.loads raw)
  raise_if (ltb max_journal_records (length (records ++ entry ∷ [])))
      (input_error "Journal exceeds the 10000-record limit.")
  ok (records ++ entry ∷ [])

-- The rest of the loop, unless the body raised.
unfoldable pub continue_with :
    Result (List Fields)
    → (List Fields → Option (Result (List Fields)))
    → Option (Result (List Fields))
continue_with (err e) loop = some (err e)
continue_with (ok records) loop = loop records

-- The `while True` loop, on fuel. `limit` is MAX_JOURNAL_LINE_BYTES + 1.
unfoldable pub read_records :
    Calendar → Coding → ℕ → ℕ → List ℕ → List Fields → Option (Result (List Fields))
unfolding continue_with
read_records cal c limit zero bytes records = none
read_records cal c limit (suc fuel) bytes records =
    let next =
      continue_with (read_record cal c (read_line limit bytes).raw records)
        (λ more. read_records cal c limit fuel (read_line limit bytes).rest more) in
    if is_empty (read_line limit bytes).raw then some (ok records) else next

-- The fuel is never used up: see Journal/File/Reading.
unfoldable pub finished : Option (Result (List Fields)) → Result (List Fields)
finished none = err (runtime_error "unreachable")
finished (some r) = r

unfoldable pub read_bytes : Calendar → Coding → List ℕ → Result (List Fields)
unfolding read_records finished
read_bytes cal c bytes =
    finished (read_records cal c (max_journal_line_bytes + 1) (length bytes + 1) bytes [])

unfoldable pub load_journal : Calendar → Coding → Bool → JournalFile → Result (Option (List Fields))
unfolding read_bytes
load_journal cal c missing_ok absent =
    if missing_ok then ok none else err (input_error "Journal does not exist.")
load_journal cal c missing_ok (no_status m) = err (input_error ("Could not inspect journal: " <> m))
load_journal cal c missing_ok (unreadable size m) = do
  raise_if (ltb max_journal_bytes size)
      (input_error "Journal exceeds the 16777216-byte total limit.")
  err (input_error ("Could not read journal: " <> m))
load_journal cal c missing_ok (content bytes) = do
  raise_if (ltb max_journal_bytes (length bytes))
      (input_error "Journal exceeds the 16777216-byte total limit.")
  records ← read_bytes cal c bytes
  ok (some records)

-- The bytes that a write at the end stands behind.
unfoldable pub bytes_of : JournalFile → List ℕ
bytes_of (content bytes) = bytes
bytes_of _ = []

-- load_journal(...) or []
unfoldable pub records_of : Option (List Fields) → List Fields
records_of none = []
records_of (some records) = records
