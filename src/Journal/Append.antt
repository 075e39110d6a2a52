-- ===== src/Journal/Append.antt =====
-- append_journal of policylatch/journal.py. What the operating system does with the write is an
-- argument.
pub mod Laws
pub mod RoundTrip
pub mod Replay
pub mod Invariant
use mcp_guard.Base.{
  ℕ, zero, suc, ◌+◌, String, ◌<>◌, Bool, true, not, Option, List, [], ◌∷◌, ◌++◌, length, ltb, leb,
  any, nat_eq, if◌then◌else◌,
}
use mcp_guard.Base.Int.{ℤ}
use mcp_guard.Journal.{max_journal_line_bytes, max_journal_bytes, max_journal_records, Calendar}
use mcp_guard.Journal.Duplicates.{value_at, journal_entry_from_report}
use mcp_guard.Journal.File.{load_journal, JournalFile, content, bytes_of, records_of}
use mcp_guard.Json.{get, equals_text, as_text, Fields, obj}
use mcp_guard.Jsonl.{Coding, canonical}
use mcp_guard.Result.{◌>>=◌, ◌>>◌, raise_if, input_error, Result, err, ok}

-- Opening the descriptor, one write (`short n` when it writes n bytes), fsync and close.
pub data Write : Type 0 where
  written : Write
  short : ℕ → Write
  open_fails write_fails sync_fails close_fails : String → Write

pub record Appended : Type 0 where
  pub file : JournalFile
  pub outcome : Result Fields

unfoldable pub first : ℕ → List ℕ → List ℕ
first zero bs = []
first (suc n) [] = []
first (suc n) (b ∷ bs) = b ∷ first n bs

failed : JournalFile → String → Appended
failed file m = record {
  file = file;
  outcome = err (input_error ("Could not append journal: " <> m));
}

-- The part from os.open on; the file grows at its end (O_APPEND) or is made (O_CREAT).
unfoldable pub write_entry : Write → JournalFile → List ℕ → Fields → Appended
unfolding failed bytes_of first
write_entry written file encoded entry = record {
  file = content (bytes_of file ++ encoded);
  outcome = ok entry;
}
write_entry (short n) file encoded entry =
    if nat_eq n (length encoded)
    then record { file = content (bytes_of file ++ encoded); outcome = ok entry }
    else failed (content (bytes_of file ++ first n encoded)) "partial journal append"
write_entry (open_fails m) file encoded entry = failed file m
write_entry (write_fails m) file encoded entry = failed (content (bytes_of file)) m
write_entry (sync_fails m) file encoded entry = failed (content (bytes_of file ++ encoded)) m
write_entry (close_fails m) file encoded entry = failed (content (bytes_of file ++ encoded)) m

unfoldable pub same_event : Fields → Fields → Bool
same_event entry other = equals_text (as_text (value_at "event_id" entry)) (get "event_id" other)

pub record Encoded : Type 0 where
  pub entry : Fields
  pub encoded : List ℕ

-- append_journal up to the write: the entry and its bytes.
unfoldable pub prepare_entry :
    Calendar → Coding → Bool → Fields → String → Option String → ℤ → JournalFile → Result Encoded
unfolding records_of same_event bytes_of
prepare_entry cal c enabled report stage recorded_at window file = do
  raise_if (not enabled) (input_error "Journal append requires enabled=True.")
  loaded ← load_journal cal c true file
  entry ← journal_entry_from_report cal c report (records_of loaded) stage recorded_at window
  raise_if (any (same_event entry) (records_of loaded))
      (input_error "Journal already contains this exact event_id.")
  text ← canonical c (obj entry)
  let encoded = text ++ b'\n' ∷ []
  raise_if (ltb max_journal_line_bytes (length encoded))
      (input_error "Journal entry exceeds the 65536-byte line limit.")
  raise_if (ltb max_journal_bytes (length (bytes_of file) + length encoded))
      (input_error "Journal append exceeds the 16777216-byte total limit.")
  raise_if (leb max_journal_records (length (records_of loaded)))
      (input_error "Journal append exceeds the 10000-record limit.")
  ok (record { entry = entry; encoded = encoded })

write_prepared : Write → JournalFile → Result Encoded → Appended
write_prepared w file (err e) = record { file = file; outcome = err e }
write_prepared w file (ok p) = write_entry w file p.encoded p.entry

unfoldable pub append_journal :
    Calendar → Coding → Write → Bool → Fields → String → Option String → ℤ → JournalFile → Appended
unfolding write_prepared write_entry prepare_entry
append_journal cal c w enabled report stage recorded_at window file =
    write_prepared w file (prepare_entry cal c enabled report stage recorded_at window file)
