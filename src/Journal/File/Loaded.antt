-- ===== src/Journal/File/Loaded.antt =====
-- What a journal that loads is known to hold, and how it loads with new bytes at its end.
use mcp_guard.Base.{
  ℕ, ◌+◌, ◌≤◌, ◌≡◌, ap, true, Option, none, some, List, [], ◌++◌, arith, length, sym, false, ltb,
}
use mcp_guard.Journal.{max_journal_line_bytes, max_journal_bytes, Calendar}
use mcp_guard.Journal.File.{
  read_records, finished, read_bytes, load_journal, bytes_of, records_of, absent, no_status,
  unreadable, content, JournalFile,
}
use mcp_guard.Journal.File.Growing.{read_records-Reads, Reads, at_end, read_records-append}
use mcp_guard.Json.{Fields}
use mcp_guard.Jsonl.{Coding}
use mcp_guard.Result.{◌>>=◌, >>=-eq-ok, raise_if-eq-ok, ok-injective, Result, ok, raise_if}

module _ (cal : Calendar) (c : Coding) where
  finished-eq-ok :
      (o : Option (Result (List Fields))) {records : List Fields}
      → finished o ≡ ok records
      → o ≡ some (ok records)
  unfolding finished
  finished-eq-ok none h = cc
  finished-eq-ok (some r) h = ap some h

  pub load_journal-Reads :
      (file : JournalFile) {loaded : Option (List Fields)}
      → load_journal cal c true file ≡ ok loaded
      → Reads cal c (max_journal_line_bytes + 1) (bytes_of file) [] (records_of loaded)
  unfolding load_journal read_bytes bytes_of records_of
  load_journal-Reads absent {loaded} h =
      let same : loaded ≡ none = sym (ok-injective h) in rw same (at_end [])
  load_journal-Reads (no_status m) h = cc
  load_journal-Reads (unreadable size m) h = let (_, h1) = raise_if-eq-ok _ _ _ h in cc
  load_journal-Reads (content bytes) {loaded} h =
      let (_, h1) = raise_if-eq-ok _ _ _ h in
      let (records, h2, h3) = >>=-eq-ok _ _ h1 in
      let same : loaded ≡ some records = sym (ok-injective h3) in
      rw same (
        read_records-Reads cal c (max_journal_line_bytes + 1) (length bytes + 1) bytes []
          (omega arith) (finished-eq-ok _ h2))

  -- The bytes behind a journal that loads are read as if they stood alone, with its records before.
  pub load_journal-append :
      (file : JournalFile) (more : List ℕ) {loaded : Option (List Fields)}
      → load_journal cal c true file ≡ ok loaded
      → length (bytes_of file ++ more) ≤ max_journal_bytes
      → load_journal cal c true (content (bytes_of file ++ more)) ≡ (
          finished (
            read_records cal c
              (max_journal_line_bytes + 1)
              (length more + 1)
              more
              (records_of loaded))
          >>= λ records. ok (some records))
  unfolding load_journal read_bytes raise_if
  load_journal-append file more {loaded} h small =
      let fits : ltb max_journal_bytes (length (bytes_of file ++ more)) ≡ false = ground arith in
      rw (
        fits,
        raise_if,
        read_records-append cal c (max_journal_line_bytes + 1) (length (bytes_of file ++ more) + 1)
            (length more + 1) more (load_journal-Reads file h) (omega arith) (omega arith),
      )
