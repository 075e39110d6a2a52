-- ===== src/Journal/File/Valid.antt =====
-- Every record of a journal that loads is a valid entry.
use mcp_guard.Base.{ℕ, ◌≡◌, true, Option, none, some, List, [], ◌∷◌, ◌++◌, All, All-append}
use mcp_guard.Journal.{Calendar}
use mcp_guard.Journal.Entry.{validate_journal_entry, validate_journal_entry-eq-ok}
use mcp_guard.Journal.File.{read_record, load_journal, records_of, read_value, JournalFile}
use mcp_guard.Journal.File.Growing.{Reads, at_end, line}
use mcp_guard.Journal.File.Loaded.{load_journal-Reads}
use mcp_guard.Json.{Fields, Value, obj, arr, str, int, float, nan, infinite, bool, null}
use mcp_guard.Jsonl.{read_line, Coding}
use mcp_guard.Result.{>>=-eq-ok, raise_if-eq-ok, ok-injective, ok}
use mcp_guard.Runtime.Session.{after}
use mathlib.Core.Path.{subst}

module _ (cal : Calendar) (c : Coding) where
  abbrev pub IsValid : Fields → Type 0
  IsValid entry = validate_journal_entry cal c entry ≡ ok entry

  read_value-IsValid :
      (v : Option Value) {entry : Fields} → read_value cal c v ≡ ok entry → IsValid entry
  unfolding read_value
  read_value-IsValid none h = cc
  read_value-IsValid (some (obj found)) h = validate_journal_entry-eq-ok cal c found h
  read_value-IsValid (some (arr xs)) h = cc
  read_value-IsValid (some (str s)) h = cc
  read_value-IsValid (some (int n)) h = cc
  read_value-IsValid (some (float z k)) h = cc
  read_value-IsValid (some nan) h = cc
  read_value-IsValid (some (infinite b)) h = cc
  read_value-IsValid (some (bool b)) h = cc
  read_value-IsValid (some null) h = cc

  read_record-IsValid :
      (raw : List ℕ) (before : List Fields) {after : List Fields}
      → read_record cal c raw before ≡ ok after
      → All IsValid before
      → All IsValid after
  unfolding read_record
  read_record-IsValid raw before {after} h valid =
      let (_, h1) = raise_if-eq-ok _ _ _ h in
      let (_, h2) = raise_if-eq-ok _ _ _ h1 in
      let (entry, read, h3) = >>=-eq-ok (read_value cal c (c.loads raw)) _ h2 in
      let (_, h4) = raise_if-eq-ok _ _ _ h3 in
      let same : before ++ entry ∷ [] ≡ after = ok-injective h4 in
      subst (All IsValid) same
        (All-append IsValid before (entry ∷ []) valid (read_value-IsValid (c.loads raw) read, tt))

  pub Reads-IsValid :
      {limit : ℕ} {bytes : List ℕ} {before records : List Fields}
      → Reads cal c limit bytes before records
      → All IsValid before
      → All IsValid records
  Reads-IsValid (at_end records) valid = valid
  Reads-IsValid {limit} (line bytes before after l e r) valid =
      Reads-IsValid r (read_record-IsValid (read_line limit bytes).raw before e valid)

  pub load_journal-IsValid :
      (file : JournalFile) {loaded : Option (List Fields)}
      → load_journal cal c true file ≡ ok loaded
      → All IsValid (records_of loaded)
  load_journal-IsValid file h = Reads-IsValid (load_journal-Reads cal c file h) tt
