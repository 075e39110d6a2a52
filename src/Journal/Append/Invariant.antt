-- ===== src/Journal/Append/Invariant.antt =====
-- The invariant of a journal file, which every append keeps whose write is not cut short.
use mcp_guard.Base.{
  String, ◌≤◌, ◌≡◌, refl, sym, ◌∙◌, Bool, true, false, Option, some, List, [], ◌∷◌, ◌++◌, arith,
  length, length-append, any, none,
}
use mcp_guard.Base.Int.{ℤ}
use mcp_guard.Journal.{max_journal_bytes, max_journal_records, Calendar}
use mcp_guard.Journal.Append.{
  write_entry, same_event, prepare_entry, append_journal, written, short, write_prepared, Encoded,
  Write, open_fails, write_fails, sync_fails, close_fails,
}
use mcp_guard.Journal.Append.Laws.{prepare_entry-Prepared, Prepared}
use mcp_guard.Journal.Append.RoundTrip.{load_journal-Prepared, ReadsBack}
use mcp_guard.Journal.File.{
  read_records, finished, load_journal, bytes_of, records_of, JournalFile, content,
}
use mcp_guard.Journal.File.Loaded.{load_journal-append}
use mcp_guard.Json.{Fields, as_text, Value, null}
use mcp_guard.Jsonl.{read_line, Coding}
use mcp_guard.Result.{ok-injective, Result, err, ok}
use mathlib.Core.Path.{subst}
use mathlib.Core.List.{append-nil, append_assoc}
use mcp_guard.Journal.Duplicates.{value_at}
use mcp_guard.Journal.Entry.Same.{leaf}
use mcp_guard.Json.Same.{SameDict}

-- No record has the event_id of one before it.
abbrev pub Distinct : List Fields → List Fields → Type 0
Distinct seen [] = Unit
Distinct seen (e ∷ es) = (any (same_event e) seen ≡ false) × Distinct (seen ++ e ∷ []) es

Distinct-append :
    (seen records : List Fields) (e : Fields)
    → Distinct seen records
    → any (same_event e) (seen ++ records) ≡ false
    → Distinct seen (records ++ e ∷ [])
Distinct-append seen [] e h fresh =
    (subst (λ l. any (same_event e) l ≡ false) (append-nil seen) fresh, tt)
Distinct-append seen (r ∷ rs) e h fresh = (
  h.0,
  Distinct-append (seen ++ r ∷ []) rs e h.1
      (subst (λ l. any (same_event e) l ≡ false) (sym (append_assoc seen (r ∷ []) rs)) fresh),
)

-- Equal entries have the same events.
any-same_event :
    {entry read : Fields}
    → SameDict entry read
    → (records : List Fields) → any (same_event entry) records ≡ any (same_event read) records
unfolding same_event value_at as_text
any-same_event s [] = refl
any-same_event {entry} {read} s (r ∷ rs) =
    let id =
      leaf entry read s (λ o. as_text (elim o as (λ _. Value) [ none ↦ null | some v ↦ v ]))
        "event_id" (λ _ _. refl) in
    rw (id, any-same_event s rs)

pub record IsJournal (cal : Calendar) (c : Coding) (file : JournalFile) : Type 0 where
  pub loaded : Option (List Fields)
  pub loads_as : load_journal cal c true file ≡ ok loaded
  pub distinct : Distinct [] (records_of loaded)
  pub few : length (records_of loaded) ≤ max_journal_records
  pub small : length (bytes_of file) ≤ max_journal_bytes

-- Every way in which a write ends but one: some bytes are written and some are not.
unfoldable pub is_whole : Write → Bool
is_whole (short n) = false
is_whole _ = true

module _ (cal : Calendar) (c : Coding) where
  -- The bytes of a journal are a journal.
  touch-IsJournal :
      (file : JournalFile) → IsJournal cal c file → IsJournal cal c (content (bytes_of file))
  unfolding finished read_records read_line records_of bytes_of
  touch-IsJournal file j =
      let same : bytes_of file ++ [] ≡ bytes_of file = append-nil (bytes_of file) in
      let fits : length (bytes_of file ++ []) ≤ max_journal_bytes =
        subst (λ l. length l ≤ max_journal_bytes) (sym same) j.small in
      let loads : load_journal cal c true (content (bytes_of file ++ []))
          ≡ ok (some (records_of j.loaded)) =
        load_journal-append cal c file [] j.loads_as fits in
      record {
        loaded = some (records_of j.loaded);
        loads_as =
            subst (λ l. load_journal cal c true (content l) ≡ ok (some (records_of j.loaded))) same
              loads;
        distinct = j.distinct;
        few = j.few;
        small = j.small;
      }

  -- A journal with the line of a prepared entry behind it is a journal.
  grown-IsJournal :
      (file : JournalFile) (p : Encoded) {loaded : Option (List Fields)}
      → IsJournal cal c file
      → Prepared cal c file loaded p
      → ReadsBack c p.entry
      → IsJournal cal c (content (bytes_of file ++ p.encoded))
  unfolding records_of bytes_of
  grown-IsJournal file p {loaded} j facts back =
      let same : j.loaded ≡ loaded = ok-injective (sym j.loads_as ∙ facts.loads_as) in
      let distinct : Distinct [] (records_of loaded) =
        subst (λ l. Distinct [] (records_of l)) same j.distinct in
      record {
        loaded = some (records_of loaded ++ back.read ∷ []);
        loads_as = load_journal-Prepared cal c file facts back;
        distinct =
            Distinct-append [] (records_of loaded) back.read distinct
              (sym (any-same_event back.same (records_of loaded)) ∙ facts.fresh);
        few = omega (arith, facts.records_fit, length-append (records_of loaded) (back.read ∷ []));
        small = omega (arith, facts.file_fits, length-append (bytes_of file) p.encoded);
      }

  write_entry-IsJournal :
      (w : Write) (file : JournalFile) (p : Encoded) {loaded : Option (List Fields)}
      → is_whole w ≡ true
      → IsJournal cal c file
      → Prepared cal c file loaded p
      → ReadsBack c p.entry
      → IsJournal cal c (write_entry w file p.encoded p.entry).file
  unfolding write_entry is_whole
  write_entry-IsJournal written file p whole j facts back = grown-IsJournal file p j facts back
  write_entry-IsJournal (short n) file p whole j facts back = cc
  write_entry-IsJournal (open_fails m) file p whole j facts back = j
  write_entry-IsJournal (write_fails m) file p whole j facts back = touch-IsJournal file j
  write_entry-IsJournal (sync_fails m) file p whole j facts back =
      grown-IsJournal file p j facts back
  write_entry-IsJournal (close_fails m) file p whole j facts back =
      grown-IsJournal file p j facts back

  -- An append whose write is not cut short keeps the journal readable, its event ids distinct, and its
  -- records and bytes in their limits, whether it succeeds or raises, if the JSON text of the entry that
  -- it writes is one line from which a dict equal to the entry is read, and equal dicts have equal texts.
  pub append_journal-IsJournal :
      (w : Write) (enabled : Bool) (report : Fields) (stage : String) (at : Option String)
      (window : ℤ) (file : JournalFile)
      → is_whole w ≡ true
      → IsJournal cal c file
      → ((p : Encoded)
          → prepare_entry cal c enabled report stage at window file ≡ ok p
          → ReadsBack c p.entry)
      → IsJournal cal c (append_journal cal c w enabled report stage at window file).file
  unfolding append_journal
  append_journal-IsJournal w enabled report stage at window file whole j back = prepared _ refl
    where
      prepared :
          (r : Result Encoded)
          → prepare_entry cal c enabled report stage at window file ≡ r
          → IsJournal cal c (write_prepared w file r).file
      prepared (err e) same = j
      prepared (ok p) same =
          let (loaded, facts, _) =
            prepare_entry-Prepared cal c enabled report stage at window file same in
          write_entry-IsJournal w file p whole j facts (back p same)
