-- ===== src/Journal/Append/RoundTrip.antt =====
-- Reading a journal after an append, complete or cut short.
use mcp_guard.Base.{
  String, ℕ, ◌+◌, ◌≤◌, ◌<◌, ◌≡◌, true, false, some, List, [], ◌∷◌, ◌++◌, arith, length,
  length-append, ltb, zero, suc, refl, ap, Bool, Option, is_empty, sym, ◌∙◌, nat_eq,
}
use mcp_guard.Journal.{max_journal_line_bytes, max_journal_records, Calendar, max_journal_bytes}
use mcp_guard.Journal.Entry.{validate_journal_entry}
use mcp_guard.Journal.File.{
  read_record, read_records, continue_with, load_journal, records_of, JournalFile, finished,
  bytes_of, content,
}
use mcp_guard.Json.{Fields, obj}
use mcp_guard.Jsonl.{ends_line, Coding, read_line, canonical}
use mcp_guard.Jsonl.Lines.{
  no_feed, read_line-feed, read_line_tail, ends_line-no_feed, ends_line-feed,
}
use mcp_guard.Result.{raise_if, ok, input_error, err}
use mcp_guard.Base.Int.{ℤ}
use mcp_guard.Journal.Append.{first, append_journal, Write, prepare_entry, short, Encoded}
use mcp_guard.Journal.Append.Laws.{append_journal-eq-ok, prepare_entry-Prepared, Prepared}
use mcp_guard.Journal.File.Loaded.{load_journal-append}
use mathlib.Core.Path.{subst}
use mcp_guard.Journal.Entry.Same.{SortsKeys, validate_journal_entry-SameDict}
use mcp_guard.Json.Same.{SameDict}

-- The JSON text of the entry has no line feed.
abbrev pub IsOneLine : Coding → Fields → Type 0
IsOneLine c entry = (text : List ℕ) → canonical c (obj entry) ≡ ok text → no_feed text ≡ true

-- What json.dumps with sort_keys=True and json.loads do with an entry: equal dicts have the same text,
-- the text of the entry has no line feed, and a dict that equals the entry is read from it, whose keys may
-- stand in another order.
pub record ReadsBack (c : Coding) (entry : Fields) : Type 0 where
  pub read : Fields
  pub sorts : SortsKeys c
  pub one_line : IsOneLine c entry
  pub same : SameDict entry read
  pub reads :
      {text : List ℕ}
      → canonical c (obj entry) ≡ ok text
      → c.loads (text ++ b'\n' ∷ []) ≡ some (obj read)

is_empty-append : (bs : List ℕ) (b : ℕ) → is_empty (bs ++ b ∷ []) ≡ false
is_empty-append [] b = refl
is_empty-append (a ∷ bs) b = refl

first-append : (n : ℕ) (bs more : List ℕ) → n ≤ length bs → first n (bs ++ more) ≡ first n bs
unfolding first
first-append zero bs more h = refl
first-append (suc n) [] more h = absurd (omega arith)
first-append (suc n) (b ∷ bs) more h = ap (◌∷◌ b) (first-append n bs more (omega arith))

first-no_feed : (n : ℕ) (bs : List ℕ) → no_feed bs ≡ true → no_feed (first n bs) ≡ true
unfolding first
first-no_feed zero bs h = refl
first-no_feed (suc n) [] h = refl
first-no_feed (suc n) (b ∷ bs) h = ground (arith, first-no_feed n bs)

length-first : (n : ℕ) (bs : List ℕ) → n ≤ length bs → length (first n bs) ≡ n
unfolding first
length-first zero bs h = refl
length-first (suc n) [] h = absurd (omega arith)
length-first (suc n) (b ∷ bs) h = omega (arith, length-first n bs)

module _ (cal : Calendar) (c : Coding) where
  -- The line of an entry that is valid is accepted.
  read_record_entry :
      (raw : List ℕ) (records : List Fields) (entry : Fields)
      → length raw ≤ max_journal_line_bytes
      → ends_line raw ≡ true
      → c.loads raw ≡ some (obj entry)
      → validate_journal_entry cal c entry ≡ ok entry
      → length records < max_journal_records
      → read_record cal c raw records ≡ ok (records ++ entry ∷ [])
  unfolding read_record raise_if
  read_record_entry raw records entry short_line complete loads valid room =
      let fits : ltb max_journal_line_bytes (length raw) ≡ false = ground arith in
      let few : ltb max_journal_records (length (records ++ entry ∷ [])) ≡ false =
        ground (arith, length-append records (entry ∷ [])) in
      rw (fits, complete, loads, valid, few)

  read_records_one :
      (limit fuel : ℕ) (text : List ℕ) (records : List Fields) {more : List Fields}
      → no_feed text ≡ true
      → length text < limit
      → 1 < fuel
      → read_record cal c (text ++ b'\n' ∷ []) records ≡ ok more
      → read_records cal c limit fuel (text ++ b'\n' ∷ []) records ≡ some (ok more)
  unfolding read_records read_line
  read_records_one limit zero text records feedless room enough accepted = absurd (omega arith)
  read_records_one limit (suc zero) text records feedless room enough accepted =
      absurd (omega arith)
  read_records_one zero (suc (suc n)) text records feedless room enough accepted =
      absurd (omega arith)
  read_records_one (suc l) (suc (suc n)) text records feedless room enough accepted =
      let one = read_line-feed (suc l) text [] feedless room in
      rw (one, accepted, continue_with, is_empty-append text b'\n')

  -- Bytes without a line feed are refused.
  read_records_torn :
      (limit fuel : ℕ) (part : List ℕ) (records : List Fields)
      → no_feed part ≡ true
      → 0 < length part
      → length part ≤ limit
      → length part ≤ max_journal_line_bytes
      → 0 < fuel
      → read_records cal c limit fuel part records
        ≡ some (err (input_error "Journal contains an incomplete final record."))
  unfolding read_records read_record raise_if
  read_records_torn limit zero part records feedless some_byte room small enough =
      absurd (omega arith)
  read_records_torn limit (suc n) [] records feedless some_byte room small enough =
      absurd (omega arith)
  read_records_torn limit (suc n) (b ∷ bs) records feedless some_byte room small enough =
      let whole = read_line_tail limit (b ∷ bs) feedless room in
      let fits : ltb max_journal_line_bytes (length (b ∷ bs)) ≡ false = ground arith in
      rw (whole, fits, ends_line-no_feed (b ∷ bs) feedless)

  -- A prepared entry, written behind the journal that it was prepared for, loads as its last record.
  pub load_journal-Prepared :
      (file : JournalFile) {loaded : Option (List Fields)} {p : Encoded}
      → Prepared cal c file loaded p
      → (back : ReadsBack c p.entry)
      → load_journal cal c true (content (bytes_of file ++ p.encoded))
        ≡ ok (some (records_of loaded ++ back.read ∷ []))
  unfolding finished
  load_journal-Prepared file {loaded} {p} facts back =
      let text = facts.text in
      let raw : List ℕ = text ++ b'\n' ∷ [] in
      let size : length raw ≡ length text + 1 = length-append text (b'\n' ∷ []) in
      let same : length p.encoded ≡ length raw = ap length facts.line in
      let line_fits : length raw ≤ max_journal_line_bytes = omega (arith, facts.line_fits, same) in
      let file_fits : length (bytes_of file ++ raw) ≤ max_journal_bytes =
        omega (arith, facts.file_fits, same, length-append (bytes_of file) raw) in
      let accepted =
        read_record_entry raw (records_of loaded) back.read line_fits (ends_line-feed text)
          (back.reads facts.encodes)
          (validate_journal_entry-SameDict cal c back.sorts back.same facts.valid)
          facts.records_fit in
      rw (
        facts.line,
        load_journal-append cal c file raw facts.loads_as file_fits,
        read_records_one (max_journal_line_bytes + 1) (length raw + 1) text (records_of loaded)
            (back.one_line text facts.encodes) (omega (arith, line_fits, size))
            (omega (arith, size)) accepted,
      )

  -- A proper part of the line of a prepared entry makes the journal unreadable.
  load_journal_torn :
      (file : JournalFile) (n : ℕ) {loaded : Option (List Fields)} {p : Encoded}
      → Prepared cal c file loaded p
      → IsOneLine c p.entry
      → 0 < n
      → n < length p.encoded
      → load_journal cal c true (content (bytes_of file ++ first n p.encoded))
        ≡ err (input_error "Journal contains an incomplete final record.")
  unfolding finished
  load_journal_torn file n {loaded} {p} facts one_line some_byte proper =
      let text = facts.text in
      let size : length p.encoded ≡ length text + 1 =
        ap length facts.line ∙ length-append text (b'\n' ∷ []) in
      let inside : n ≤ length text = omega (arith, size, proper) in
      let part : first n p.encoded ≡ first n text =
        ap (first n) facts.line ∙ first-append n text (b'\n' ∷ []) inside in
      let count = length-first n text inside in
      let file_fits : length (bytes_of file ++ first n text) ≤ max_journal_bytes =
        omega (arith, facts.file_fits, size, count, length-append (bytes_of file) (first n text)) in
      rw (
        part,
        load_journal-append cal c file (first n text) facts.loads_as file_fits,
        read_records_torn (max_journal_line_bytes + 1) (length (first n text) + 1) (first n text)
            (records_of loaded) (first-no_feed n text (one_line text facts.encodes))
            (omega (arith, count)) (omega (arith, count, facts.line_fits, size))
            (omega (arith, count, facts.line_fits, size)) (omega arith),
      )

  module _ (enabled : Bool) (report : Fields) (stage : String) (at : Option String)
      (window : ℤ) where
    -- An append that returns an entry has put it behind the records of the file, if the JSON text of the
    -- entry is one line from which a dict equal to the entry is read, and equal dicts have equal texts: the
    -- journal then loads as those records with that dict last.
    pub load_journal-append_journal :
        (w : Write) (file : JournalFile) {entry : Fields}
        → (append_journal cal c w enabled report stage at window file).outcome ≡ ok entry
        → ReadsBack c entry
        → (loaded : Option (List Fields)) × (load_journal cal c true file ≡ ok loaded)
          × ((read : Fields) × SameDict entry read
              × (load_journal cal c true
                    (append_journal cal c w enabled report stage at window file).file
                  ≡ ok (some (records_of loaded ++ read ∷ []))))
    load_journal-append_journal w file {entry} h back =
        let (p, loaded, made, facts, parts, grown) =
          append_journal-eq-ok cal c enabled report stage at window w file h in
        let back_p : ReadsBack c p.entry = subst (ReadsBack c) (sym made) back in
        (
          loaded,
          facts.loads_as,
          (
            back_p.read,
            subst (λ e. SameDict e back_p.read) made back_p.same,
            rw grown (load_journal-Prepared file facts back_p),
          ),
        )

    -- A write that stops inside the line of an entry, whose JSON text has no line feed, is reported as an
    -- error, and the journal no longer loads.
    pub load_journal-append_journal_short :
        (n : ℕ) (file : JournalFile) {p : Encoded}
        → prepare_entry cal c enabled report stage at window file ≡ ok p
        → IsOneLine c p.entry
        → 0 < n
        → n < length p.encoded
        → ((append_journal cal c (short n) enabled report stage at window file).outcome
            ≡ err (input_error "Could not append journal: partial journal append"))
          × (load_journal cal c true
                (append_journal cal c (short n) enabled report stage at window file).file
              ≡ err (input_error "Journal contains an incomplete final record."))
    unfolding append_journal
    load_journal-append_journal_short n file {p} h one_line some_byte proper =
        let (loaded, facts, _) =
          prepare_entry-Prepared cal c enabled report stage at window file h in
        let other : nat_eq n (length p.encoded) ≡ false = ground arith in
        rw (h, other) (refl, load_journal_torn file n facts one_line some_byte proper)
