-- ===== src/Journal/Append/Laws.antt =====
-- What an append that succeeds has checked, and what it leaves in the file.
use mcp_guard.Base.{
  String, ℕ, ◌+◌, ◌≤◌, ◌<◌, ◌≡◌, refl, sym, Bool, true, false, Option, List, [], ◌∷◌, ◌++◌, arith,
  length, any,
}
use mcp_guard.Base.Int.{ℤ}
use mcp_guard.Journal.{max_journal_line_bytes, max_journal_bytes, max_journal_records, Calendar}
use mcp_guard.Journal.Append.{
  write_entry, same_event, prepare_entry, append_journal, write_prepared, Encoded, Write,
}
use mcp_guard.Journal.Duplicates.{journal_entry_from_report}
use mcp_guard.Journal.Entry.{validate_journal_entry}
use mcp_guard.Journal.File.{load_journal, bytes_of, records_of, JournalFile, content}
use mcp_guard.Json.{Fields, obj}
use mcp_guard.Jsonl.{Coding, canonical}
use mcp_guard.Result.{>>=-eq-ok, raise_if-eq-ok, ok-injective, Result, err, ok}
use mathlib.Core.Path.{subst}
use mcp_guard.Journal.Duplicates.Made.{journal_entry_from_report-Made, Made}

-- The checks of append_journal passed, and this is what it writes.
pub record Prepared (cal : Calendar) (c : Coding) (file : JournalFile)
    (loaded : Option (List Fields)) (p : Encoded) : Type 0 where
  pub loads_as : load_journal cal c true file ≡ ok loaded
  pub fresh : any (same_event p.entry) (records_of loaded) ≡ false
  pub valid : validate_journal_entry cal c p.entry ≡ ok p.entry
  pub text : List ℕ
  pub encodes : canonical c (obj p.entry) ≡ ok text
  pub line : p.encoded ≡ text ++ b'\n' ∷ []
  pub line_fits : length p.encoded ≤ max_journal_line_bytes
  pub file_fits : length (bytes_of file) + length p.encoded ≤ max_journal_bytes
  pub records_fit : length (records_of loaded) < max_journal_records

module _ (cal : Calendar) (c : Coding) where
  write_entry-eq-ok :
      (w : Write) (file : JournalFile) (encoded : List ℕ) (made : Fields) {entry : Fields}
      → (write_entry w file encoded made).outcome ≡ ok entry
      → (made ≡ entry)
        × ((write_entry w file encoded made).file ≡ content (bytes_of file ++ encoded))
  unfolding write_entry
  write_entry-eq-ok w file encoded made h = ground arith

  module _ (enabled : Bool) (report : Fields) (stage : String) (at : Option String)
      (window : ℤ) where
    pub prepare_entry-Prepared :
        (file : JournalFile) {p : Encoded}
        → prepare_entry cal c enabled report stage at window file ≡ ok p
        → (loaded : Option (List Fields)) × Prepared cal c file loaded p
          × Made cal c report (records_of loaded) stage at window p.entry
    unfolding prepare_entry
    prepare_entry-Prepared file {p} h =
        let (_, h1) = raise_if-eq-ok _ _ _ h in
        let (loaded, loads_as, h2) = >>=-eq-ok (load_journal cal c true file) _ h1 in
        let (entry, made, h3) =
          >>=-eq-ok (journal_entry_from_report cal c report (records_of loaded) stage at window) _
            h2 in
        let (fresh, h4) = raise_if-eq-ok _ _ _ h3 in
        let (text, encodes, h5) = >>=-eq-ok (canonical c (obj entry)) _ h4 in
        let (line_small, h6) = raise_if-eq-ok _ _ _ h5 in
        let (file_small, h7) = raise_if-eq-ok _ _ _ h6 in
        let (few, h8) = raise_if-eq-ok _ _ _ h7 in
        let parts =
          journal_entry_from_report-Made cal c report (records_of loaded) stage at window made in
        let made_p : Encoded = record { entry = entry; encoded = text ++ b'\n' ∷ [] } in
        let same : made_p ≡ p = ok-injective h8 in
        let facts : Prepared cal c file loaded made_p = record {
          loads_as = loads_as;
          fresh = fresh;
          valid = parts.valid;
          text = text;
          encodes = encodes;
          line = refl;
          line_fits = ground arith;
          file_fits = ground arith;
          records_fit = ground arith;
        } in
        (
          loaded,
          subst (Prepared cal c file loaded) same facts,
          subst (λ q. Made cal c report (records_of loaded) stage at window q.entry) same parts,
        )

    -- An append that returns an entry has written its bytes behind those of the file.
    pub append_journal-eq-ok :
        (w : Write) (file : JournalFile) {entry : Fields}
        → (append_journal cal c w enabled report stage at window file).outcome ≡ ok entry
        → (p : Encoded) × (loaded : Option (List Fields)) × (p.entry ≡ entry)
          × Prepared cal c file loaded p
          × Made cal c report (records_of loaded) stage at window p.entry
          × ((append_journal cal c w enabled report stage at window file).file
              ≡ content (bytes_of file ++ p.encoded))
    unfolding append_journal
    append_journal-eq-ok w file {entry} h = prepared _ refl h
      where
        prepared :
            (r : Result Encoded)
            → r ≡ prepare_entry cal c enabled report stage at window file
            → (write_prepared w file r).outcome ≡ ok entry
            → (p : Encoded) × (loaded : Option (List Fields)) × (p.entry ≡ entry)
              × Prepared cal c file loaded p
              × Made cal c report (records_of loaded) stage at window p.entry
              × ((write_prepared w file r).file ≡ content (bytes_of file ++ p.encoded))
        prepared (err e) same h = cc
        prepared (ok p) same h =
            let (loaded, facts, parts) = prepare_entry-Prepared file (sym same) in
            let (made, grown) = write_entry-eq-ok w file p.encoded p.entry h in
            (p, loaded, made, facts, parts, grown)
