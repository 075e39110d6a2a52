-- ===== src/Journal/Append/Replay.antt =====
-- An appended request and the replay check behind it.
use mcp_guard.Base.{String, ℕ, ◌+◌, ◌*◌, ◌≤◌, ◌≡◌, sym, Bool, true, Option, some, [], ◌∷◌, ◌++◌}
use mcp_guard.Base.Int.{ℤ}
use mcp_guard.Journal.{timestamp, timestamp_argument, window_of, Calendar, Stamp}
use mcp_guard.Journal.Append.{append_journal, Write}
use mcp_guard.Journal.Append.Laws.{append_journal-eq-ok}
use mcp_guard.Journal.Append.RoundTrip.{load_journal-Prepared, ReadsBack}
use mcp_guard.Journal.Duplicates.{replay_check_document, ReplayCheck, duplicate}
use mcp_guard.Journal.Duplicates.Detection.{replay_finds}
use mcp_guard.Journal.Duplicates.Made.{Made}
use mcp_guard.Journal.File.{load_journal, records_of, JournalFile}
use mcp_guard.Json.{get, Fields}
use mcp_guard.Jsonl.{Coding}
use mcp_guard.Models.{warn}
use mcp_guard.Result.{ok}
use mathlib.Core.Path.{subst}
use mcp_guard.Json.Same.{SameDict}

module _ (cal : Calendar) (c : Coding) (enabled : Bool) (report : Fields) (stage : String)
    (at : Option String) (window : ℤ) where
  -- A request whose entry was appended is reported as a duplicate, with the decision warn, by each replay check of the same report from the time of the entry
  -- to its window after that time, if the window does not begin before the calendar, the JSON text of the
  -- entry is one line from which a dict equal to the entry is read, and equal dicts have equal texts.
  pub replay_check_document-append_journal :
      (w : Write) (file : JournalFile) {entry : Fields} (now : Option String) (again : ℤ)
      (seconds : ℕ) (stamp recorded : Stamp)
      → (append_journal cal c w enabled report stage at window file).outcome ≡ ok entry
      → ReadsBack c entry
      → window_of again ≡ ok seconds
      → timestamp_argument cal now ≡ ok stamp
      → timestamp cal (get "recorded_at" entry) ≡ ok recorded
      → recorded.parsed ≤ stamp.parsed
      → stamp.parsed ≤ recorded.parsed + seconds * 1000000
      → seconds * 1000000 ≤ stamp.parsed
      → (check : ReplayCheck) × (replay_check_document cal c report
            (append_journal cal c w enabled report stage at window file).file
            now
            again
          ≡ ok check)
        × (check.status ≡ duplicate)
        × (check.decision ≡ warn)
  replay_check_document-append_journal w file {entry} now again seconds stamp recorded h back
        windows stamps times past recent reaches =
      let (p, loaded, same, facts, made, grown) =
        append_journal-eq-ok cal c enabled report stage at window w file h in
      let after = (append_journal cal c w enabled report stage at window file).file in
      let back_p : ReadsBack c p.entry = subst (ReadsBack c) (sym same) back in
      let same_read = subst (λ e. SameDict e back_p.read) same back_p.same in
      let loads : load_journal cal c true after
          ≡ ok (some (records_of loaded ++ back_p.read ∷ [])) =
        rw grown (load_journal-Prepared cal c file facts back_p) in
      let made_entry = subst (Made cal c report (records_of loaded) stage at window) same made in
      replay_finds cal c report after (records_of loaded) made_entry now again seconds stamp
        recorded same_read loads windows stamps times past recent reaches
