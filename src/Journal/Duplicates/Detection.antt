-- ===== src/Journal/Duplicates/Detection.antt =====
-- A request that was appended to the journal is found by a replay check in the window.
use mcp_guard.Base.{
  String, ℕ, ◌-◌, ◌*◌, ◌≤◌, ◌≡◌, refl, true, false, ◌&&◌, Option, none, some, List, [], ◌∷◌, ◌++◌,
  arith, All, ltb, leb, ◌+◌, sym, ◌∙◌,
}
use mcp_guard.Journal.{is_none, Calendar, Stamp, timestamp, timestamp_argument, window_of}
use mcp_guard.Journal.Duplicates.{
  same_action, concerns, add_match, matches_of, latest_match, earliest_time, prior_duplicate,
  budget_facts_of, report_action, receipt_request, facts_in, no_facts, entry_body, replay_document,
  replay_check_document, ReplayCheck, duplicate,
}
use mcp_guard.Journal.Duplicates.Latest.{Prior, IsMatch, prior_duplicate-Prior}
use mcp_guard.Journal.Entry.{validate_journal_entry_stamp}
use mcp_guard.Journal.File.Valid.{IsValid, load_journal-IsValid}
use mcp_guard.Json.{
  get, equals_text, Fields, Value, obj, arr, str, int, float, nan, infinite, bool, null,
  append_field,
}
use mcp_guard.Jsonl.{Coding}
use mcp_guard.Receipts.{object_at, object_in}
use mcp_guard.Result.{raise_if, ok, ok-injective}
use text.Mathlib.TextPositions.{eq_refl}
use mcp_guard.Base.Int.{ℤ}
use mcp_guard.Journal.Duplicates.Made.{Made}
use mcp_guard.Journal.File.{load_journal, JournalFile, records_of}
use mcp_guard.Models.{warn}
use mcp_guard.Journal.Entry.Same.{leaf}
use mcp_guard.Json.Same.{object_at-SameDict, SameDict}

matches_of_total :
    (cal : Calendar) (c : Coding) (request_id : String) (fingerprint : Option Value)
    (earliest at : ℕ) (records : List Fields)
    → All (IsValid cal c) records
    → (found : List (ℕ × Fields)) × (matches_of cal request_id fingerprint earliest at records
        ≡ ok found)
unfolding matches_of
matches_of_total cal c request_id fingerprint earliest at [] valid = ([], refl)
matches_of_total cal c request_id fingerprint earliest at (e ∷ es) valid =
    let (stamp, stamps) = validate_journal_entry_stamp cal c e valid.0 in
    let (found, rest_ok) = matches_of_total cal c request_id fingerprint earliest at es valid.1 in
    (
      add_match
          ((leb earliest stamp.parsed && leb stamp.parsed at) && concerns request_id fingerprint e)
          stamp.parsed e found,
      rw (stamps, rest_ok),
    )

-- Over valid entries the search returns, at a time that is not too early for the window.
prior_duplicate_total :
    (cal : Calendar) (c : Coding) (records : List Fields) (request_id : String) (at window : ℕ)
    (fingerprint : Option Value)
    → All (IsValid cal c) records
    → window * 1000000 ≤ at
    → (prior : Option Fields) × (prior_duplicate cal records request_id at window fingerprint
        ≡ ok prior)
unfolding prior_duplicate earliest_time raise_if
prior_duplicate_total cal c records request_id at window fingerprint valid reaches =
    let (found, found_ok) =
      matches_of_total cal c request_id fingerprint (at - window * 1000000) at records valid in
    let late : ltb at (window * 1000000) ≡ false = ground arith in
    (latest_match found, rw (late, found_ok))

-- A match in the list is the prior record, or there is another.
not-All-not :
    (P : Fields → Type 0) (records : List Fields) (e : Fields)
    → P e
    → ¬ All (λ d. ¬ P d) (records ++ e ∷ [])
not-All-not P [] e p h = h.0 p
not-All-not P (d ∷ ds) e p h = not-All-not P ds e p h.1

Prior-found :
    (cal : Calendar) (request_id : String) (fingerprint : Option Value) (earliest at : ℕ)
    (records : List Fields) (e : Fields) (prior : Option Fields)
    → IsMatch cal request_id fingerprint earliest at e
    → Prior cal request_id fingerprint earliest at (records ++ e ∷ []) prior
    → (d : Fields) × (prior ≡ some d)
unfolding Prior
Prior-found cal request_id fingerprint earliest at records e none i h =
    absurd (not-All-not (IsMatch cal request_id fingerprint earliest at) records e i h)
Prior-found cal request_id fingerprint earliest at records e (some d) i h = (d, refl)

same_action_self : (v : Option Value) → same_action v v ≡ true
unfolding same_action is_none equals_text
same_action_self none = refl
same_action_self (some (str s)) = eq_refl s
same_action_self (some (obj fs)) = refl
same_action_self (some (arr xs)) = refl
same_action_self (some (int n)) = refl
same_action_self (some (float z k)) = refl
same_action_self (some nan) = refl
same_action_self (some (infinite b)) = refl
same_action_self (some (bool b)) = refl
same_action_self (some null) = refl

-- The facts that an entry records name the action that a replay check looks for.
facts_in-same_action :
    (o : Option Value) {facts : Fields}
    → facts_in o ≡ ok facts
    → same_action (get "action_fingerprint" (object_in o)) (get "action_fingerprint" facts) ≡ true
unfolding facts_in no_facts object_in get same_action is_none
facts_in-same_action none h = rw (← ok-injective h)
facts_in-same_action (some null) h = rw (← ok-injective h)
facts_in-same_action (some (obj found)) h =
    rw (← ok-injective h) (same_action_self (get "action_fingerprint" found))
facts_in-same_action (some (arr xs)) h = cc
facts_in-same_action (some (str s)) h = cc
facts_in-same_action (some (int n)) h = cc
facts_in-same_action (some (float z k)) h = cc
facts_in-same_action (some nan) h = cc
facts_in-same_action (some (infinite b)) h = cc
facts_in-same_action (some (bool b)) h = cc

-- Equal entries concern the same requests.
concerns-SameDict :
    {entry read : Fields}
    → SameDict entry read
    → (request_id : String) (fingerprint : Option Value)
    → concerns request_id fingerprint entry ≡ concerns request_id fingerprint read
unfolding concerns equals_text same_action
concerns-SameDict {entry} {read} s request_id fingerprint = rw (
  leaf entry read s (equals_text request_id) "request_id" (λ _ _. refl),
  leaf (object_at "budget_facts" entry) (object_at "budget_facts" read)
      (object_at-SameDict "budget_facts" s) (same_action fingerprint) "action_fingerprint"
      (λ _ _. refl),
)

module _ (receipt : Fields) (stage : String) (stamp : Stamp) (facts : Fields) (seconds : ℤ)
    (prior : Option Fields) (event : String) where
  abbrev full_entry : Fields
  full_entry =
      append_field (entry_body receipt stage stamp facts seconds prior) "event_id" (str event)

  entry-concerns :
      (fingerprint : Option Value)
      → same_action fingerprint (get "action_fingerprint" facts) ≡ true
      → concerns (receipt_request receipt) fingerprint full_entry ≡ true
  unfolding concerns entry_body append_field get object_at object_in equals_text
  entry-concerns fingerprint h = rw (h, eq_refl (receipt_request receipt))

module _ (cal : Calendar) (c : Coding) (report : Fields) where
  -- The entry that is made of a report concerns the request of the report.
  Made-concerns :
      {records : List Fields} {stage : String} {recorded_at : Option String} {seconds : ℤ}
      {entry : Fields} (made : Made cal c report records stage recorded_at seconds entry)
      → concerns (receipt_request made.receipt) (report_action report) entry ≡ true
  unfolding report_action budget_facts_of object_at
  Made-concerns {stage} {seconds} made = rw made.is_made (
      entry-concerns made.receipt stage made.stamp made.facts seconds made.prior made.event
        (report_action report) (facts_in-same_action (get "budget_facts" report) made.has_facts))

  -- The records end with an entry of the report, in the window before the time: the check finds one.
  pub replay_finds :
      (file : JournalFile) (records : List Fields) {before : List Fields} {stage : String}
      {recorded_at : Option String} {seconds : ℤ} {entry read : Fields}
      (made : Made cal c report before stage recorded_at seconds entry) (now : Option String)
      (again : ℤ) (window : ℕ) (stamp recorded : Stamp)
      → SameDict entry read
      → load_journal cal c true file ≡ ok (some (records ++ read ∷ []))
      → window_of again ≡ ok window
      → timestamp_argument cal now ≡ ok stamp
      → timestamp cal (get "recorded_at" entry) ≡ ok recorded
      → recorded.parsed ≤ stamp.parsed
      → stamp.parsed ≤ recorded.parsed + window * 1000000
      → window * 1000000 ≤ stamp.parsed
      → (check : ReplayCheck) × (replay_check_document cal c report file now again ≡ ok check)
        × (check.status ≡ duplicate)
        × (check.decision ≡ warn)
  unfolding replay_check_document replay_document records_of timestamp
  replay_finds file records {entry} {read} made now again window stamp recorded same loads windows
        stamps times past recent reaches =
      let id = receipt_request made.receipt in
      let action = report_action report in
      let valid = load_journal-IsValid cal c file loads in
      let (prior, found) =
        prior_duplicate_total cal c (records ++ read ∷ []) id stamp.parsed window action valid
          reaches in
      let matched : IsMatch cal id action (stamp.parsed - window * 1000000) stamp.parsed read =
        record {
          stamp = recorded;
          stamps = sym (leaf entry read same (timestamp cal) "recorded_at" (λ _ _. refl)) ∙ times;
          after = omega (arith, recent);
          before = past;
          same = sym (concerns-SameDict same id action) ∙ Made-concerns made;
        } in
      let (_, is_prior) =
        prior_duplicate-Prior cal (records ++ read ∷ []) id stamp.parsed window action found in
      let (d, some_prior) =
        Prior-found cal id action (stamp.parsed - window * 1000000) stamp.parsed records read prior
          matched is_prior in
      (
        replay_document stamp (some d),
        rw (made.receipts, windows, loads, stamps, found, some_prior),
        refl,
        refl,
      )
