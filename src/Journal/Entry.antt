-- ===== src/Journal/Entry.antt =====
-- validate_journal_entry of policylatch/journal.py.
pub mod Same
use mcp_guard.Base.{
  String, ◌<>◌, Bool, true, false, not, ◌&&◌, ◌||◌, Option, none, some, List, [], ◌∷◌,
  if◌then◌else◌, any, all, ◌≡◌,
}
use mcp_guard.Base.Int.{pos}
use mcp_guard.Journal.{stages, timestamp, check_window, event_core, is_none, Calendar, Stamp}
use mcp_guard.Json.{
  get, exactly_fields, equals_one, equals_text, is_text, is_object, in_set, Fields, Value, obj, int,
  float, nan, infinite, bool, null,
}
use mcp_guard.Jsonl.{hash, Coding}
use mcp_guard.Receipts.{object_at, is_list_of, text_value, is_fingerprint}
use mcp_guard.Result.{
  ◌>>=◌, ◌>>◌, raise_if, for_each, input_error, Result, ok, >>=-eq-ok, ok-injective, raise_if-eq-ok,
}

unfoldable pub check_header : Calendar → Fields → Result (Unit {0})
check_header cal entry = do
  raise_if
      (not (
        exactly_fields
          ("schema_version" ∷ "kind" ∷ "event_id" ∷ "request_id" ∷ "receipt_fingerprint" ∷ "stage"
            ∷ "verification_state" ∷ "recorded_at" ∷ "decision" ∷ "policy_hash"
            ∷ "evaluator_version" ∷ "rule_ids" ∷ "duplicate" ∷ "budget_facts" ∷ [])
          entry))
      (input_error "Journal entry fields do not match schema version 1.")
  raise_if
      (not (
        equals_one (get "schema_version" entry)
        && equals_text "agent_action_audit" (get "kind" entry)))
      (input_error "Journal entry schema or kind is invalid.")
  raise_if (not (any (λ stage. equals_text stage (get "stage" entry)) stages))
      (input_error "Journal entry stage is invalid.")
  raise_if (not (equals_text "unverified" (get "verification_state" entry)))
      (input_error "General journal entries must remain unverified.")
  decided ← in_set ("allow" ∷ "warn" ∷ "deny" ∷ []) (get "decision" entry)
  raise_if (not decided) (input_error "Journal entry decision is invalid.")
  stamp ← timestamp cal (get "recorded_at" entry)
  raise_if (not (equals_text stamp.normalized (get "recorded_at" entry)))
      (input_error "Journal entry recorded_at must be normalized UTC seconds.")

unfoldable pub check_texts : Fields → Result (Unit {0})
check_texts entry = do
  raise_if
      (not (
        all (λ name. is_fingerprint (get name entry))
          ("event_id" ∷ "request_id" ∷ "receipt_fingerprint" ∷ "policy_hash" ∷ [])))
      (input_error "Journal entry contains an invalid fingerprint.")
  raise_if
      (not (is_text (get "evaluator_version" entry))
        || equals_text "" (get "evaluator_version" entry))
      (input_error "Journal entry evaluator_version is invalid.")
  raise_if (not (is_list_of text_value (get "rule_ids" entry)))
      (input_error "Journal entry rule_ids must be an array of strings.")

-- impact is None, or a number that is no `bool` and not below 0; a NaN is not
unfoldable valid_fact_impact : Option Value → Bool
valid_fact_impact none = true
valid_fact_impact (some null) = true
valid_fact_impact (some (int (pos n))) = true
valid_fact_impact (some (float (pos z) k)) = true
valid_fact_impact (some nan) = true
valid_fact_impact (some (infinite negative)) = not negative
valid_fact_impact (some _) = false

unfoldable legacy_budget_fields : List String
legacy_budget_fields =
    "action_type" ∷ "confirmation" ∷ "impact" ∷ "payload_size_class" ∷ "target_fingerprint"
    ∷ "tool_fingerprint" ∷ []

unfoldable pub check_budget_facts : Fields → Result (Unit {0})
unfolding legacy_budget_fields valid_fact_impact
check_budget_facts entry = do
  let facts = object_at "budget_facts" entry
  raise_if
      (not (
        is_object (get "budget_facts" entry)
        && (exactly_fields legacy_budget_fields facts
            || exactly_fields ("action_fingerprint" ∷ legacy_budget_fields) facts)))
      (input_error "Journal entry budget_facts are invalid.")
  typed ←
      in_set ("file" ∷ "filesystem" ∷ "network" ∷ "shell" ∷ "unknown" ∷ [])
        (get "action_type" facts)
  raise_if (not typed) (input_error "Journal entry budget fact state is invalid.")
  confirmed ← in_set ("confirmed" ∷ "estimated" ∷ "unknown" ∷ []) (get "confirmation" facts)
  raise_if (not confirmed) (input_error "Journal entry budget fact state is invalid.")
  sized ← in_set ("small" ∷ "medium" ∷ "large" ∷ "unknown" ∷ []) (get "payload_size_class" facts)
  raise_if (not sized) (input_error "Journal entry payload size class is invalid.")
  raise_if (not (valid_fact_impact (get "impact" facts)))
      (input_error "Journal entry impact is invalid.")
  for_each
      (λ name.
        raise_if (not (is_none (get name facts) || is_fingerprint (get name facts)))
          (input_error ("Journal entry " <> (name <> " is invalid."))))
      ("action_fingerprint" ∷ "target_fingerprint" ∷ "tool_fingerprint" ∷ [])

unfoldable is_bool : Option Value → Bool
is_bool (some (bool b)) = true
is_bool _ = false

unfoldable is_true : Option Value → Bool
is_true (some (bool b)) = b
is_true _ = false

unfoldable pub check_duplicate : Fields → Result (Unit {0})
unfolding is_bool is_true
check_duplicate entry = do
  let duplicate = object_at "duplicate" entry
  raise_if
      (not (
        is_object (get "duplicate" entry)
        && exactly_fields ("detected" ∷ "window_seconds" ∷ "prior_event_id" ∷ []) duplicate))
      (input_error "Journal entry duplicate metadata is invalid.")
  raise_if (not (is_bool (get "detected" duplicate)))
      (input_error "Journal entry duplicate.detected must be boolean.")
  check_window (get "window_seconds" duplicate)
  let referred = not (is_none (get "prior_event_id" duplicate))
  raise_if (if is_true (get "detected" duplicate) then not referred else referred)
      (input_error "Journal entry duplicate prior reference is inconsistent.")
  raise_if (referred && not (is_fingerprint (get "prior_event_id" duplicate)))
      (input_error "Journal entry prior_event_id is invalid.")

unfoldable pub check_event : Coding → Fields → Result (Unit {0})
check_event c entry = do
  event ← hash c (obj (event_core entry))
  raise_if (not (equals_text event (get "event_id" entry)))
      (input_error "Journal entry event_id does not match canonical content.")

unfoldable pub check_entry : Calendar → Coding → Fields → Result (Unit {0})
unfolding check_header check_texts check_budget_facts check_duplicate check_event
check_entry cal c entry = do
  check_header cal entry
  check_texts entry
  check_budget_facts entry
  check_duplicate entry
  check_event c entry

unfoldable pub validate_journal_entry : Calendar → Coding → Fields → Result Fields
unfolding check_entry
validate_journal_entry cal c entry = do check_entry cal c entry; ok entry

-- record["duplicate"]["detected"] of an entry that is checked
unfoldable pub detected : Fields → Bool
unfolding is_true
detected entry = is_true (get "detected" (object_at "duplicate" entry))

-- A check returns the entry that it is given.
pub validate_journal_entry-eq-ok :
    (cal : Calendar) (c : Coding) (entry : Fields) {checked : Fields}
    → validate_journal_entry cal c entry ≡ ok checked
    → validate_journal_entry cal c checked ≡ ok checked
unfolding validate_journal_entry
validate_journal_entry-eq-ok cal c entry {checked} h =
    let (_, valid, e) = >>=-eq-ok (check_entry cal c entry) _ h in
    let same : entry ≡ checked = ok-injective e in
    let moved : validate_journal_entry cal c checked ≡ ok checked = rw same at h in moved

pub validate_journal_entry_same :
    (cal : Calendar) (c : Coding) (entry : Fields) {checked : Fields}
    → validate_journal_entry cal c entry ≡ ok checked
    → entry ≡ checked
unfolding validate_journal_entry
validate_journal_entry_same cal c entry h =
    let (_, valid, e) = >>=-eq-ok (check_entry cal c entry) _ h in ok-injective e

-- The time of an entry that is valid can be read.
pub validate_journal_entry_stamp :
    (cal : Calendar) (c : Coding) (entry : Fields) {checked : Fields}
    → validate_journal_entry cal c entry ≡ ok checked
    → (stamp : Stamp) × (timestamp cal (get "recorded_at" entry) ≡ ok stamp)
unfolding validate_journal_entry check_entry check_header
validate_journal_entry_stamp cal c entry h =
    let (_, valid, _) = >>=-eq-ok (check_entry cal c entry) _ h in
    let (_, header, _) = >>=-eq-ok (check_header cal entry) _ valid in
    let (_, h1) = raise_if-eq-ok _ _ _ header in
    let (_, h2) = raise_if-eq-ok _ _ _ h1 in
    let (_, h3) = raise_if-eq-ok _ _ _ h2 in
    let (_, h4) = raise_if-eq-ok _ _ _ h3 in
    let (_, _, h5) =
      >>=-eq-ok (in_set ("allow" ∷ "warn" ∷ "deny" ∷ []) (get "decision" entry)) _ h4 in
    let (_, h6) = raise_if-eq-ok _ _ _ h5 in
    let (stamp, stamps, _) = >>=-eq-ok (timestamp cal (get "recorded_at" entry)) _ h6 in
    (stamp, stamps)
