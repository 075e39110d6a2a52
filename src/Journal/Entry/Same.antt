-- ===== src/Journal/Entry/Same.antt =====
-- validate_journal_entry of policylatch/journal.py does not look at the order of the keys.
use mcp_guard.Base.{
  String, ◌≡◌, refl, not, Option, some, [], ◌∷◌, any, sym, ◌∙◌, inl, inr, ◌||◌, none, List, ◌==◌,
  Bool-cases,
}
use mcp_guard.Journal.{stages, timestamp, Calendar, check_window, pick, event_core, is_none}
use mcp_guard.Journal.Entry.{
  check_header, check_texts, check_budget_facts, check_duplicate, check_entry,
  validate_journal_entry, valid_fact_impact, legacy_budget_fields, is_bool, is_true, check_event,
}
use mcp_guard.Json.{
  get, equals_one, equals_text, in_set, Fields, Value, obj, is_text, is_object, field,
}
use mcp_guard.Json.Same.{
  same_leaf, exactly_fields-SameDict, SameDict, object_at-SameDict, SameField, no_field,
  both_fields,
}
use mcp_guard.Result.{◌>>=◌, raise_if, input_error, for_each, >>=-eq-ok, ok, Result, err}
use mcp_guard.Jsonl.{canonical, hash, Coding}
use mcp_guard.Receipts.{object_at, is_list_of, text_value, is_fingerprint}

module _ (fs gs : Fields) (s : SameDict fs gs) where
  pub leaf {ℓ} :
      {X : Type ℓ} (f : Option Value → X) (name : String)
      → ((hs is : Fields) → f (some (obj hs)) ≡ f (some (obj is)))
      → f (get name fs) ≡ f (get name gs)
  leaf f name h = same_leaf f h (s.under name)

check_header-SameDict :
    (cal : Calendar) {fs gs : Fields} → SameDict fs gs → check_header cal fs ≡ check_header cal gs
unfolding check_header equals_one equals_text in_set timestamp
check_header-SameDict cal {fs} {gs} s = rw (
  exactly_fields-SameDict _ s,
  leaf fs gs s equals_one "schema_version" (λ _ _. refl),
  leaf fs gs s (equals_text "agent_action_audit") "kind" (λ _ _. refl),
  leaf fs gs s (λ o. any (λ stage. equals_text stage o) stages) "stage" (λ _ _. refl),
  leaf fs gs s (equals_text "unverified") "verification_state" (λ _ _. refl),
  leaf fs gs s (in_set ("allow" ∷ "warn" ∷ "deny" ∷ [])) "decision" (λ _ _. refl),
  leaf fs gs s
      (λ o. timestamp cal o >>= λ stamp.
        raise_if (not (equals_text stamp.normalized o))
          (input_error "Journal entry recorded_at must be normalized UTC seconds."))
      "recorded_at" (λ _ _. refl),
)

check_texts-SameDict : {fs gs : Fields} → SameDict fs gs → check_texts fs ≡ check_texts gs
unfolding check_texts is_fingerprint is_text equals_text is_list_of
check_texts-SameDict {fs} {gs} s = rw (
  leaf fs gs s is_fingerprint "event_id" (λ _ _. refl),
  leaf fs gs s is_fingerprint "request_id" (λ _ _. refl),
  leaf fs gs s is_fingerprint "receipt_fingerprint" (λ _ _. refl),
  leaf fs gs s is_fingerprint "policy_hash" (λ _ _. refl),
  leaf fs gs s (λ o. not (is_text o) || equals_text "" o) "evaluator_version" (λ _ _. refl),
  leaf fs gs s (is_list_of text_value) "rule_ids" (λ _ _. refl),
)

check_budget_facts-SameDict :
    {fs gs : Fields} → SameDict fs gs → check_budget_facts fs ≡ check_budget_facts gs
unfolding check_budget_facts for_each is_object in_set is_fingerprint is_none valid_fact_impact
check_budget_facts-SameDict {fs} {gs} s =
    let t = object_at-SameDict "budget_facts" s in
    let hs = object_at "budget_facts" fs in
    let is = object_at "budget_facts" gs in
    let print : (name : String)
        → (is_none (get name hs) || is_fingerprint (get name hs))
          ≡ (is_none (get name is) || is_fingerprint (get name is)) =
      λ name. leaf hs is t (λ o. is_none o || is_fingerprint o) name (λ _ _. refl) in
    rw (
      leaf fs gs s is_object "budget_facts" (λ _ _. refl),
      exactly_fields-SameDict legacy_budget_fields t,
      exactly_fields-SameDict ("action_fingerprint" ∷ legacy_budget_fields) t,
      leaf hs is t (in_set ("file" ∷ "filesystem" ∷ "network" ∷ "shell" ∷ "unknown" ∷ []))
          "action_type" (λ _ _. refl),
      leaf hs is t (in_set ("confirmed" ∷ "estimated" ∷ "unknown" ∷ [])) "confirmation"
          (λ _ _. refl),
      leaf hs is t (in_set ("small" ∷ "medium" ∷ "large" ∷ "unknown" ∷ [])) "payload_size_class"
          (λ _ _. refl),
      leaf hs is t valid_fact_impact "impact" (λ _ _. refl),
      print "action_fingerprint",
      print "target_fingerprint",
      print "tool_fingerprint",
    )

check_duplicate-SameDict :
    {fs gs : Fields} → SameDict fs gs → check_duplicate fs ≡ check_duplicate gs
unfolding check_duplicate is_object is_bool is_true check_window is_none is_fingerprint
check_duplicate-SameDict {fs} {gs} s =
    let t = object_at-SameDict "duplicate" s in
    let hs = object_at "duplicate" fs in
    let is = object_at "duplicate" gs in
    rw (
      leaf fs gs s is_object "duplicate" (λ _ _. refl),
      exactly_fields-SameDict ("detected" ∷ "window_seconds" ∷ "prior_event_id" ∷ []) t,
      leaf hs is t is_bool "detected" (λ _ _. refl),
      leaf hs is t is_true "detected" (λ _ _. refl),
      leaf hs is t check_window "window_seconds" (λ _ _. refl),
      leaf hs is t is_none "prior_event_id" (λ _ _. refl),
      leaf hs is t is_fingerprint "prior_event_id" (λ _ _. refl),
    )

-- pick keeps equality.
pick-SameDict :
    {fs gs : Fields} (names : List String)
    → SameDict fs gs
    → SameDict (pick names fs) (pick names gs)
unfolding pick get
pick-SameDict [] s = record { under = λ k. no_field }
pick-SameDict {fs} {gs} (name ∷ names) s =
    put (get name fs) (get name gs) (s.under name) (pick-SameDict names s)
  where
    put :
        (a b : Option Value) {hs is : Fields}
        → SameField a b
        → SameDict hs is
        → SameDict
            (elim a as (λ _. Fields) [ none ↦ hs | some v ↦ field name v hs ])
            (elim b as (λ _. Fields) [ none ↦ is | some v ↦ field name v is ])
    put none none no_field t = t
    put none (some w) f t = elim f [ ]
    put (some v) none f t = elim f [ ]
    put (some v) (some w) (both_fields same) t = record {
      under = λ k. elim (Bool-cases (name == k)) [
        | inl here ↦ rw here (both_fields same)
        | inr other ↦ rw other (t.under k)
      ];
    }

-- The keys are written in their order, so that equal dicts have the same text: sort_keys=True.
abbrev pub SortsKeys : Coding → Type 0
SortsKeys c = (fs gs : Fields) → SameDict fs gs → c.dumps (obj fs) ≡ c.dumps (obj gs)

hash-SameDict :
    (c : Coding) {fs gs : Fields} → SortsKeys c → SameDict fs gs → hash c (obj fs) ≡ hash c (obj gs)
unfolding hash canonical
hash-SameDict c {fs} {gs} sorts s = rw (sorts fs gs s)

event_core-SameDict : {fs gs : Fields} → SameDict fs gs → SameDict (event_core fs) (event_core gs)
unfolding event_core
event_core-SameDict s =
    pick-SameDict
      ("schema_version" ∷ "kind" ∷ "request_id" ∷ "receipt_fingerprint" ∷ "stage"
        ∷ "verification_state" ∷ "recorded_at" ∷ "decision" ∷ "policy_hash" ∷ "evaluator_version"
        ∷ "rule_ids" ∷ "budget_facts" ∷ [])
      s

check_event-SameDict :
    (c : Coding) {fs gs : Fields}
    → SortsKeys c
    → SameDict fs gs
    → check_event c fs ≡ check_event c gs
unfolding check_event equals_text
check_event-SameDict c {fs} {gs} sorts s =
    let same_id : (event : String)
        → equals_text event (get "event_id" fs) ≡ equals_text event (get "event_id" gs) =
      λ event. leaf fs gs s (equals_text event) "event_id" (λ _ _. refl) in
    rw (hash-SameDict c sorts (event_core-SameDict s))
      (compared (hash c (obj (event_core gs))) same_id)
  where
    compared :
        (r : Result String)
        → ((event : String)
            → equals_text event (get "event_id" fs) ≡ equals_text event (get "event_id" gs))
        → (r >>= λ event.
            raise_if
              (not (equals_text event (get "event_id" fs)))
              (input_error "Journal entry event_id does not match canonical content."))
          ≡ (r >>= λ event.
              raise_if
                (not (equals_text event (get "event_id" gs)))
                (input_error "Journal entry event_id does not match canonical content."))
    compared (err e) same_id = refl
    compared (ok event) same_id = rw (same_id event)

check_entry-SameDict :
    (cal : Calendar) (c : Coding) {fs gs : Fields}
    → SortsKeys c
    → SameDict fs gs
    → check_entry cal c fs ≡ check_entry cal c gs
unfolding check_entry
check_entry-SameDict cal c sorts s = rw (
  check_header-SameDict cal s,
  check_texts-SameDict s,
  check_budget_facts-SameDict s,
  check_duplicate-SameDict s,
  check_event-SameDict c sorts s,
)

-- An entry that equals a valid one is valid.
pub validate_journal_entry-SameDict :
    (cal : Calendar) (c : Coding) {fs gs : Fields}
    → SortsKeys c
    → SameDict fs gs
    → validate_journal_entry cal c fs ≡ ok fs
    → validate_journal_entry cal c gs ≡ ok gs
unfolding validate_journal_entry
validate_journal_entry-SameDict cal c {fs} {gs} sorts s h =
    let (_, valid, _) = >>=-eq-ok (check_entry cal c fs) _ h in
    let moved : check_entry cal c gs ≡ ok tt = sym (check_entry-SameDict cal c sorts s) ∙ valid in
    rw moved
