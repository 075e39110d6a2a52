-- ===== src/Budgets/Reserved.antt =====
-- When budget_check_document of policylatch/budgets.py allows.
use mcp_guard.Base.{
  String, ◌≡◌, inl, inr, Bool, true, false, some, List, [], ◌∷◌, Any, All, Bool-cases, refl, ap,
  ◌∙◌, Option, none, arith, All-map, contains,
}
use mcp_guard.Budgets.{BudgetResult, JournalRecord}
use mcp_guard.Budgets.Check.{budget_decision, budget_results}
use mcp_guard.Budgets.Document.{
  budget_records, reservation_of, check_reserved, BudgetDocument, Signatures, same_signature,
  unknown_budget, budget_receipt, results_document, is_reserved, check_reservation,
  check_signatures, check_loaded, check_journal, budget_check_document, other_signature,
  no_signature, no_reservation, unavailable, sorted_budgets, facts_of_record,
}
use mcp_guard.Journal.{timestamp, Calendar, Stamp}
use mcp_guard.Journal.Duplicates.{value_at}
use mcp_guard.Journal.File.{load_journal, JournalFile, absent, no_status, unreadable, content}
use mcp_guard.Json.{get, equals_text, as_text, Fields, Value}
use mcp_guard.Jsonl.{Coding}
use mcp_guard.Models.{allow}
use mcp_guard.Policy.{Policy, Budget}
use mcp_guard.Result.{>>=-eq-ok, ok, is_input_error, raise_if-eq-ok, ok-injective, Result, err}
use mathlib.Core.Path.{subst}
use mcp_guard.Budgets.Laws.{budget_decision-allow, Within}
use mcp_guard.Receipts.{object_at}
use mcp_guard.Receipts.Issue.{canonical_policy_hash}
use mcp_guard.Budgets.Rows.{sorted_budgets-All, HasRow, budget_results-HasRow, HasRow-Within}

reservation_of-some :
    (event_id : String) (records : List Fields) {entry : Fields}
    → reservation_of event_id records ≡ some entry
    → Any (λ e. e ≡ entry) records × (equals_text event_id (get "event_id" entry) ≡ true)
unfolding reservation_of
reservation_of-some event_id [] h = cc
reservation_of-some event_id (e ∷ es) {entry} h =
    elim (Bool-cases (equals_text event_id (get "event_id" e))) [
      | inl same ↦
          let here : e ≡ entry = cc (rw same at h) in
          (inl here, subst (λ d. equals_text event_id (get "event_id" d) ≡ true) here same)
      | inr other ↦
          let (there, found) = reservation_of-some event_id es (rw other at h) in (inr there, found)
    ]

-- Every row allows.
abbrev pub AllAllow : List BudgetResult → Type 0
AllAllow rows = All (λ (r : BudgetResult). r.decision ≡ allow) rows

results_document-allow :
    (rows : List BudgetResult) {doc : BudgetDocument}
    → results_document rows ≡ ok doc
    → doc.decision ≡ allow
    → AllAllow doc.results
unfolding results_document
results_document-allow rows {doc} h allowed_now =
    let (decision, decided, h1) = >>=-eq-ok (budget_decision rows) _ h in
    let same_decision : decision ≡ doc.decision =
      ap (λ (d : BudgetDocument). d.decision) (ok-injective h1) in
    let same_rows : rows ≡ doc.results = ap (λ (d : BudgetDocument). d.results) (ok-injective h1) in
    subst AllAllow same_rows
      (budget_decision-allow rows (decided ∙ ap ok (same_decision ∙ allowed_now)))

results_document-results :
    (rows : List BudgetResult) {doc : BudgetDocument}
    → results_document rows ≡ ok doc
    → rows ≡ doc.results
unfolding results_document
results_document-results rows {doc} h =
    let (decision, _, h1) = >>=-eq-ok (budget_decision rows) _ h in
    ap (λ (d : BudgetDocument). d.results) (ok-injective h1)

deny-ne-allow :
    (rule message : String) {doc : BudgetDocument}
    → ok (unknown_budget rule message) ≡ ok doc
    → ¬ (doc.decision ≡ allow)
unfolding unknown_budget
deny-ne-allow rule message h allowed_now =
    let denied = ap (λ (d : BudgetDocument). d.decision) (ok-injective h) in cc

module _ (cal : Calendar) (c : Coding) (sum : List Value → Value) (exceeds : Value → Value → Bool)
    (number : Value → String) (policy : Policy) where
  -- The rows of the document are those of the budgets of the policy, over the records of the journal and
  -- at the time of the reservation: each budget that applies has its row, keeps within its limit, and no row
  -- says other than allow.
  pub record Budgeted (records : List Fields) (entry : Fields) (doc : BudgetDocument) : Type 0 where
    pub stamp : Stamp
    pub journal : List JournalRecord
    pub stamps : timestamp cal (get "recorded_at" entry) ≡ ok stamp
    pub journals : budget_records cal records ≡ ok journal
    pub allowing : AllAllow doc.results
    pub has_rows :
        All
          (HasRow sum exceeds number (facts_of_record entry) stamp.parsed journal doc.results)
          policy.budgets
    pub within :
        All
          (λ (p : String × Budget).
            contains p.1.action_types (facts_of_record entry).action_type ≡ true
            → Within sum exceeds number p.1 (facts_of_record entry) stamp.parsed journal)
          policy.budgets

  -- The journal holds a reservation for the receipt, and the budgets allow.
  pub record Reserved (receipt : Fields) (event_id : String) (signatures : Signatures)
      (file : JournalFile) (doc : BudgetDocument) : Type 0 where
    pub records : List Fields
    pub entry : Fields
    pub loads : load_journal cal c false file ≡ ok (some records)
    pub unchanged : signatures ≡ same_signature
    pub listed : Any (λ e. e ≡ entry) records
    pub named : equals_text event_id (get "event_id" entry) ≡ true
    pub proposed : equals_text "proposed" (get "stage" entry) ≡ true
    pub receipted :
        equals_text
          (as_text (value_at "receipt_fingerprint" receipt))
          (get "receipt_fingerprint" entry)
        ≡ true
    pub budgeted : Budgeted records entry doc

  check_reserved-Budgeted :
      (records : List Fields) (entry : Fields) {doc : BudgetDocument}
      → check_reserved cal c sum exceeds number policy records entry ≡ ok doc
      → doc.decision ≡ allow
      → Budgeted records entry doc
  unfolding check_reserved
  check_reserved-Budgeted records entry {doc} h allowed_now =
      let (stamp, stamps, h1) = >>=-eq-ok (timestamp cal (get "recorded_at" entry)) _ h in
      let (journal, journals, h1') = >>=-eq-ok (budget_records cal records) _ h1 in
      let (in_calendar, h2) = raise_if-eq-ok _ _ _ h1' in
      let facts = facts_of_record entry in
      let rows =
        budget_results sum exceeds number (sorted_budgets policy.budgets) facts stamp.parsed
          journal in
      let same : rows ≡ doc.results = results_document-results rows h2 in
      let allowing = results_document-allow rows h2 allowed_now in
      let has_rows : All (HasRow sum exceeds number facts stamp.parsed journal doc.results)
          policy.budgets =
        sorted_budgets-All _ policy.budgets (
          subst
            (λ rs.
              All (HasRow sum exceeds number facts stamp.parsed journal rs)
                (sorted_budgets policy.budgets))
            same
            (budget_results-HasRow sum exceeds number facts stamp.parsed journal
              (sorted_budgets policy.budgets))) in
      record {
        stamp = stamp;
        journal = journal;
        stamps = stamps;
        journals = journals;
        allowing = allowing;
        has_rows = has_rows;
        within =
            All-map
              (λ p has_row.
                HasRow-Within sum exceeds number facts stamp.parsed journal doc.results p allowing
                  has_row)
              policy.budgets has_rows;
      }

  check_reservation-Reserved :
      (receipt : Fields) (event_id : String) (file : JournalFile) (records : List Fields)
      (o : Option Fields) {doc : BudgetDocument}
      → load_journal cal c false file ≡ ok (some records)
      → reservation_of event_id records ≡ o
      → check_reservation cal c sum exceeds number policy receipt records o ≡ ok doc
      → doc.decision ≡ allow
      → Reserved receipt event_id same_signature file doc
  unfolding check_reservation is_reserved no_reservation
  check_reservation-Reserved receipt event_id file records none loads found h allowed_now =
      absurd (deny-ne-allow _ _ h allowed_now)
  check_reservation-Reserved receipt event_id file records (some entry) loads found h allowed_now =
      elim (Bool-cases (is_reserved receipt entry)) [
        | inl reserved ↦
            let (listed, named) = reservation_of-some event_id records found in
            record {
              records = records;
              entry = entry;
              loads = loads;
              unchanged = refl;
              listed = listed;
              named = named;
              proposed = ground (arith, reserved);
              receipted = ground (arith, reserved);
              budgeted = check_reserved-Budgeted records entry (rw reserved at h) allowed_now;
            }
        | inr not_reserved ↦ absurd (deny-ne-allow _ _ (rw not_reserved at h) allowed_now)
      ]

  check_loaded-Reserved :
      (receipt : Fields) (event_id : String) (signatures : Signatures) (file : JournalFile)
      (r : Result (Option (List Fields))) {doc : BudgetDocument}
      → load_journal cal c false file ≡ r
      → check_loaded cal c sum exceeds number policy receipt event_id signatures r ≡ ok doc
      → doc.decision ≡ allow
      → Reserved receipt event_id signatures file doc
  unfolding check_loaded check_signatures unavailable
  check_loaded-Reserved receipt event_id no_signature file (ok loaded) loads h allowed_now =
      absurd (deny-ne-allow _ _ h allowed_now)
  check_loaded-Reserved receipt event_id other_signature file (ok loaded) loads h allowed_now =
      absurd (deny-ne-allow _ _ h allowed_now)
  check_loaded-Reserved receipt event_id same_signature file (ok none) loads h allowed_now =
      absurd (deny-ne-allow _ _ h allowed_now)
  check_loaded-Reserved receipt event_id same_signature file (ok (some records)) loads h
        allowed_now =
      check_reservation-Reserved receipt event_id file records _ loads refl h allowed_now
  check_loaded-Reserved receipt event_id signatures file (err e) loads h allowed_now =
      elim (Bool-cases (is_input_error e)) [
        | inl caught ↦ absurd (deny-ne-allow _ _ (rw caught at h) allowed_now)
        | inr escapes_try ↦ cc (rw escapes_try at h)
      ]

  check_journal-Reserved :
      (receipt : Fields) (event_id : String) (signatures : Signatures) (file : JournalFile)
      {doc : BudgetDocument}
      → check_journal cal c sum exceeds number policy receipt event_id signatures file ≡ ok doc
      → doc.decision ≡ allow
      → Reserved receipt event_id signatures file doc
  unfolding check_journal unavailable
  check_journal-Reserved receipt event_id signatures absent h allowed_now =
      absurd (deny-ne-allow _ _ h allowed_now)
  check_journal-Reserved receipt event_id signatures (no_status m) h allowed_now =
      absurd (deny-ne-allow _ _ h allowed_now)
  check_journal-Reserved receipt event_id signatures (unreadable size m) h allowed_now =
      check_loaded-Reserved receipt event_id signatures (unreadable size m) _ refl h allowed_now
  check_journal-Reserved receipt event_id signatures (content bytes) h allowed_now =
      check_loaded-Reserved receipt event_id signatures (content bytes) _ refl h allowed_now

  -- A budget check that allows has read a valid receipt of the report that was made under the same policy,
  -- and a journal that loads and did not change meanwhile; the journal holds the named reservation, in
  -- stage proposed and for that receipt; and every budget of the policy that applies to the reserved action
  -- has its row in the document, which allows, and is within its limit over the records of the journal at
  -- the time of the reservation.
  pub budget_check_document-allow :
      (report document : Fields) (signatures : Signatures) (file : JournalFile) (event_id : String)
      {doc : BudgetDocument}
      → budget_check_document cal c sum exceeds number report policy document signatures file
          event_id
        ≡ ok doc
      → doc.decision ≡ allow
      → (receipt : Fields) × (budget_receipt c report ≡ ok receipt)
        × ((policy_hash : String) × (canonical_policy_hash c document ≡ ok policy_hash)
            × (equals_text policy_hash (get "hash" (object_at "policy" receipt)) ≡ true))
        × Reserved receipt event_id signatures file doc
  unfolding budget_check_document
  budget_check_document-allow report document signatures file event_id {doc} h allowed_now =
      let (_, h1) = raise_if-eq-ok _ _ _ h in
      let (receipt, receipts, h2) = >>=-eq-ok (budget_receipt c report) _ h1 in
      let (policy_hash, hashes, h3) = >>=-eq-ok (canonical_policy_hash c document) _ h2 in
      elim (Bool-cases (equals_text policy_hash (get "hash" (object_at "policy" receipt)))) [
        | inl same_policy ↦ (
          receipt,
          receipts,
          (policy_hash, hashes, same_policy),
          check_journal-Reserved receipt event_id signatures file (rw same_policy at h3)
              allowed_now,
        )
        | inr other_policy ↦ absurd (deny-ne-allow _ _ (rw other_policy at h3) allowed_now)
      ]
