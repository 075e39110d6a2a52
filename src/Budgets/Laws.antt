-- ===== src/Budgets/Laws.antt =====
-- What the budget check of policylatch/budgets.py counts, and when it allows.
-- A record that applies to a budget is confirmed.
use mcp_guard.Base.{
  ℕ, ◌≤◌, String, ◌≡◌, inl, inr, true, List, [], ◌∷◌, length, All, ◌==◌, Bool-cases, refl, Bool,
  arith, ◌⊎◌, false, map, ltb, if◌then◌else◌,
}
use mcp_guard.Budgets.{
  applies, consider, gather, passes, halts, counts, gathered, BudgetFacts, JournalRecord,
  add_candidate, proceed, unknown_state, Step, Gathered, BudgetResult, Usage,
}
use mcp_guard.Policy.{Budget}
use mcp_guard.Budgets.Check.{
  budget_result, measure, over, result_row, unknown_row, measured_row, row_of, row_for,
  budget_decision,
}
use mcp_guard.Json.{Value}
use mcp_guard.Models.{allow, highest, deny, rank, max_decision, Decision}
use mcp_guard.Result.{ok, ok-injective}
use mathlib.Core.Path.{subst}

abbrev pub Confirmed : Budget → ℕ → JournalRecord → Type 0
Confirmed budget current r =
    applies budget current r ≡ true → (r.facts.confirmation == "confirmed") ≡ true

-- A record that is counted applies to the budget and is confirmed.
abbrev pub Counted : Budget → ℕ → JournalRecord → Type 0
Counted budget current r =
    (applies budget current r ≡ true) × ((r.facts.confirmation == "confirmed") ≡ true)

deny-allow : ¬ (deny ≡ allow)
deny-allow h = cc

halts-counts : {m : String} {seen : List String} → ¬ (halts m ≡ counts seen)
halts-counts h = cc

halts-passes : {m : String} → ¬ (halts m ≡ passes)
halts-passes h = cc

passes-counts : {seen : List String} → ¬ (passes ≡ counts seen)
passes-counts h = cc

gathered-injective : {a b : List JournalRecord} → gathered a ≡ gathered b → a ≡ b
gathered-injective h = cc

module _ (budget : Budget) (facts : BudgetFacts) (current : ℕ) where
  consider-Counted :
      (seen more : List String) (r : JournalRecord)
      → consider budget facts current seen r ≡ counts more
      → Counted budget current r
  unfolding consider
  consider-Counted seen more r h = elim (Bool-cases (applies budget current r)) [
    | inl on ↦ elim (Bool-cases (r.facts.confirmation == "confirmed")) [
      | inl sure ↦ (on, sure)
      | inr open_state ↦ absurd (halts-counts (rw (on, open_state) at h))
    ]
    | inr off ↦ absurd (passes-counts (rw off at h))
  ]

  consider-Confirmed :
      (seen : List String) (r : JournalRecord)
      → consider budget facts current seen r ≡ passes
      → Confirmed budget current r
  unfolding consider
  consider-Confirmed seen r h on = elim (Bool-cases (r.facts.confirmation == "confirmed")) [
    | inl sure ↦ sure
    | inr open_state ↦ absurd (halts-passes (rw (on, open_state) at h))
  ]

  -- What the loop has gathered, if it does not end in an unknown state.
  pub record IsGathered (records found : List JournalRecord) : Type 0 where
    pub sure : All (Confirmed budget current) records
    pub counted : All (Counted budget current) found
    pub bound : length found ≤ length records

  nothing-IsGathered : IsGathered [] []
  nothing-IsGathered = record { sure = tt; counted = tt; bound = omega arith }

  candidate-IsGathered :
      (r : JournalRecord) (rs found : List JournalRecord) (rest : Gathered)
      → add_candidate r rest ≡ gathered found
      → ((more : List JournalRecord) → rest ≡ gathered more → IsGathered rs more)
      → Counted budget current r
      → IsGathered (r ∷ rs) found
  unfolding add_candidate
  candidate-IsGathered r rs found (unknown_state m) h ih c = cc
  candidate-IsGathered r rs found (gathered more) h ih c =
      let it = ih more refl in let e : r ∷ more ≡ found = cc in rw e at (whole it)
    where
      whole : IsGathered rs more → IsGathered (r ∷ rs) (r ∷ more)
      whole it = record {
        sure = ((λ on. c.1), it.sure);
        counted = (c, it.counted);
        bound = omega (arith, it.bound);
      }

  proceed-IsGathered :
      (seen : List String) (r : JournalRecord) (rs found : List JournalRecord) (step : Step)
      → consider budget facts current seen r ≡ step
      → ((s : List String) (more : List JournalRecord)
          → gather budget facts current s rs ≡ gathered more
          → IsGathered rs more)
      → proceed step r seen (λ s. gather budget facts current s rs) ≡ gathered found
      → IsGathered (r ∷ rs) found
  unfolding proceed
  proceed-IsGathered seen r rs found passes e ih h =
      let it = ih seen found h in
      record {
        sure = (consider-Confirmed seen r e, it.sure);
        counted = it.counted;
        bound = omega (arith, it.bound);
      }
  proceed-IsGathered seen r rs found (halts m) e ih h = cc
  proceed-IsGathered seen r rs found (counts more) e ih h =
      candidate-IsGathered r rs found (gather budget facts current more rs) h (ih more)
        (consider-Counted seen more r e)

  -- If the loop over the records ends in a known state, then every record that applies is confirmed,
  -- and the candidates are records that apply, no more than there are records.
  pub gather-IsGathered :
      (seen : List String) (records found : List JournalRecord)
      → gather budget facts current seen records ≡ gathered found
      → IsGathered records found
  unfolding gather
  gather-IsGathered seen [] found h =
      subst (λ more. IsGathered [] more) (gathered-injective h) nothing-IsGathered
  gather-IsGathered seen (r ∷ rs) found h =
      proceed-IsGathered seen r rs found (consider budget facts current seen r) refl
        (λ s more. gather-IsGathered s rs more) h

module _ (sum : List Value → Value) (exceeds : Value → Value → Bool) (number : Value → String) where
  -- The state is known and the usage of the gathered records is not over the limit.
  pub record Within (budget : Budget) (facts : BudgetFacts) (current : ℕ)
      (records : List JournalRecord) : Type 0 where
    pub confirmed : (facts.confirmation == "confirmed") ≡ true
    pub found : List JournalRecord
    pub known : gather budget facts current [] records ≡ gathered found
    pub usage : Usage
    pub measured : measure sum exceeds number budget.metric found ≡ inl usage
    pub under : over sum exceeds number usage budget.limit ≡ false

  measured_row-allow :
      (name : String) (budget : Budget) (usage : Usage)
      → (measured_row sum exceeds number name budget usage).decision ≡ allow
      → over sum exceeds number usage budget.limit ≡ false
  unfolding measured_row result_row
  measured_row-allow name budget usage h = ground arith

  row_of-allow :
      (name : String) (budget : Budget) (m : Usage ⊎ String)
      → (row_of sum exceeds number name budget m).decision ≡ allow
      → (usage : Usage) × (m ≡ inl usage) × (over sum exceeds number usage budget.limit ≡ false)
  unfolding row_of unknown_row result_row
  row_of-allow name budget (inl usage) h = (usage, refl, measured_row-allow name budget usage h)
  row_of-allow name budget (inr message) h = cc

  row_for-allow :
      (name : String) (budget : Budget) (o : Gathered)
      → (row_for sum exceeds number name budget o).decision ≡ allow
      → (found : List JournalRecord) × (o ≡ gathered found)
        × (usage : Usage) × (measure sum exceeds number budget.metric found ≡ inl usage)
        × (over sum exceeds number usage budget.limit ≡ false)
  unfolding row_for unknown_row result_row
  row_for-allow name budget (unknown_state m) h = cc
  row_for-allow name budget (gathered rs) h =
      let (usage, measured, under) =
        row_of-allow name budget (measure sum exceeds number budget.metric rs) h in
      (rs, refl, usage, measured, under)

  -- A budget allows only if the action is confirmed, the state of the journal is known, and the usage
  -- of the records that count is known and not over the limit.
  pub budget_result-Within :
      (name : String) (budget : Budget) (facts : BudgetFacts) (current : ℕ)
      (records : List JournalRecord)
      → (budget_result sum exceeds number name budget facts current records).decision ≡ allow
      → Within budget facts current records
  unfolding budget_result unknown_row result_row
  budget_result-Within name budget facts current records h =
      elim (Bool-cases (facts.confirmation == "confirmed")) [
        | inl sure ↦
            let (found, known, usage, measured, under) =
              row_for-allow name budget (gather budget facts current [] records) (rw sure at h) in
            record {
              confirmed = sure;
              found = found;
              known = known;
              usage = usage;
              measured = measured;
              under = under;
            }
        | inr open_state ↦ absurd (deny-allow (rw open_state at h))
      ]

first_best :
    (b d : Decision) → (if ltb (rank b) (rank d) then d else b) ≡ allow → (b ≡ allow) × (d ≡ allow)
first_best b d h = ground arith

max-allow :
    (b : Decision) (rows : List BudgetResult)
    → max_decision b (map (λ (row : BudgetResult). row.decision) rows) ≡ allow
    → (b ≡ allow) × All (λ row. row.decision ≡ allow) rows
unfolding max_decision
max-allow b [] h = (h, tt)
max-allow b (row ∷ rows) h =
    let (best, all_rows) =
      max-allow (if ltb (rank b) (rank row.decision) then row.decision else b) rows h in
    let (old, now) = first_best b row.decision best in (old, (now, all_rows))

-- If the decision on the rows of a budget check is allow, then every row allows.
pub budget_decision-allow :
    (rows : List BudgetResult)
    → budget_decision rows ≡ ok allow
    → All (λ row. row.decision ≡ allow) rows
unfolding budget_decision highest
budget_decision-allow [] h = tt
budget_decision-allow (row ∷ rows) h = max-allow row.decision rows (ok-injective h)
