-- ===== src/Budgets/Rows.antt =====
-- The rows of a budget check of policylatch/budgets.py: one for every budget that applies.
use mcp_guard.Base.{
  ℕ, String, ◌≡◌, refl, sym, ap, ◌∙◌, inl, inr, Bool, true, false, List, [], ◌∷◌, Any, All, All-map,
  if◌then◌else◌, Bool-cases, contains, text_lt,
}
use mcp_guard.Base.Dict.{Dict}
use mcp_guard.Budgets.{BudgetFacts, JournalRecord, BudgetResult}
use mcp_guard.Budgets.Check.{budget_result, budget_results}
use mcp_guard.Budgets.Document.{insert_budget, sorted_budgets}
use mcp_guard.Budgets.Laws.{budget_result-Within, Within}
use mcp_guard.Journal.Append.{first}
use mcp_guard.Json.{Value}
use mcp_guard.Models.{allow}
use mcp_guard.Policy.{Budget}

insert_budget-All :
    (P : String × Budget → Type 0) (p : String × Budget) (ps : Dict Budget)
    → All P (insert_budget p ps)
    → P p × All P ps
unfolding insert_budget
insert_budget-All P p [] h = h
insert_budget-All P p (q ∷ qs) h = elim (Bool-cases (text_lt p.0 q.0)) [
  | inl first ↦ rw first at h
  | inr later ↦
      let split : P q × All P (insert_budget p qs) = rw later at h in
      let (mine, others) = insert_budget-All P p qs split.1 in (mine, (split.0, others))
]

-- Sorting leaves out no budget.
pub sorted_budgets-All :
    (P : String × Budget → Type 0) (ps : Dict Budget) → All P (sorted_budgets ps) → All P ps
unfolding sorted_budgets
sorted_budgets-All P [] h = tt
sorted_budgets-All P (p ∷ ps) h =
    let (mine, others) = insert_budget-All P p (sorted_budgets ps) h in
    (mine, sorted_budgets-All P ps others)

Any-if {ℓ} :
    {A : Type ℓ} (P : A → Type 0) (b : Bool) (x : A) (xs : List A)
    → Any P xs
    → Any P (if b then x ∷ xs else xs)
Any-if P true x xs h = inr h
Any-if P false x xs h = h

module _ (sum : List Value → Value) (exceeds : Value → Value → Bool) (number : Value → String)
    (facts : BudgetFacts) (current : ℕ) (records : List JournalRecord) where
  -- The row of a budget that applies is among the rows.
  abbrev pub HasRow : List BudgetResult → String × Budget → Type 0
  HasRow rows p =
      contains p.1.action_types facts.action_type ≡ true
      → Any (λ row. row ≡ budget_result sum exceeds number p.0 p.1 facts current records) rows

  pub budget_results-HasRow :
      (ps : Dict Budget)
      → All (HasRow (budget_results sum exceeds number ps facts current records)) ps
  unfolding budget_results
  budget_results-HasRow [] = tt
  budget_results-HasRow ((name, budget) ∷ rest) =
      let more = budget_results sum exceeds number rest facts current records in
      let row = budget_result sum exceeds number name budget facts current records in
      let here = contains budget.action_types facts.action_type in
      (
        λ used. rw used (inl refl),
        All-map
            (λ p has_row used.
              Any-if (λ r. r ≡ budget_result sum exceeds number p.0 p.1 facts current records) here
                row more (has_row used))
            rest (budget_results-HasRow rest),
      )

  -- Among rows that all allow, the row of a budget keeps within the budget.
  pub HasRow-Within :
      (rows : List BudgetResult) (p : String × Budget)
      → All (λ (r : BudgetResult). r.decision ≡ allow) rows
      → HasRow rows p
      → contains p.1.action_types facts.action_type ≡ true
      → Within sum exceeds number p.1 facts current records
  HasRow-Within rows p allowing has_row used =
      budget_result-Within sum exceeds number p.0 p.1 facts current records
        (row_allows rows allowing (has_row used))
    where
      row_allows :
          (rows : List BudgetResult)
          → All (λ (r : BudgetResult). r.decision ≡ allow) rows
          → Any (λ row. row ≡ budget_result sum exceeds number p.0 p.1 facts current records) rows
          → (budget_result sum exceeds number p.0 p.1 facts current records).decision ≡ allow
      row_allows [] h a = elim a [ ]
      row_allows (r ∷ rs) h (inl same) = ap (λ (x : BudgetResult). x.decision) (sym same) ∙ h.0
      row_allows (r ∷ rs) h (inr later) = row_allows rs h.1 later
