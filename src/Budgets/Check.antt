-- ===== src/Budgets/Check.antt =====
-- The rows and the decision of the budget check of policylatch/budgets.py. Numbers may be floats: their
-- sum, their order and their text are arguments.
use mcp_guard.Base.{
  ℕ, suc, String, ◌<>◌, ◌⊎◌, inl, inr, Bool, false, not, Option, none, some, List, [], ◌∷◌, map,
  length, ◌==◌, if◌then◌else◌, contains,
}
use mcp_guard.Base.Dict.{Dict}
use mcp_guard.Base.Int.{pos}
use mcp_guard.Json.{Value, int}
use mcp_guard.Models.{risk_for, highest, Reason, Decision, allow, warn, deny, Effect, warns, denies}
use mcp_guard.Policy.{Budget, Metric, calls, unique_targets, impact}
use mcp_guard.Result.{Result, ok}
use mcp_guard.Budgets.{
  gather, unknown_state, gathered, no_usage, calls_used, impact_used, BudgetFacts, JournalRecord,
  BudgetResult, Gathered, Status, in_budget, exceeded, unknown, Usage,
}

cons_to {ℓ} : {A : Type ℓ} → A → Option (List A) → Option (List A)
cons_to a none = none
cons_to a (some rest) = some (a ∷ rest)

all_some {ℓ} : {A : Type ℓ} → (JournalRecord → Option A) → List JournalRecord → Option (List A)
unfolding cons_to
all_some f [] = some []
all_some f (r ∷ rs) =
    let rest = all_some f rs in elim (f r) [ none ↦ none | some a ↦ cons_to a rest ]

-- len(set(texts))
unfoldable pub distinct_count : List String → ℕ
distinct_count [] = 0
distinct_count (s ∷ ss) = let rest = distinct_count ss in if contains ss s then rest else suc rest

module _ (sum : List Value → Value) (exceeds : Value → Value → Bool) (number : Value → String) where
  -- The usage of a metric, or the message that says why it is not known.
  unfoldable pub measure : Metric → List JournalRecord → Usage ⊎ String
  unfolding all_some
  measure calls rs = inl (calls_used (length rs))
  measure impact rs = elim (all_some (λ (r : JournalRecord). r.facts.impact) rs) [
    | some values ↦ inl (impact_used (sum values))
    | none ↦ inr "Impact budget state is missing a numeric impact value."
  ]
  measure unique_targets rs =
      elim (all_some (λ (r : JournalRecord). r.facts.target_fingerprint) rs) [
        | some targets ↦ inl (calls_used (distinct_count targets))
        | none ↦ inr "Unique-target budget state is missing a target fingerprint."
      ]

  unfoldable pub over : Usage → Value → Bool
  over no_usage limit = false
  over (calls_used n) limit = exceeds (int (pos n)) limit
  over (impact_used v) limit = exceeds v limit

  usage_text : Usage → String
  usage_text no_usage = "None"
  usage_text (calls_used n) = number (int (pos n))
  usage_text (impact_used v) = number v

  unfoldable pub effect_of : Budget → Effect
  effect_of budget = elim budget.effect [ none ↦ denies | some e ↦ e ]

  unfoldable pub result_row : String → Decision → Status → Usage → List Reason → BudgetResult
  result_row name decision status usage reasons = record {
    subject = name;
    decision = decision;
    risk_level = risk_for decision;
    status = status;
    usage = usage;
    reasons = reasons;
  }

  unfoldable pub unknown_row : String → String → BudgetResult
  unknown_row name message = result_row name deny unknown no_usage (
      record {
        rule = "budgets." <> name;
        effect = denies;
        matched = "unknown-state";
        message = message;
      }
      ∷ [])

  unfoldable pub measured_row : String → Budget → Usage → BudgetResult
  unfolding over usage_text
  measured_row name budget usage =
      if over usage budget.limit
      then result_row name (elim (effect_of budget) [ warns ↦ warn | denies ↦ deny ]) exceeded usage
          (record {
            rule = "budgets." <> name;
            effect = effect_of budget;
            matched = "usage:" <> (usage_text usage <> (";limit:" <> number budget.limit));
            message = "Cumulative budget usage exceeds the configured limit.";
          }
            ∷ [])
      else result_row name allow in_budget usage []

  unfoldable pub row_of : String → Budget → Usage ⊎ String → BudgetResult
  row_of name budget (inl usage) = measured_row name budget usage
  row_of name budget (inr message) = unknown_row name message

  unfoldable pub row_for : String → Budget → Gathered → BudgetResult
  unfolding row_of measure
  row_for name budget (unknown_state message) = unknown_row name message
  row_for name budget (gathered rs) = row_of name budget (measure budget.metric rs)

  -- One pass of the loop over the budgets that apply to the action.
  unfoldable pub budget_result :
      String → Budget → BudgetFacts → ℕ → List JournalRecord → BudgetResult
  unfolding row_for
  budget_result name budget facts current records =
      if not (facts.confirmation == "confirmed")
      then unknown_row name "Current action budget confirmation is not confirmed."
      else row_for name budget (gather budget facts current [] records)

  -- The loop over the budgets, in the order of their names.
  unfoldable pub budget_results :
      Dict Budget → BudgetFacts → ℕ → List JournalRecord → List BudgetResult
  budget_results [] facts current records = []
  budget_results ((name, budget) ∷ rest) facts current records =
      let more = budget_results rest facts current records in
      if contains budget.action_types facts.action_type
      then budget_result name budget facts current records ∷ more
      else more

-- The decision of the document; without a budget that applies it is allow.
unfoldable pub budget_decision : List BudgetResult → Result Decision
budget_decision [] = ok allow
budget_decision (r ∷ rs) = highest (map (λ (row : BudgetResult). row.decision) (r ∷ rs))
