-- ===== src/Tests/Checks.antt =====
-- Examples for policylatch/policy_diff.py and policylatch/budgets.py.
use mcp_guard.Base.{String, ◌≡◌, refl, ◌↔◌, Bool, true, false, none, List, [], ◌∷◌, ltb}
use mcp_guard.Base.Int.{pos}
use mcp_guard.Budgets.{
  gather, BudgetFacts, JournalRecord, window_length, flag, in_window, applies, consider, proceed,
}
use mcp_guard.Budgets.Check.{budget_result, result_row, measured_row}
use mcp_guard.Budgets.Laws.{gather-IsGathered, budget_result-Within, IsGathered, Within}
use mcp_guard.Json.{Value, int}
use mcp_guard.Models.{Evaluation, allow, deny, low, high, highest}
use mcp_guard.Policy.{Budget, calls, hour}
use mcp_guard.PolicyDiff.{
  gate_failed, diff_result, diff_outcome, transition_is, relaxes, diff_decision, diff_results,
}
use mcp_guard.PolicyDiff.Laws.{diff_outcome-deny_iff}
use mcp_guard.Result.{raise_if}

abbrev strict : Evaluation
strict = record { decision = deny; risk_level = high; reasons = []; subject = none }

abbrev loose : Evaluation
loose = record { decision = allow; risk_level = low; reasons = []; subject = none }

diff_outcome-deny_iff_example : (deny ≡ deny) ↔ (true ≡ true)
unfolding diff_outcome raise_if gate_failed highest diff_results diff_result transition_is
    diff_decision relaxes
diff_outcome-deny_iff_example = diff_outcome-deny_iff ((strict, loose) ∷ []) deny true refl

abbrev facts : BudgetFacts
facts = record {
  action_type = "shell";
  confirmation = "confirmed";
  impact = none;
  payload_size_class = "small";
  target_fingerprint = none;
  tool_fingerprint = none;
  action_fingerprint = none;
}

abbrev records : List JournalRecord
records =
    record { stage = "proposed"; recorded_at = 5; facts = facts }
    ∷ record { stage = "executed"; recorded_at = 6; facts = facts }
    ∷ []

abbrev budget : Budget
budget = record {
  metric = calls;
  limit = int (pos 3);
  window = hour;
  effect = none;
  action_types = "shell" ∷ [];
  per_tool = none;
  count_duplicates = none;
  payload_classes = [];
}

gather-IsGathered_example :
    IsGathered budget facts 9 records
      (record { stage = "proposed"; recorded_at = 5; facts = facts } ∷ [])
unfolding gather proceed consider applies in_window window_length flag
gather-IsGathered_example = gather-IsGathered budget facts 9 [] records _ refl

-- Numbers for a budget of calls, which adds up no impact.
abbrev sum_values : List Value → Value
sum_values vs = int (pos 0)

abbrev is_greater : Value → Value → Bool
is_greater (int (pos m)) (int (pos n)) = ltb n m
is_greater v w = false

abbrev number_text : Value → String
number_text v = "1"

budget_result-Within_example : Within sum_values is_greater number_text budget facts 9 records
unfolding budget_result gather proceed consider applies in_window window_length flag measured_row
    result_row
budget_result-Within_example =
    budget_result-Within sum_values is_greater number_text "calls" budget facts 9 records refl
