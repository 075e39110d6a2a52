-- ===== src/Tests/Fixtures.antt =====
-- Examples for policylatch/policy_tooling.py: one fixture that is met.
use mcp_guard.Tests.{plain_text}
use mcp_guard.Base.{◌≡◌, refl, ◌⊎◌, true, [], ◌∷◌, All}
use mcp_guard.Json.{Fields, field, end, str, get, has, equals_text, is_text, nonblank_text, as_text}
use mcp_guard.Models.{allow, deny, low, decision_for, risk_for}
use mcp_guard.Policy.{Policy, patterns}
use mcp_guard.PolicyTooling.{
  policy_test_document, PolicyTest, is_private, public_fields, known_kind, policy_fixture_input,
  decision_named, expected_decision, fixture_result, failures, evaluate_fixture_input,
  evaluate_policy_fixture, run_fixture, run_fixtures,
}
use mcp_guard.PolicyTooling.Laws.{AllPassed, IsMet, policy_test_document-allow}
use mcp_guard.Result.{ok, raise_if}
use mcp_guard.Evaluator.{text_of, shell_reasons, action_reasons, evaluate_action}
use mcp_guard.Journal.{is_none}
use mcp_guard.ToolPolicy.{matching_reasons}
use mcp_guard.Validation.{required_text, present_not_text, validate_action}

abbrev listing : Fields
listing =
    field "action_type" (str "shell")
      (field "command" (str "ls") (field "_expected" (str "allow") end))

abbrev open_policy : Policy
open_policy = record { default_decision = allow; rules = []; budgets = [] }

abbrev tested : PolicyTest
tested = record {
  decision = allow;
  risk_level = low;
  total = 1;
  passed = 1;
  failed_count = 0;
  results =
      record {
        subject = "ls.json";
        decision = allow;
        risk_level = low;
        expected = allow;
        actual = allow;
        passed = true;
      }
      ∷ [];
}

policy_tested : policy_test_document open_policy (("ls.json", listing) ∷ []) ≡ ok tested
unfolding policy_test_document run_fixtures run_fixture expected_decision decision_named
    evaluate_policy_fixture evaluate_fixture_input policy_fixture_input public_fields is_private
    known_kind fixture_result failures get has raise_if is_none equals_text evaluate_action
    validate_action action_reasons text_of as_text is_text present_not_text required_text
    nonblank_text shell_reasons patterns matching_reasons decision_for risk_for
policy_tested = refl

policy_test_document-allow_example :
    ((allow ≡ allow) × All (IsMet open_policy) (("ls.json", listing) ∷ []))
    ⊎ ((allow ≡ deny) × ¬ AllPassed tested.results)
policy_test_document-allow_example =
    policy_test_document-allow open_policy (("ls.json", listing) ∷ []) policy_tested
