-- ===== src/PolicyTooling.antt =====
-- policylatch/policy_tooling.py: the tests of a policy by fixtures, which are named action or gateway
-- documents with an expected decision.
pub mod Laws
use mcp_guard.Base.{
  ℕ, ◌-◌, String, ◌<>◌, Bool, true, false, not, ◌&&◌, ◌||◌, Option, none, some, List, [], ◌∷◌,
  length, filter, ltb, nat_eq, ◌==◌, if◌then◌else◌, Unicode,
}
use mcp_guard.Evaluator.{evaluate_action}
use mcp_guard.Gateway.{evaluate_mcp_request}
use mcp_guard.Journal.{is_none}
use mcp_guard.Json.{get, has, equals_text, in_set, Fields, field, end, Value, obj, arr, str, null}
use mcp_guard.Models.{
  decision_eq, risk_for, Evaluation, Decision, allow, warn, deny, RiskLevel, low, high,
}
use mcp_guard.Policy.{Policy}
use mcp_guard.Result.{◌>>=◌, ◌>>◌, raise_if, Error, input_error, type_error, Result, err, ok}
use Prim.Native.Char.{code}

-- key.startswith("_")
unfoldable pub is_private : String → Bool
is_private String.[] = false
is_private (String.◌∷◌ ch s) = nat_eq (code ch) b'_'

-- {key: value for key, value in fixture.items() if not key.startswith("_")}
unfoldable pub public_fields : Fields → Fields
unfolding is_private
public_fields end = end
public_fields (field name v fs) =
    let rest = public_fields fs in if is_private name then rest else field name v rest

-- kind not in {None, "action", "gateway"}
unfoldable pub known_kind : Option Value → Result Bool
known_kind none = ok true
known_kind (some null) = ok true
known_kind (some v) = in_set ("action" ∷ "gateway" ∷ []) (some v)

unfoldable pub policy_fixture_input : String → Fields → Result (Fields × Bool)
unfolding public_fields known_kind
policy_fixture_input name fixture = do
  known ← known_kind (get "_kind" fixture)
  raise_if (not known) (input_error ("Fixture '" <> (name <> "' _kind must be action or gateway.")))
  let evaluator_input = public_fields fixture
  ok (
    evaluator_input,
    equals_text "gateway" (get "_kind" fixture)
        || (is_none (get "_kind" fixture) && has "jsonrpc" evaluator_input),
  )

-- The decision that a text names.
unfoldable pub decision_named : String → Option Decision
decision_named s =
    if s == "allow"
    then some allow
    else if s == "warn"
    then some warn
    else if s == "deny"
    then some deny
    else none

expected_error : String → Error
expected_error name =
    input_error ("Fixture '" <> (name <> "' _expected must be allow, warn, or deny."))

named_or_error : String → Option Decision → Result Decision
unfolding expected_error
named_or_error name (some d) = ok d
named_or_error name none = err (expected_error name)

-- The test of _expected against VALID_DECISIONS, a set.
unfoldable pub expected_decision : String → Option Value → Result Decision
unfolding named_or_error expected_error
expected_decision name (some (str s)) = named_or_error name (decision_named s)
expected_decision name (some (arr xs)) = err (type_error "unhashable type: 'list'")
expected_decision name (some (obj fs)) = err (type_error "unhashable type: 'dict'")
expected_decision name _ = err (expected_error name)

-- One row; a row passes with decision allow and risk low, or fails with deny and high.
pub record FixtureResult : Type 0 where
  pub subject : String
  pub decision : Decision
  pub risk_level : RiskLevel
  pub expected : Decision
  pub actual : Decision
  pub passed : Bool

pub record PolicyTest : Type 0 where
  pub decision : Decision
  pub risk_level : RiskLevel
  pub total : ℕ
  pub passed : ℕ
  pub failed_count : ℕ
  pub results : List FixtureResult

unfoldable pub fixture_result : String → Decision → Decision → FixtureResult
fixture_result name expected actual =
    let passed = decision_eq actual expected in
    record {
      subject = name;
      decision = if passed then allow else deny;
      risk_level = if passed then low else high;
      expected = expected;
      actual = actual;
      passed = passed;
    }

-- The number of rows that did not pass.
unfoldable pub failures : List FixtureResult → ℕ
failures results = length (filter (λ (r : FixtureResult). not r.passed) results)

module _ ⦃u : Unicode⦄ (policy : Policy) where
  unfoldable pub evaluate_fixture_input : Fields × Bool → Result Evaluation
  evaluate_fixture_input (evaluator_input, true) = do
    result ← evaluate_mcp_request evaluator_input policy
    ok result.evaluation
  evaluate_fixture_input (evaluator_input, false) = evaluate_action evaluator_input policy

  unfoldable pub evaluate_policy_fixture : String → Fields → Result Evaluation
  evaluate_policy_fixture name fixture =
      policy_fixture_input name fixture >>= evaluate_fixture_input

  -- One pass of the loop over the fixtures.
  unfoldable pub run_fixture : String × Fields → Result FixtureResult
  run_fixture p = do
    expected ← expected_decision p.0 (get "_expected" p.1)
    evaluation ← evaluate_policy_fixture p.0 p.1
    ok (fixture_result p.0 expected evaluation.decision)

  unfoldable pub run_fixtures : List (String × Fields) → Result (List FixtureResult)
  run_fixtures [] = ok []
  run_fixtures (p ∷ rest) = do r ← run_fixture p; more ← run_fixtures rest; ok (r ∷ more)

  unfoldable pub policy_test_document : List (String × Fields) → Result PolicyTest
  policy_test_document fixtures = do
    results ← run_fixtures fixtures
    let failed = failures results
    let decision = if ltb 0 failed then deny else allow
    ok (record {
      decision = decision;
      risk_level = risk_for decision;
      total = length results;
      passed = length results - failed;
      failed_count = failed;
      results = results;
    })
