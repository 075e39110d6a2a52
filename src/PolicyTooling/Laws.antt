-- ===== src/PolicyTooling/Laws.antt =====
-- What the test of a policy by fixtures in policylatch/policy_tooling.py says.
use mcp_guard.Base.{
  suc, String, ◌≡◌, refl, sym, ap, ◌∙◌, ◌⊎◌, inl, inr, true, false, List, [], ◌∷◌, arith, All, ltb,
  if◌then◌else◌, Bool-cases, Unicode,
}
use mcp_guard.Journal.Append.{first}
use mcp_guard.Json.{get, Fields}
use mcp_guard.Models.{decision_eq, Evaluation, Decision, allow, warn, deny}
use mcp_guard.Policy.{Policy}
use mcp_guard.PolicyTooling.{
  expected_decision, fixture_result, failures, evaluate_policy_fixture, run_fixture, run_fixtures,
  policy_test_document, FixtureResult, PolicyTest,
}
use mcp_guard.Result.{>>=-eq-ok, ok-injective, ok}
use mathlib.Core.Path.{subst}

-- Every row passed.
abbrev pub AllPassed : List FixtureResult → Type 0
AllPassed results = All (λ (r : FixtureResult). r.passed ≡ true) results

failures-AllPassed :
    (results : List FixtureResult) → ltb 0 (failures results) ≡ false → AllPassed results
unfolding failures
failures-AllPassed [] h = tt
failures-AllPassed (r ∷ rs) h = elim (Bool-cases r.passed) [
  | inl passes_now ↦ (passes_now, failures-AllPassed rs (rw passes_now at h))
  | inr fails_now ↦ absurd (fails (rw fails_now at h))
]
  where
    fails : ¬ (ltb 0 (suc (failures rs)) ≡ false)
    fails e = ground arith

AllPassed-failures :
    (results : List FixtureResult) → AllPassed results → ltb 0 (failures results) ≡ false
unfolding failures
AllPassed-failures [] h = refl
AllPassed-failures (r ∷ rs) h = rw (h.0) (AllPassed-failures rs h.1)

decision_eq-eq : (a b : Decision) → decision_eq a b ≡ true → a ≡ b
decision_eq-eq allow allow h = refl
decision_eq-eq warn warn h = refl
decision_eq-eq deny deny h = refl
decision_eq-eq allow warn h = cc
decision_eq-eq allow deny h = cc
decision_eq-eq warn allow h = cc
decision_eq-eq warn deny h = cc
decision_eq-eq deny allow h = cc
decision_eq-eq deny warn h = cc

module _ ⦃u : Unicode⦄ (policy : Policy) where
  -- The fixture is evaluated to what it expects.
  abbrev pub IsMet : String × Fields → Type 0
  IsMet p =
      (e : Evaluation) × (evaluate_policy_fixture policy p.0 p.1 ≡ ok e)
      × (expected_decision p.0 (get "_expected" p.1) ≡ ok e.decision)

  run_fixture-IsMet :
      (p : String × Fields) {r : FixtureResult}
      → run_fixture policy p ≡ ok r
      → r.passed ≡ true
      → IsMet p
  unfolding run_fixture fixture_result
  run_fixture-IsMet p {r} h passes_now =
      let (expected, declared, h1) = >>=-eq-ok (expected_decision p.0 (get "_expected" p.1)) _ h in
      let (e, evaluated, h2) = >>=-eq-ok (evaluate_policy_fixture policy p.0 p.1) _ h1 in
      let same : decision_eq e.decision expected ≡ r.passed =
        ap (λ (x : FixtureResult). x.passed) (ok-injective h2) in
      (
        e,
        evaluated,
        declared ∙ ap ok (sym (decision_eq-eq e.decision expected (same ∙ passes_now))),
      )

  run_fixtures-IsMet :
      (ps : List (String × Fields)) {rs : List FixtureResult}
      → run_fixtures policy ps ≡ ok rs
      → AllPassed rs
      → All IsMet ps
  unfolding run_fixtures
  run_fixtures-IsMet [] h passed_all = tt
  run_fixtures-IsMet (p ∷ ps) {rs} h passed_all =
      let (r, first, h1) = >>=-eq-ok (run_fixture policy p) _ h in
      let (more, others, h2) = >>=-eq-ok (run_fixtures policy ps) _ h1 in
      let both : AllPassed (r ∷ more) = subst AllPassed (sym (ok-injective h2)) passed_all in
      (run_fixture-IsMet p first both.0, run_fixtures-IsMet ps others both.1)

  -- A policy test that allows has evaluated every fixture, and each to the decision that it expects; one
  -- that does not allow denies, and some row of it did not pass.
  pub policy_test_document-allow :
      (fixtures : List (String × Fields)) {doc : PolicyTest}
      → policy_test_document policy fixtures ≡ ok doc
      → ((doc.decision ≡ allow) × All IsMet fixtures)
        ⊎ ((doc.decision ≡ deny) × ¬ AllPassed doc.results)
  unfolding policy_test_document
  policy_test_document-allow fixtures {doc} h =
      let (results, found, h1) = >>=-eq-ok (run_fixtures policy fixtures) _ h in
      let same : (if ltb 0 (failures results) then deny else allow) ≡ doc.decision =
        ap (λ (d : PolicyTest). d.decision) (ok-injective h1) in
      let rows : results ≡ doc.results = ap (λ (d : PolicyTest). d.results) (ok-injective h1) in
      elim (Bool-cases (ltb 0 (failures results))) [
        | inl some_failed ↦ inr (
          sym (rw some_failed at same),
          λ all_passed.
              cc (AllPassed-failures results (subst AllPassed (sym rows) all_passed), some_failed),
        )
        | inr none_failed ↦ inl (
          sym (rw none_failed at same),
          run_fixtures-IsMet fixtures found (failures-AllPassed results none_failed),
        )
      ]
