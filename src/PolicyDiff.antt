-- ===== src/PolicyDiff.antt =====
-- policylatch/policy_diff.py: how the decision on each fixture changes between two policies, and the
-- gate on the changes. A transition is kept as its two decisions.
pub mod Laws
use mcp_guard.Base.{
  ℕ, ◌+◌, ◌-◌, String, ◌<>◌, Bool, false, ◌&&◌, ◌||◌, List, [], ◌∷◌, map, length, filter, ltb,
  nat_eq, ◌==◌, if◌then◌else◌, any, is_empty,
}
use mcp_guard.Models.{
  rank, decision_eq, risk_for, highest, Reason, Evaluation, Decision, allow, warn, deny, RiskLevel,
  warns, denies,
}
use mcp_guard.Result.{◌>>=◌, ◌>>◌, raise_if, input_error, Result, err, ok}

pub record Transition : Type 0 where
  pub before : Decision
  pub after : Decision

pub data Classification : Type 0 where
  relaxation tightening unchanged : Classification

pub record DiffResult : Type 0 where
  pub classification : Classification
  pub decision : Decision
  pub risk_level : RiskLevel
  pub transition : Transition
  pub reasons : List Reason

pub record DiffSummary : Type 0 where
  pub fixtures : ℕ
  pub changed : ℕ
  pub relaxations : ℕ
  pub tightenings : ℕ
  pub unchanged_count : ℕ

-- transition == "before->after"
unfoldable pub transition_is : Decision → Decision → Transition → Bool
transition_is before after t = decision_eq t.before before && decision_eq t.after after

unfoldable pub relaxes : Transition → Bool
relaxes t = ltb (rank t.after) (rank t.before)

unfoldable pub tightens : Transition → Bool
tightens t = ltb (rank t.before) (rank t.after)

-- The value is true if the gate fails.
unfoldable pub gate_failed : String → List Transition → Result Bool
gate_failed gate transitions =
    if gate == "none"
    then ok false
    else if gate == "deny-to-allow"
    then ok (any (transition_is deny allow) transitions)
    else if gate == "deny-relaxation"
    then ok (any (λ t. transition_is deny warn t || transition_is deny allow t) transitions)
    else if gate == "any-relaxation"
    then ok (any relaxes transitions)
    else err (input_error ("Unsupported policy diff gate '" <> (gate <> "'.")))

unfoldable pub classify : Transition → Classification
classify t = if relaxes t then relaxation else if tightens t then tightening else unchanged

unfoldable pub diff_decision : Transition → Decision
diff_decision t = if relaxes t then (if transition_is deny allow t then deny else warn) else allow

decision_name : Decision → String
decision_name allow = "allow"
decision_name warn = "warn"
decision_name deny = "deny"

unfoldable pub relaxation_reasons : Transition → List Reason
unfolding decision_name
relaxation_reasons t =
    if relaxes t
    then record {
      rule = "policy-diff.relaxation";
      effect = if transition_is deny allow t then denies else warns;
      matched = decision_name t.before <> ("->" <> decision_name t.after);
      message =
          "Fixture decision relaxed from "
          <> (decision_name t.before <> (" to " <> (decision_name t.after <> ".")));
    }
      ∷ []
    else []

-- One pass of the loop over the fixtures, from the two evaluations on.
unfoldable pub diff_result : Evaluation → Evaluation → DiffResult
diff_result before after =
    let t : Transition = record { before = before.decision; after = after.decision } in
    record {
      classification = classify t;
      decision = diff_decision t;
      risk_level = risk_for (diff_decision t);
      transition = t;
      reasons = relaxation_reasons t;
    }

unfoldable pub diff_results : List (Evaluation × Evaluation) → List DiffResult
diff_results pairs = map (λ (p : Evaluation × Evaluation). diff_result p.0 p.1) pairs

abbrev pub transition_of : DiffResult → Transition
transition_of r = r.transition

abbrev is_class : ℕ → DiffResult → Bool
is_class n r = nat_eq n (elim r.classification [ relaxation ↦ 0 | tightening ↦ 1 | unchanged ↦ 2 ])

-- sum(result["classification"] == ... for result in results)
unfoldable pub class_count : ℕ → List DiffResult → ℕ
class_count n results = length (filter (is_class n) results)

unfoldable pub diff_summary : List DiffResult → DiffSummary
diff_summary results =
    let relaxations = class_count 0 results in
    let tightenings = class_count 1 results in
    record {
      fixtures = length results;
      changed = relaxations + tightenings;
      relaxations = relaxations;
      tightenings = tightenings;
      unchanged_count = length results - relaxations - tightenings;
    }

-- The decision of the document, and whether the gate fails.
unfoldable pub diff_outcome : String → List (Evaluation × Evaluation) → Result (Decision × Bool)
diff_outcome gate pairs = do
  raise_if (is_empty pairs) (input_error "Policy diff requires at least one fixture.")
  failed ← gate_failed gate (map transition_of (diff_results pairs))
  decision ← highest (map (λ (r : DiffResult). r.decision) (diff_results pairs))
  ok (decision, failed)
