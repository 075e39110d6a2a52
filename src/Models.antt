-- ===== src/Models.antt =====
-- policylatch/models.py: decisions, reasons and evaluations.
pub mod Order
use mcp_guard.Base.{
  ℕ, String, Bool, true, false, Option, List, [], ◌∷◌, map, ltb, nat_eq, if◌then◌else◌, any,
}
use mcp_guard.Result.{value_error, Result, ok, err, ◌>>=◌, ◌>>◌}

pub data Decision : Type 0 where
  allow warn deny : Decision

pub data RiskLevel : Type 0 where
  low medium high : RiskLevel

-- The literal "warn" or "deny" of a reason.
pub data Effect : Type 0 where
  warns denies : Effect

pub record Reason : Type 0 where
  pub rule : String
  pub effect : Effect
  pub matched : String
  pub message : String

pub record Evaluation : Type 0 where
  pub decision : Decision
  pub risk_level : RiskLevel
  pub reasons : List Reason
  pub subject : Option String

-- DECISION_RANK
abbrev pub rank : Decision → ℕ
rank allow = 0
rank warn = 1
rank deny = 2

abbrev pub decision_eq : Decision → Decision → Bool
decision_eq a b = nat_eq (rank a) (rank b)

unfoldable pub recommended_action : Decision → String
recommended_action allow = "Proceed only within the declared scope."
recommended_action warn = "Require human approval or an additional review before execution."
recommended_action deny = "Do not execute this proposed action under the current policy."

abbrev pub is_denial : Reason → Bool
is_denial r = elim r.effect [ denies ↦ true | warns ↦ false ]

unfoldable pub decision_for : List Reason → Decision → Decision
decision_for [] default = default
decision_for (r ∷ rs) default = if any is_denial (r ∷ rs) then deny else warn

unfoldable pub risk_for : Decision → RiskLevel
risk_for allow = low
risk_for warn = medium
risk_for deny = high

-- max(decisions, key=rank): the first of the highest rank. `max` of nothing raises.
unfoldable pub max_decision : Decision → List Decision → Decision
max_decision best [] = best
max_decision best (d ∷ ds) = max_decision (if ltb (rank best) (rank d) then d else best) ds

unfoldable pub highest : List Decision → Result Decision
unfolding max_decision
highest [] = err (value_error "max() arg is an empty sequence")
highest (d ∷ ds) = ok (max_decision d ds)

unfoldable pub aggregate : List Evaluation → Result (Decision × RiskLevel)
unfolding highest
aggregate evaluations = do
  decision ← highest (map (λ (e : Evaluation). e.decision) evaluations)
  ok (decision, risk_for decision)
