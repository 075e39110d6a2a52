-- ===== src/PolicyDiff/Laws.antt =====
-- The gates and the counts of policylatch/policy_diff.py.
use mcp_guard.Base.{
  ◌+◌, ◌≡◌, refl, ap, ◌↔◌, Bool, true, ◌||◌, List, [], ◌∷◌, map, arith, length, ltb, if◌then◌else◌,
  any, ◌∙◌,
}
use mcp_guard.Models.{
  rank, decision_eq, max_decision, Evaluation, Decision, allow, warn, deny, highest,
}
use mcp_guard.PolicyDiff.{
  transition_is, relaxes, gate_failed, diff_decision, diff_result, diff_results, transition_of,
  class_count, diff_summary, diff_outcome, Transition, DiffResult,
}
use mcp_guard.Result.{ok-injective, ok, raise_if}
use mathlib.Core.Path.{ap₂}

any-weaken :
    (p q : Transition → Bool)
    → ((t : Transition) → p t ≡ true → q t ≡ true)
    → (ts : List Transition) → any p ts ≡ true
    → any q ts ≡ true
any-weaken p q h [] e = e
any-weaken p q h (t ∷ ts) e = ground (arith, h t, any-weaken p q h ts)

from_deny : Transition → Bool
from_deny t = transition_is deny warn t || transition_is deny allow t

from_deny-relaxes : (t : Transition) → from_deny t ≡ true → relaxes t ≡ true
unfolding from_deny transition_is relaxes
from_deny-relaxes t h = ground arith

allows-from_deny : (t : Transition) → transition_is deny allow t ≡ true → from_deny t ≡ true
unfolding from_deny
allows-from_deny t h = ground arith

-- If the gate deny-to-allow fails, so does the gate deny-relaxation, and if that fails, so does the
-- gate any-relaxation.
pub gate_failed-monotone :
    (ts : List Transition)
    → (gate_failed "deny-to-allow" ts ≡ ok true → gate_failed "deny-relaxation" ts ≡ ok true)
      × (gate_failed "deny-relaxation" ts ≡ ok true → gate_failed "any-relaxation" ts ≡ ok true)
unfolding gate_failed from_deny
gate_failed-monotone ts = (
  λ h. ap ok (any-weaken (transition_is deny allow) from_deny allows-from_deny ts (ok-injective h)),
  λ h. ap ok (any-weaken from_deny relaxes from_deny-relaxes ts (ok-injective h)),
)

class_count_total :
    (rs : List DiffResult) → class_count 0 rs + (class_count 1 rs + class_count 2 rs) ≡ length rs
unfolding class_count
class_count_total [] = omega arith
class_count_total (r ∷ rs) = ground (arith, class_count_total rs)

-- The relaxations, the tightenings and the fixtures counted as unchanged are all the fixtures, and
-- the last are those whose result is unchanged.
pub diff_summary_lem :
    (rs : List DiffResult)
    → let s = diff_summary rs in
      (s.unchanged_count ≡ class_count 2 rs)
      × (s.relaxations + (s.tightenings + s.unchanged_count) ≡ s.fixtures)
unfolding diff_summary
diff_summary_lem rs = (omega (arith, class_count_total rs), omega (arith, class_count_total rs))

is_deny : Decision → Bool
is_deny d = decision_eq deny d

max-is_deny :
    (d : Decision) (ds : List Decision) → is_deny (max_decision d ds) ≡ any is_deny (d ∷ ds)
unfolding max_decision is_deny
max-is_deny d [] = ground arith
max-is_deny d (e ∷ ds) = ground (arith, max-is_deny (if ltb (rank d) (rank e) then e else d) ds)

abbrev decision_of : DiffResult → Decision
decision_of r = r.decision

diff_decision-is_deny : (t : Transition) → is_deny (diff_decision t) ≡ transition_is deny allow t
unfolding diff_decision is_deny transition_is relaxes
diff_decision-is_deny t = ground arith

diff_results-denials :
    (pairs : List (Evaluation × Evaluation))
    → any is_deny (map decision_of (diff_results pairs))
      ≡ any (transition_is deny allow) (map transition_of (diff_results pairs))
unfolding diff_results diff_result
diff_results-denials [] = refl
diff_results-denials (p ∷ pairs) =
    ap₂ (λ a b. a || b)
      (diff_decision-is_deny (record { before = p.0.decision; after = p.1.decision }))
      (diff_results-denials pairs)

denial_iff :
    (m d : Decision) (denies_now failed : Bool)
    → is_deny m ≡ denies_now
    → m ≡ d
    → denies_now ≡ failed
    → (d ≡ deny) ↔ (failed ≡ true)
unfolding is_deny
denial_iff m d denies_now failed h e f = ground arith

-- The document that the gate deny-to-allow judges has the decision deny exactly if the gate fails.
pub diff_outcome-deny_iff :
    (pairs : List (Evaluation × Evaluation)) (d : Decision) (failed : Bool)
    → diff_outcome "deny-to-allow" pairs ≡ ok (d, failed)
    → (d ≡ deny) ↔ (failed ≡ true)
unfolding diff_outcome raise_if gate_failed highest diff_results
diff_outcome-deny_iff [] d failed h = cc
diff_outcome-deny_iff (p ∷ pairs) d failed h =
    let e = ok-injective h in
    let first = diff_result p.0 p.1 in
    denial_iff _ d _ failed
      (max-is_deny first.decision (map decision_of (diff_results pairs))
        ∙ diff_results-denials (p ∷ pairs))
      (ap (λ (o : Decision × Bool). o.0) e) (ap (λ (o : Decision × Bool). o.1) e)
