-- ===== src/Models/Order.antt =====
-- What the decision of a list of reasons, and the aggregate of a list of decisions, is.
use mcp_guard.Base.{
  ◌≤◌, ◌≡◌, refl, ◌≢◌, ◌↔◌, ◌⊎◌, inr, true, List, [], ◌∷◌, ◌++◌, arith, any-append, All, ltb,
  if◌then◌else◌, any, inl, Any,
}
use mcp_guard.Models.{
  rank, is_denial, decision_for, Reason, Decision, allow, deny, max_decision, highest,
}
use mcp_guard.Result.{ok}
use native.Mathlib.Nat.{le_trans}

-- How the reasons decide, the default included.
decision_for-deny :
    (rs : List Reason) (d : Decision) → any is_denial rs ≡ true → decision_for rs d ≡ deny
unfolding decision_for
decision_for-deny [] d h = cc
decision_for-deny (r ∷ rs) d h = rw h

-- The decision is deny exactly if some reason denies, or there is no reason and the default denies.
pub decision_for-deny_iff :
    (rs : List Reason) (d : Decision)
    → (decision_for rs d ≡ deny) ↔ ((any is_denial rs ≡ true) ⊎ ((rs ≡ []) × (d ≡ deny)))
unfolding decision_for
decision_for-deny_iff [] d = (λ h. inr (refl, h), λ h. ground arith)
decision_for-deny_iff (r ∷ rs) d = ground arith

-- The decision is allow exactly if there is no reason and the default allows.
pub decision_for-allow_iff :
    (rs : List Reason) (d : Decision) → (decision_for rs d ≡ allow) ↔ ((rs ≡ []) × (d ≡ allow))
unfolding decision_for
decision_for-allow_iff [] d = (λ h. (refl, h), λ h. h.1)
decision_for-allow_iff (r ∷ rs) d = ground arith

-- More reasons behind a list that is not empty never lower the rank of its decision.
pub decision_for-monotone :
    (rs more : List Reason) (d : Decision)
    → rs ≢ []
    → rank (decision_for rs d) ≤ rank (decision_for (rs ++ more) d)
unfolding decision_for
decision_for-monotone [] more d h = absurd (h refl)
decision_for-monotone (r ∷ rs) more d h = ground (arith, any-append is_denial (r ∷ rs) more)

rank_step :
    (b d : Decision)
    → let best = if ltb (rank b) (rank d) then d else b in
      (rank b ≤ rank best) × (rank d ≤ rank best)
rank_step b d = ground arith

max_decision_bound :
    (b : Decision) (ds : List Decision)
    → (rank b ≤ rank (max_decision b ds)) × All (λ d. rank d ≤ rank (max_decision b ds)) ds
unfolding max_decision
max_decision_bound b [] = (omega arith, tt)
max_decision_bound b (d ∷ ds) =
    let ih = max_decision_bound (if ltb (rank b) (rank d) then d else b) ds in
    let step = rank_step b d in (le_trans step.0 ih.0, (le_trans step.1 ih.0, ih.1))

max_decision-member :
    (b : Decision) (ds : List Decision)
    → (max_decision b ds ≡ b) ⊎ Any (λ d. max_decision b ds ≡ d) ds
unfolding max_decision
max_decision-member b [] = inl refl
max_decision-member b (d ∷ ds) =
    ground (arith, max_decision-member (if ltb (rank b) (rank d) then d else b) ds)

-- Of at least one decision, `highest` returns one of them, and none is of a higher rank.
pub highest_lem :
    (d : Decision) (ds : List Decision)
    → (m : Decision) × (highest (d ∷ ds) ≡ ok m)
      × Any (λ e. m ≡ e) (d ∷ ds)
      × All (λ e. rank e ≤ rank m) (d ∷ ds)
unfolding highest
highest_lem d ds = (
  max_decision d ds,
  refl,
  max_decision-member d ds,
  ((max_decision_bound d ds).0, (max_decision_bound d ds).1),
)
