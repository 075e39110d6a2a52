-- ===== src/Evaluator/Decides.antt =====
-- What `evaluate_action` of policylatch/evaluator.py returns for each type of action.
use mcp_guard.Base.{
  ◌≡◌, refl, ap, ◌⊎◌, inl, inr, some, List, if◌then◌else◌, any, Unicode, String, false, not, ◌&&◌,
  ◌==◌, is_empty,
}
use mcp_guard.Evaluator.{
  text_of, action_reasons, evaluate_action, file_reasons, domain_reasons, action_host,
  network_reasons, shell_reasons,
}
use mcp_guard.Evaluator.Laws.{
  verdict, shell_reasons-verdict, file_reasons-verdict, domain_reasons-verdict,
}
use mcp_guard.Json.{has, Fields}
use mcp_guard.Matching.{text_matches, path_matches, domain_matches}
use mcp_guard.Models.{decision_for, risk_for, Reason, Evaluation, Decision}
use mcp_guard.Policy.{patterns, Policy}
use mcp_guard.Result.{Result, ok, raise_if}
use mcp_guard.Validation.{validate_action}

-- The result is an evaluation with this decision and its risk level.
pub record Decides (d : Decision) (r : Result Evaluation) : Type 0 where
  pub evaluation : Evaluation
  pub returns : r ≡ ok evaluation
  pub decision : evaluation.decision ≡ d
  pub risk : evaluation.risk_level ≡ risk_for d

module _ ⦃u : Unicode⦄ where
  evaluate_action-Decides :
      (action : Fields) (policy : Policy) (rs : List Reason) (d : Decision)
      → validate_action action ≡ ok tt
      → action_reasons action policy ≡ ok rs
      → decision_for rs policy.default_decision ≡ d
      → Decides d (evaluate_action action policy)
  unfolding evaluate_action raise_if
  evaluate_action-Decides action policy rs d valid found e = record {
    evaluation = record {
      decision = decision_for rs policy.default_decision;
      risk_level = risk_for (decision_for rs policy.default_decision);
      reasons = rs;
      subject = some (if has "tool" action then text_of "tool" action else "action");
    };
    returns = rw (valid, found) refl;
    decision = e;
    risk = ap risk_for e;
  }

  module _ (action : Fields) (policy : Policy) (valid : validate_action action ≡ ok tt) where
    -- A valid shell action is denied if its command matches a deny pattern; else it is a warning if
    -- the command matches a warn pattern, and gets the default decision of the policy if not.
    pub evaluate_action-shell :
        u.lower (text_of "action_type" action) ≡ "shell"
        → let command = text_of "command" action in
          Decides
            (verdict
              (any (text_matches command) (patterns "shell" "deny_patterns" policy))
              (any (text_matches command) (patterns "shell" "warn_patterns" policy))
              policy.default_decision)
            (evaluate_action action policy)
    evaluate_action-shell kind =
        evaluate_action-Decides action policy (shell_reasons (text_of "command" action) policy) _
          valid (unfold action_reasons in rw kind refl)
          (shell_reasons-verdict (text_of "command" action) policy policy.default_decision)

    -- A valid action of type file or filesystem is denied if its path matches a deny path; else it is a
    -- warning if the path matches a warn path, and gets the default decision of the policy if not.
    pub evaluate_action-file :
        (u.lower (text_of "action_type" action) ≡ "file")
          ⊎ (u.lower (text_of "action_type" action) ≡ "filesystem")
        → let path = text_of "path" action in
          Decides
            (verdict
              (any (path_matches path) (patterns "files" "deny_paths" policy))
              (any (path_matches path) (patterns "files" "warn_paths" policy))
              policy.default_decision)
            (evaluate_action action policy)
    evaluate_action-file kind =
        evaluate_action-Decides action policy (file_reasons (text_of "path" action) policy) _ valid
          (unfold action_reasons in elim kind [ inl k ↦ rw k refl | inr k ↦ rw k refl ])
          (file_reasons-verdict (text_of "path" action) policy policy.default_decision)

    module _ (kind : u.lower (text_of "action_type" action) ≡ "network") where
      -- A valid network action with a host is denied if the host matches a denied domain; else it is
      -- a warning if there is an allow list that the host does not match, and gets the default if not.
      pub evaluate_action-network :
          (host : String)
          → action_host action ≡ ok host
          → (u.lower host == "") ≡ false
          → let domain = u.lower host in
            let allowed = patterns "network" "allow_domains" policy in
            Decides
              (verdict
                (any (domain_matches domain) (patterns "network" "deny_domains" policy))
                (not (is_empty allowed) && not (any (domain_matches domain) allowed))
                policy.default_decision)
              (evaluate_action action policy)
      unfolding raise_if
      evaluate_action-network host named nonempty =
          evaluate_action-Decides action policy (domain_reasons (u.lower host) policy) _ valid
            (unfold action_reasons network_reasons in rw (kind, named, nonempty) refl)
            (domain_reasons-verdict (u.lower host) policy policy.default_decision)
