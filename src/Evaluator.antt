-- ===== src/Evaluator.antt =====
-- policylatch/evaluator.py: the decision on one proposed action.
pub mod Laws
pub mod Decides
use mcp_guard.Base.{
  String, ◌<>◌, not, ◌&&◌, ◌||◌, none, some, List, [], ◌∷◌, ◌++◌, ◌==◌, if◌then◌else◌, any,
  is_empty, codes, Unicode,
}
use mcp_guard.Json.{get, has, nonblank_text, as_text, Fields}
use mcp_guard.Matching.{is_infix, text_matches, path_matches, domain_matches}
use mcp_guard.Models.{decision_for, risk_for, Reason, Evaluation, warns, denies}
use mcp_guard.Policy.{patterns, Policy}
use mcp_guard.Result.{◌>>=◌, ◌>>◌, raise_if, input_error, Result, ok}
use mcp_guard.ToolPolicy.{matching_reasons}
use mcp_guard.Url.{hostname}
use mcp_guard.Validation.{validate_action}

-- The text of a field that validation has shown to be a text.
unfoldable pub text_of : String → Fields → String
text_of name fields = elim (get name fields) [ some v ↦ as_text v | none ↦ "" ]

module _ ⦃u : Unicode⦄ where
  unfoldable pub shell_reasons : String → Policy → List Reason
  unfolding patterns
  shell_reasons command policy =
      matching_reasons (text_matches command) "shell.deny_patterns" denies
        "Blocked shell pattern detected." (patterns "shell" "deny_patterns" policy)
      ++ matching_reasons (text_matches command) "shell.warn_patterns" warns
          "Shell action requires review." (patterns "shell" "warn_patterns" policy)

  unfoldable pub file_reasons : String → Policy → List Reason
  unfolding patterns
  file_reasons path policy =
      matching_reasons (path_matches path) "files.deny_paths" denies "Sensitive path is blocked."
        (patterns "files" "deny_paths" policy)
      ++ matching_reasons (path_matches path) "files.warn_paths" warns "File path requires review."
          (patterns "files" "warn_paths" policy)

  -- The reasons on a hostname.
  unfoldable pub domain_reasons : String → Policy → List Reason
  unfolding patterns
  domain_reasons domain policy =
      let allowed = patterns "network" "allow_domains" policy in
      matching_reasons (domain_matches domain) "network.deny_domains" denies
        "Destination domain is blocked." (patterns "network" "deny_domains" policy)
      ++ (if not (is_empty allowed) && not (any (domain_matches domain) allowed)
          then record {
            rule = "network.allow_domains";
            effect = warns;
            matched = "outside-allowlist";
            message = "Destination is not on the allow list.";
          }
            ∷ []
          else [])

  -- url if isinstance(url, str) and url.strip() else action["domain"]
  unfoldable pub network_target : Fields → String
  network_target action = elim (nonblank_text (get "url" action)) [
    | some url ↦ url
    | none ↦ text_of "domain" action
  ]

  -- urlparse(target if "://" in target else f"//{target}").hostname
  unfoldable pub action_host : Fields → Result String
  action_host action =
      let target = network_target action in
      hostname u.netloc_ok u.lower
        (if is_infix (codes "://") (codes target) then target else "//" <> target)

  unfoldable pub network_reasons : Fields → Policy → Result (List Reason)
  network_reasons action policy = do
    host ← action_host action
    let domain = u.lower host
    raise_if (domain == "")
        (input_error "Network action URL or domain does not contain a valid hostname.")
    ok (domain_reasons domain policy)

  -- The chain on `action_type`.
  unfoldable pub action_reasons : Fields → Policy → Result (List Reason)
  action_reasons action policy =
      let action_type = u.lower (text_of "action_type" action) in
      if action_type == "shell"
      then ok (shell_reasons (text_of "command" action) policy)
      else if action_type == "file" || action_type == "filesystem"
      then ok (file_reasons (text_of "path" action) policy)
      else network_reasons action policy

  unfoldable pub evaluate_action : Fields → Policy → Result Evaluation
  evaluate_action action policy = do
    validate_action action
    reasons ← action_reasons action policy
    let decision = decision_for reasons policy.default_decision
    ok (record {
      decision = decision;
      risk_level = risk_for decision;
      reasons = reasons;
      subject = some (if has "tool" action then text_of "tool" action else "action");
    })
