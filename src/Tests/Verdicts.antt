-- ===== src/Tests/Verdicts.antt =====
-- Examples for the decisions of policylatch/models.py, matching.py, evaluator.py and gateway.py.
use mcp_guard.Tests.{plain_text}
use mcp_guard.Base.{
  ◌≡◌, refl, ◌↔◌, ◌⊎◌, inl, true, false, not, ◌&&◌, some, [], ◌∷◌, any, is_empty, is_space,
  is_blank,
}
use mcp_guard.Base.Dict.{get_or, lookup}
use mcp_guard.Base.Int.{pos}
use mcp_guard.Evaluator.{
  text_of, action_host, evaluate_action, network_target, shell_reasons, action_reasons,
}
use mcp_guard.Evaluator.Decides.{
  evaluate_action-shell, evaluate_action-file, evaluate_action-network, Decides,
}
use mcp_guard.Evaluator.Laws.{verdict}
use mcp_guard.Gateway.{
  parse_mcp_tool_call, base_decision, evaluate_mcp_request, McpToolCall, GatewayResult, int_id,
  typed_id, object_field, call_arguments, capability, text_capability, network_capability,
  capability_actions, has_unclassified_arguments, task_reasons, unclassified_reasons,
  capability_list, all_action_reasons, gateway_reasons, gateway_result,
}
use mcp_guard.Gateway.Denial.{IsRejected, evaluate_mcp_request-deny_iff}
use mcp_guard.Gateway.Gate.{evaluate_mcp_request-allow_iff, Evaluated, IsClear}
use mcp_guard.Gateway.Parsing.{parse_mcp_tool_call-IsParsed, IsParsed}
use mcp_guard.Json.{
  int, str, obj, Fields, end, field, get, has, as_text, equals_text, is_text, nonblank_text,
  field_names, only_fields, is_object, in_set,
}
use mcp_guard.Matching.{
  text_matches, path_matches, domain_matches, starts, is_infix, has_wildcard, name_matches,
}
use mcp_guard.Matching.Glob.{tokens, fnmatch, accepts, glob}
use mcp_guard.Models.{decision_for, allow, deny, low, risk_for}
use mcp_guard.Policy.{patterns, Policy}
use mcp_guard.Result.{ok, raise_if}
use mcp_guard.ToolPolicy.{
  tool_name_is_allowed, matching_reasons, outside_allow_list, tool_name_reasons,
}
use mcp_guard.Validation.{
  validate_action, required_text, present_not_text, network_fields, required_field,
}
use mcp_guard.Url.{hostname}
use mathlib.Core.Bool.{xor}

abbrev policy : Policy
policy = record {
  default_decision = allow;
  rules =
      ("shell", ("deny_patterns", "rm -rf" ∷ []) ∷ ("warn_patterns", "curl" ∷ []) ∷ [])
      ∷ ("files", ("deny_paths", ".env" ∷ []) ∷ [])
      ∷ ("network", ("allow_domains", "example.com" ∷ []) ∷ [])
      ∷ ("mcp_tools", ("allow_names", "run" ∷ []) ∷ [])
      ∷ [];
  budgets = [];
}

abbrev shell_action : Fields
shell_action = field "action_type" (str "shell") (field "command" (str "rm -rf /") end)

evaluate_action-shell_example :
    Decides
      (verdict
        (any (text_matches "rm -rf /") (patterns "shell" "deny_patterns" policy))
        (any (text_matches "rm -rf /") (patterns "shell" "warn_patterns" policy))
        allow)
      (evaluate_action shell_action policy)
unfolding validate_action text_of get raise_if has as_text
evaluate_action-shell_example = evaluate_action-shell shell_action policy refl refl

abbrev file_action : Fields
file_action = field "action_type" (str "file") (field "path" (str "app/.env") end)

evaluate_action-file_example :
    Decides
      (verdict
        (any (path_matches "app/.env") (patterns "files" "deny_paths" policy))
        (any (path_matches "app/.env") (patterns "files" "warn_paths" policy))
        allow)
      (evaluate_action file_action policy)
unfolding validate_action text_of get raise_if has as_text
evaluate_action-file_example = evaluate_action-file file_action policy refl (inl refl)

abbrev network_action : Fields
network_action = field "action_type" (str "network") (field "domain" (str "evil.test") end)

evaluate_action-network_example :
    Decides
      (verdict
        (any (domain_matches "evil.test") (patterns "network" "deny_domains" policy))
        (not (is_empty (patterns "network" "allow_domains" policy))
          && not (any (domain_matches "evil.test") (patterns "network" "allow_domains" policy)))
        allow)
      (evaluate_action network_action policy)
unfolding validate_action text_of action_host get raise_if has is_text as_text hostname xor starts
    is_infix network_target
evaluate_action-network_example =
    evaluate_action-network network_action policy refl refl "evil.test" refl refl

abbrev request : Fields
request = field "jsonrpc" (str "2.0") (
    field "id" (int (pos 7)) (
      field "method" (str "tools/call") (
        field "params"
          (obj (
            field "name" (str "run")
              (field "arguments" (obj (field "command" (str "ls") end)) end)))
          end)))

abbrev call : McpToolCall
call = record {
  request_id = int_id (pos 7);
  name = "run";
  arguments = field "command" (str "ls") end;
  task_augmented = false;
}

abbrev result : GatewayResult
result = record {
  call = call;
  evaluation = record { decision = allow; risk_level = low; reasons = []; subject = some "run" };
  capabilities = "shell" ∷ [];
}

parse_mcp_tool_call-IsParsed_example : IsParsed request call
unfolding parse_mcp_tool_call raise_if equals_text get nonblank_text has
parse_mcp_tool_call-IsParsed_example = parse_mcp_tool_call-IsParsed request call refl

evaluated : evaluate_mcp_request request policy ≡ ok result
unfolding evaluate_mcp_request parse_mcp_tool_call raise_if equals_text get nonblank_text has
    capability_actions text_capability network_capability present_not_text network_fields
    all_action_reasons evaluate_action validate_action capability is_text action_reasons text_of
    get_or lookup is_blank is_space shell_reasons base_decision call_arguments capability_list
    gateway_reasons gateway_result has_unclassified_arguments object_field task_reasons typed_id
    unclassified_reasons as_text field_names in_set is_object only_fields accepts fnmatch glob
    tokens has_wildcard is_infix name_matches starts text_matches decision_for risk_for patterns
    matching_reasons outside_allow_list tool_name_is_allowed tool_name_reasons required_field
    required_text
evaluated = refl

evaluate_mcp_request-allow_iff_example :
    (e : Evaluated request policy result) × ((result.evaluation.decision ≡ allow) ↔ (
      IsClear e.call e.found policy
      × ((tool_name_is_allowed e.call.name (get_or [] "mcp_tools" policy.rules) ≡ true)
          ⊎ (policy.default_decision ≡ allow))))
evaluate_mcp_request-allow_iff_example =
    evaluate_mcp_request-allow_iff request policy result evaluated

evaluate_mcp_request-deny_iff_example :
    (e : Evaluated request policy result) × ((result.evaluation.decision ≡ deny) ↔ (
      IsRejected e.call e.found policy
      ⊎ (IsClear e.call e.found policy × (base_decision e.call policy ≡ deny))))
evaluate_mcp_request-deny_iff_example =
    evaluate_mcp_request-deny_iff request policy result evaluated
