-- ===== src/Tests/Hooks.antt =====
-- Examples for policylatch/adapters.py: a hook event for a shell command under a policy without rules.
use mcp_guard.Tests.{plain_text}
use mcp_guard.Adapters.{
  reason_summary, permission_of, hook_response, adapter_decision, AdapterDecision, claude_code,
  blocking, permission, runtime_name, runtime_text, known_fields, with_file_path, mark_unclassified,
  hook_arguments, hook_request, hook_tool_name, hook_tool_input, normalize_hook_event, mode_of,
}
use mcp_guard.Adapters.Laws.{hook_response-Permitted, Permitted}
use mcp_guard.Base.{◌≡◌, refl, false, some, [], ◌∷◌}
use mcp_guard.Gateway.{
  text_id, parse_mcp_tool_call, capability_actions, all_action_reasons, gateway_result,
  evaluate_mcp_request, capability, text_capability, network_capability, has_unclassified_arguments,
  task_reasons, unclassified_reasons, capability_list, base_decision, gateway_reasons,
}
use mcp_guard.Json.{
  Fields, field, end, obj, arr, str, bool, cons, nil, get, has, only_fields, equals_text, is_text,
  nonblank_text, as_text,
}
use mcp_guard.Models.{allow, low, decision_for, risk_for}
use mcp_guard.Policy.{Policy}
use mcp_guard.Result.{ok, raise_if}
use mcp_guard.Evaluator.{evaluate_action, text_of, action_reasons, shell_reasons}
use mcp_guard.Receipts.Issue.{gateway_request_projection}
use mcp_guard.Journal.{pick}
use mcp_guard.Validation.{present_not_text, network_fields, validate_action}
use mcp_guard.Receipts.{object_at}
use mcp_guard.ToolPolicy.{
  matching_reasons, tool_name_is_allowed, outside_allow_list, tool_name_reasons,
}

abbrev tool_input : Fields
tool_input = field "command" (str "ls") (field "description" (str "list") end)

abbrev event : Fields
event =
    field "hook_event_name" (str "PreToolUse")
      (field "tool_name" (str "Bash") (field "tool_input" (obj tool_input) end))

abbrev no_rules : Policy
no_rules = record { default_decision = allow; rules = []; budgets = [] }

abbrev permitted : AdapterDecision
permitted = record {
  runtime = claude_code;
  mode = blocking;
  result = record {
    call = record {
      request_id = text_id "policylatch-adapter";
      name = "Bash";
      arguments = field "command" (str "ls") end;
      task_augmented = false;
    };
    evaluation = record { decision = allow; risk_level = low; reasons = []; subject = some "Bash" };
    capabilities = "shell" ∷ [];
  };
  projection = field "contract" (str "mcp-tools-call-v1") (
      field "method" (str "tools/call") (
        field "argument_fields" (arr (cons (str "command") nil))
          (field "unclassified_arguments" (bool false) (field "task_augmented" (bool false) end))));
}

decided_event : adapter_decision "claude-code" event no_rules ≡ ok permitted
unfolding adapter_decision runtime_name runtime_text normalize_hook_event hook_tool_name
    hook_tool_input hook_arguments with_file_path mark_unclassified known_fields hook_request
    mode_of evaluate_mcp_request parse_mcp_tool_call capability_actions gateway_result
    all_action_reasons evaluate_action gateway_request_projection raise_if equals_text get
    nonblank_text has text_capability only_fields pick network_capability present_not_text
    network_fields validate_action capability is_text action_reasons text_of as_text decision_for
    risk_for gateway_reasons capability_list object_at tool_name_reasons has_unclassified_arguments
    matching_reasons outside_allow_list task_reasons unclassified_reasons shell_reasons
    base_decision tool_name_is_allowed
decided_event = refl

answered :
    hook_response claude_code permitted.result.evaluation
    ≡ permission "allow" "PolicyLatch ALLOW: resolved default policy."
unfolding hook_response reason_summary permission_of
answered = refl

hook_response-Permitted_example :
    (permitted.runtime ≡ claude_code)
    × (permitted.mode ≡ blocking)
    × Permitted event no_rules permitted.result
hook_response-Permitted_example =
    hook_response-Permitted "claude-code" event no_rules decided_event answered
