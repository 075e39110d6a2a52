-- ===== src/Gateway.antt =====
-- policylatch/gateway.py: the decision on one MCP `tools/call` request.
pub mod Parsing
pub mod Gate
pub mod Denial
pub mod Trace
use mcp_guard.Base.{
  ℕ, String, Bool, true, not, ◌&&◌, ◌||◌, Option, none, some, List, [], ◌∷◌, ◌++◌, map, leb,
  if◌then◌else◌, is_empty, str_len, Unicode,
}
use mcp_guard.Base.Dict.{get_or}
use mcp_guard.Base.Int.{ℤ}
use mcp_guard.Evaluator.{text_of, evaluate_action}
use mcp_guard.Json.{
  get, has, only_fields, equals_text, is_object, nonblank_text, Value, null, int, str, obj, Fields,
  end, field,
}
use mcp_guard.Models.{decision_for, risk_for, Reason, Evaluation, Decision, allow, warns}
use mcp_guard.Policy.{Policy}
use mcp_guard.Result.{◌>>=◌, ◌>>◌, raise_if, Error, input_error, Result, ok, err}
use mcp_guard.ToolPolicy.{tool_name_is_allowed, tool_name_reasons}
use mcp_guard.Validation.{present_not_text, network_fields}

-- `str | int | None`
pub data RequestId : Type 0 where
  no_id : RequestId
  text_id : String → RequestId
  int_id : ℤ → RequestId

pub record McpToolCall : Type 0 where
  pub request_id : RequestId
  pub name : String
  pub arguments : Fields
  pub task_augmented : Bool

pub record GatewayResult : Type 0 where
  pub call : McpToolCall
  pub evaluation : Evaluation
  pub capabilities : List String

abbrev pub max_tool_name_chars : ℕ
max_tool_name_chars = 256

abbrev pub max_request_id_chars : ℕ
max_request_id_chars = 256

-- The type test on `request.get("id")`; `bool` is a subclass of `int` and is refused.
unfoldable pub typed_id : Option Value → Option RequestId
typed_id none = some no_id
typed_id (some null) = some no_id
typed_id (some (str s)) = some (text_id s)
typed_id (some (int n)) = some (int_id n)
typed_id (some _) = none

id_fits : RequestId → Bool
id_fits (text_id s) = leb (str_len s) max_request_id_chars
id_fits _ = true

from_option {ℓ} : {A : Type ℓ} → Error → Option A → Result A
from_option e none = err e
from_option e (some a) = ok a

-- data.get(field), if that is an object
unfoldable pub object_field : String → Fields → Option Fields
object_field name fields = elim (get name fields) [ some (obj o) ↦ some o | _ ↦ none ]

-- params.get("arguments", {}), if that is an object
unfoldable pub call_arguments : Fields → Option Fields
unfolding object_field
call_arguments params = if has "arguments" params then object_field "arguments" params else some end

unfoldable pub parse_mcp_tool_call : Fields → Result McpToolCall
unfolding typed_id id_fits from_option object_field call_arguments
parse_mcp_tool_call request = do
  raise_if (not (equals_text "2.0" (get "jsonrpc" request)))
      (input_error "MCP request jsonrpc must be '2.0'.")
  raise_if (not (equals_text "tools/call" (get "method" request)))
      (input_error "Gateway dry-run only supports MCP method 'tools/call'.")
  request_id ←
      from_option (input_error "MCP request id must be a string, integer, or null.")
        (typed_id (get "id" request))
  raise_if (not (id_fits request_id)) (input_error "MCP request id cannot exceed 256 characters.")
  params ←
      from_option (input_error "MCP tools/call params must be an object.")
        (object_field "params" request)
  name ←
      from_option (input_error "MCP tools/call params.name must be a non-empty string.")
        (nonblank_text (get "name" params))
  raise_if (not (leb (str_len name) max_tool_name_chars))
      (input_error "MCP tools/call params.name cannot exceed 256 characters.")
  arguments ←
      from_option (input_error "MCP tools/call params.arguments must be an object when provided.")
        (call_arguments params)
  raise_if (has "task" params && not (is_object (get "task" params)))
      (input_error "MCP tools/call params.task must be an object when provided.")
  ok (record {
    request_id = request_id;
    name = name;
    arguments = arguments;
    task_augmented = has "task" params;
  })

-- An action that a tool call implies: its `action_type`, and the dict that is evaluated.
pub record CapabilityAction : Type 0 where
  pub action_type : String
  pub action : Fields

unfoldable pub capability : String → String → String → String → CapabilityAction
capability action_type key value tool = record {
  action_type = action_type;
  action =
      field "action_type" (str action_type) (field key (str value) (field "tool" (str tool) end));
}

-- The block for `command`, and the one for `path`: a present argument must be a text that is not blank.
unfoldable pub text_capability :
    String → String → String → McpToolCall → Result (List CapabilityAction)
text_capability key action_type message call = elim (nonblank_text (get key call.arguments)) [
  | some value ↦ ok (capability action_type key value call.name ∷ [])
  | none ↦ if has key call.arguments then err (input_error message) else ok []
]

-- The branches on the number of network fields.
pick_network : List String → McpToolCall → Result (List CapabilityAction)
pick_network [] call =
    if has "url" call.arguments || has "domain" call.arguments
    then err (input_error "MCP tools/call network arguments require a non-empty url or domain.")
    else ok []
pick_network (key ∷ []) call =
    ok (capability "network" key (text_of key call.arguments) call.name ∷ [])
pick_network (_ ∷ _ ∷ _) call =
    err (input_error "MCP tools/call network arguments must provide exactly one of url or domain.")

unfoldable pub network_capability : McpToolCall → Result (List CapabilityAction)
unfolding pick_network
network_capability call = do
  raise_if (present_not_text "url" call.arguments)
      (input_error "MCP tools/call arguments.url must be a string.")
  raise_if (present_not_text "domain" call.arguments)
      (input_error "MCP tools/call arguments.domain must be a string.")
  pick_network (network_fields call.arguments) call

unfoldable pub capability_actions : McpToolCall → Result (List CapabilityAction)
capability_actions call = do
  commands ←
      text_capability "command" "shell"
        "MCP tools/call arguments.command must be a non-empty string." call
  paths ←
      text_capability "path" "file" "MCP tools/call arguments.path must be a non-empty string." call
  networks ← network_capability call
  ok (commands ++ (paths ++ networks))

abbrev pub recognized_argument_keys : List String
recognized_argument_keys = "command" ∷ "path" ∷ "url" ∷ "domain" ∷ []

unfoldable pub has_unclassified_arguments : McpToolCall → Bool
has_unclassified_arguments call = not (only_fields recognized_argument_keys call.arguments)

unfoldable pub task_reasons : McpToolCall → List Reason
task_reasons call =
    if call.task_augmented
    then record {
      rule = "gateway.tasks.unsupported";
      effect = warns;
      matched = "task";
      message = "Task-augmented tool calls need an explicit lifecycle policy.";
    }
      ∷ []
    else []

unfoldable pub unclassified_reasons : McpToolCall → List Reason
unclassified_reasons call =
    if has_unclassified_arguments call
    then record {
      rule = "gateway.arguments.unclassified";
      effect = warns;
      matched = "unclassified";
      message = "Tool arguments need an explicit capability mapping before enforcement.";
    }
      ∷ []
    else []

-- `capability_names`, and the fallback for a call with none.
unfoldable pub capability_list : List CapabilityAction → Bool → List String
capability_list actions unclassified =
    let names =
      map (λ (a : CapabilityAction). a.action_type) actions
      ++ (if unclassified then "unclassified" ∷ [] else []) in
    if is_empty names then "unclassified" ∷ [] else names

module _ ⦃u : Unicode⦄ where
  -- The loop that collects the reasons of every action.
  unfoldable pub all_action_reasons : List CapabilityAction → Policy → Result (List Reason)
  all_action_reasons [] policy = ok []
  all_action_reasons (a ∷ rest) policy = do
    evaluation ← evaluate_action a.action policy
    more ← all_action_reasons rest policy
    ok (evaluation.reasons ++ more)

  unfoldable pub base_decision : McpToolCall → Policy → Decision
  base_decision call policy =
      if tool_name_is_allowed call.name (get_or [] "mcp_tools" policy.rules)
      then allow
      else policy.default_decision

  unfoldable pub gateway_reasons : McpToolCall → List Reason → Policy → List Reason
  gateway_reasons call found policy =
      tool_name_reasons call.name (get_or [] "mcp_tools" policy.rules)
      ++ (task_reasons call ++ (unclassified_reasons call ++ found))

  -- The last part of `evaluate_mcp_request`, from the collected findings on.
  unfoldable pub gateway_result :
      McpToolCall → List CapabilityAction → List Reason → Policy → GatewayResult
  gateway_result call actions found policy =
      let reasons = gateway_reasons call found policy in
      let decision = decision_for reasons (base_decision call policy) in
      record {
        call = call;
        evaluation = record {
          decision = decision;
          risk_level = risk_for decision;
          reasons = reasons;
          subject = some call.name;
        };
        capabilities = capability_list actions (has_unclassified_arguments call);
      }

  unfoldable pub evaluate_mcp_request : Fields → Policy → Result GatewayResult
  evaluate_mcp_request request policy = do
    call ← parse_mcp_tool_call request
    actions ← capability_actions call
    found ← all_action_reasons actions policy
    ok (gateway_result call actions found policy)
