-- ===== src/Adapters.antt =====
-- policylatch/adapters.py: from the hook event of an agent runtime to the request that is evaluated, and
-- from the decision to the answer of the hook.
pub mod Laws
pub mod Config
pub mod Doctor
use mcp_guard.Base.{
  ℕ, zero, suc, String, ◌<>◌, true, not, Option, none, some, List, [], ◌∷◌, ◌++◌, ◌==◌,
  if◌then◌else◌, is_empty, Unicode,
}
use mcp_guard.Gateway.{evaluate_mcp_request, GatewayResult}
use mcp_guard.Journal.{pick}
use mcp_guard.Json.{
  get, has, only_fields, equals_text, nonblank_text, append_field, Fields, field, end, Value, obj,
  str, bool,
}
use mcp_guard.Models.{Reason, Evaluation, Decision, allow, warn, deny}
use mcp_guard.Policy.{Policy}
use mcp_guard.Receipts.Issue.{gateway_request_projection}
use mcp_guard.Result.{◌>>=◌, ◌>>◌, raise_if, input_error, Result, err, ok}

-- RuntimeName
pub data RuntimeName : Type 0 where
  claude_code codex : RuntimeName

-- _runtime
unfoldable pub runtime_name : String → Result RuntimeName
runtime_name value =
    if value == "claude-code"
    then ok claude_code
    else if value == "codex"
    then ok codex
    else err (input_error ("Unsupported adapter runtime '" <> (value <> "'.")))

unfoldable pub runtime_text : RuntimeName → String
runtime_text claude_code = "claude-code"
runtime_text codex = "codex"

abbrev pub common_tool_fields : List String
common_tool_fields = "command" ∷ "path" ∷ "file_path" ∷ "url" ∷ "domain" ∷ []

-- `known`, with _BASH_METADATA_FIELDS for the tool Bash
unfoldable pub known_fields : String → List String
known_fields tool_name =
    if tool_name == "Bash"
    then common_tool_fields ++ "description" ∷ "timeout" ∷ "run_in_background" ∷ []
    else common_tool_fields

-- The block on `file_path`.
unfoldable pub with_file_path : Option Value → Fields → Result Fields
with_file_path none arguments = ok arguments
with_file_path (some path) arguments =
    if has "path" arguments
    then err (input_error "Hook tool_input cannot contain both path and file_path.")
    else ok (append_field arguments "path" path)

-- The block on the fields that are not known.
unfoldable pub mark_unclassified : String → Fields → Fields → Fields
mark_unclassified tool_name tool_input arguments =
    if not (only_fields (known_fields tool_name) tool_input)
    then append_field arguments "__unclassified__" (bool true)
    else arguments

unfoldable pub hook_arguments : String → Fields → Result Fields
hook_arguments tool_name tool_input = do
  arguments ←
      with_file_path (get "file_path" tool_input)
        (pick ("command" ∷ "path" ∷ "url" ∷ "domain" ∷ []) tool_input)
  ok (mark_unclassified tool_name tool_input arguments)

-- The document of the request.
unfoldable pub hook_request : String → Fields → Fields
hook_request tool_name arguments = field "jsonrpc" (str "2.0") (
    field "id" (str "policylatch-adapter") (
      field "method" (str "tools/call") (
        field "params" (obj (field "name" (str tool_name) (field "arguments" (obj arguments) end)))
          end)))

-- event.get("tool_name") and event.get("tool_input"), checked
unfoldable pub hook_tool_name : RuntimeName → Option Value → Result String
hook_tool_name selected o = elim (nonblank_text o) [
  | some tool_name ↦ ok tool_name
  | none ↦
      err
        (input_error (runtime_text selected <> " PreToolUse tool_name must be a non-empty string."))
]

unfoldable pub hook_tool_input : RuntimeName → Option Value → Result Fields
hook_tool_input selected (some (obj tool_input)) = ok tool_input
hook_tool_input selected _ =
    err (input_error (runtime_text selected <> " PreToolUse tool_input must be an object."))

unfoldable pub normalize_hook_event : String → Fields → Result Fields
normalize_hook_event runtime event = do
  selected ← runtime_name runtime
  raise_if (not (equals_text "PreToolUse" (get "hook_event_name" event)))
      (input_error (runtime_text selected <> " adapter only accepts PreToolUse hook events."))
  tool_name ← hook_tool_name selected (get "tool_name" event)
  tool_input ← hook_tool_input selected (get "tool_input" event)
  arguments ← hook_arguments tool_name tool_input
  ok (hook_request tool_name arguments)

pub data Mode : Type 0 where
  blocking advisory : Mode

unfoldable pub mode_of : RuntimeName → Mode
mode_of claude_code = blocking
mode_of codex = advisory

-- The document of a decision: what varies of it. `projection` is what its receipt is made for.
pub record AdapterDecision : Type 0 where
  pub runtime : RuntimeName
  pub mode : Mode
  pub result : GatewayResult
  pub projection : Fields

-- What a hook answers.
pub data HookResponse : Type 0 where
  permission : String → String → HookResponse
  system_message : String → HookResponse

-- document["decision"].upper()
decision_upper : Decision → String
decision_upper allow = "ALLOW"
decision_upper warn = "WARN"
decision_upper deny = "DENY"

-- ", ".join(rules)
join_commas : List String → String
join_commas [] = ""
join_commas (r ∷ []) = r
join_commas (r ∷ s ∷ rs) = r <> (", " <> join_commas (s ∷ rs))

-- rules[:n]
first_rules : ℕ → List Reason → List String
first_rules zero rs = []
first_rules (suc n) [] = []
first_rules (suc n) (r ∷ rs) = r.rule ∷ first_rules n rs

-- _reason_summary
unfoldable pub reason_summary : Evaluation → String
unfolding decision_upper join_commas first_rules
reason_summary e =
    "PolicyLatch "
    <> (decision_upper e.decision
        <> (": "
            <> ((if is_empty e.reasons
                  then "resolved default policy"
                  else join_commas (first_rules 4 e.reasons))
                <> ".")))

unfoldable pub permission_of : Decision → String
permission_of allow = "allow"
permission_of warn = "ask"
permission_of deny = "deny"

unfoldable pub hook_response : RuntimeName → Evaluation → HookResponse
hook_response claude_code e = permission (permission_of e.decision) (reason_summary e)
hook_response codex e = system_message (
    reason_summary e
    <> " Current Codex command hooks expose this PreToolUse result as advisory context; they are not a PolicyLatch blocking boundary.")

module _ ⦃u : Unicode⦄ where
  unfoldable pub adapter_decision : String → Fields → Policy → Result AdapterDecision
  adapter_decision runtime event policy = do
    selected ← runtime_name runtime
    request ← normalize_hook_event (runtime_text selected) event
    result ← evaluate_mcp_request request policy
    ok (record {
      runtime = selected;
      mode = mode_of selected;
      result = result;
      projection = gateway_request_projection request;
    })
