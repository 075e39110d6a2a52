-- ===== src/Tests/Traces.antt =====
-- Examples for policylatch/gateway_trace.py: a file of one request and a blank line.
use mcp_guard.Tests.{plain_text}
use mcp_guard.Base.{ℕ, ◌≤◌, ◌≡◌, refl, false, some, List, [], ◌∷◌, length, All}
use mcp_guard.Base.Int.{pos}
use mcp_guard.Gateway.{
  GatewayResult, no_id, parse_mcp_tool_call, capability, text_capability, network_capability,
  capability_actions, has_unclassified_arguments, task_reasons, unclassified_reasons,
  capability_list, all_action_reasons, base_decision, gateway_reasons, gateway_result,
  evaluate_mcp_request,
}
use mcp_guard.Gateway.Trace.{
  max_trace_total_bytes, load_gateway_trace, gateway_trace_document, TraceDocument, bytes_read,
  record_limit, is_blank_line, rewrap, first_state, trace_results, trace_result, trace_record,
  trace_counted, trace_line,
}
use mcp_guard.Gateway.Trace.Laws.{IsEvaluation}
use mcp_guard.Gateway.Trace.Replay.{load_gateway_trace-document, IsSummary}
use mcp_guard.Json.{
  Fields, field, end, obj, str, int, get, has, only_fields, equals_text, is_text, nonblank_text,
  as_text,
}
use mcp_guard.Jsonl.{Coding, read_line}
use mcp_guard.Models.{allow, low, decision_for, risk_for}
use mcp_guard.Policy.{Policy}
use mcp_guard.Result.{ok, raise_if}
use mcp_guard.Evaluator.{text_of}
use mcp_guard.Jsonl.Loop.{next_round, each_line}
use mcp_guard.ToolPolicy.{
  matching_reasons, tool_name_is_allowed, outside_allow_list, tool_name_reasons,
}
use mcp_guard.Validation.{present_not_text, network_fields}

abbrev request : Fields
request =
    field "jsonrpc" (str "2.0")
      (field "method" (str "tools/call") (field "params" (obj (field "name" (str "read") end)) end))

-- Every line has the text of the request.
abbrev request_lines : Coding
request_lines = record {
  dumps = λ v. ok "";
  utf8 = λ s. ok [];
  loads = λ bytes. some (obj request);
  sha256 = λ bytes. "";
}

abbrev no_rules : Policy
no_rules = record { default_decision = allow; rules = []; budgets = [] }

abbrev replayed : GatewayResult
replayed = record {
  call = record { request_id = no_id; name = "read"; arguments = end; task_augmented = false };
  evaluation = record { decision = allow; risk_level = low; reasons = []; subject = some "read" };
  capabilities = "unclassified" ∷ [];
}

abbrev trace_bytes : List ℕ
trace_bytes = 123 ∷ b'\n' ∷ b'\n' ∷ []

replay :
    load_gateway_trace request_lines no_rules (bytes_read trace_bytes) (int (pos 5))
    ≡ ok (replayed ∷ [])
unfolding load_gateway_trace record_limit first_state trace_results each_line trace_line
    trace_counted trace_record trace_result rewrap next_round evaluate_mcp_request
    parse_mcp_tool_call capability_actions gateway_result all_action_reasons raise_if equals_text
    get nonblank_text has text_capability only_fields network_capability present_not_text
    network_fields capability is_text text_of as_text decision_for risk_for gateway_reasons
    capability_list tool_name_reasons has_unclassified_arguments matching_reasons outside_allow_list
    task_reasons unclassified_reasons base_decision tool_name_is_allowed read_line is_blank_line
replay = refl

load_gateway_trace-document_example :
    (length trace_bytes ≤ max_trace_total_bytes)
    × (length (replayed ∷ []) ≤ 5)
    × All (IsEvaluation no_rules) (replayed ∷ [])
    × ((doc : TraceDocument) × (gateway_trace_document (replayed ∷ []) ≡ ok doc)
        × IsSummary (replayed ∷ []) doc)
load_gateway_trace-document_example =
    load_gateway_trace-document request_lines no_rules trace_bytes 5 replay
