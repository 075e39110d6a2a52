-- ===== src/ToolResult/Response.antt =====
-- policylatch/runtime_response.py: the scan of the response to a tools/call request.
use mcp_guard.Base.{String, not, Option, none, some, if◌then◌else◌, Unicode}
use mcp_guard.Approval.Request.{ScanReport}
use mcp_guard.Base.Int.{pos}
use mcp_guard.Json.{
  get, has, is_text, as_text, Fields, field, end, Value, obj, arr, str, int, null, nil,
}
use mcp_guard.Jsonl.{hash, Coding}
use mcp_guard.Receipts.{object_at}
use mcp_guard.Receipts.Issue.{get_value}
use mcp_guard.Result.{◌>>=◌, ◌>>◌, raise_if, input_error, Result, err, ok}
use mcp_guard.ToolResult.Scan.{scan_tool_result}

module _ ⦃u : Unicode⦄ (c : Coding) where
  -- _fingerprint of policylatch/runtime_response.py
  response_fingerprint : String → Fields → Result String
  response_fingerprint label message =
      elim (hash c (obj (field "contract" (str label) (field "value" (obj message) end)))) [
        | ok digest ↦ ok digest
        | err e ↦ err (input_error "Runtime MCP response cannot be safely fingerprinted.")
      ]

  -- {"result": response["result"]} or {"error": response["error"]}
  envelope : Fields → Fields
  envelope response = elim (get "result" response) [
    | some v ↦ field "result" v end
    | none ↦ field "error" (get_value null "error" response) end
  ]

  -- `pretty` is json.dumps(..., indent=2, sort_keys=True, allow_nan=False), or `none` where it raises.
  unfoldable pub scan_mcp_tool_response :
      String → (Value → Option String) → Fields → Fields → Result ScanReport
  unfolding response_fingerprint envelope
  scan_mcp_tool_response version pretty request response = do
    let name = get "name" (object_at "params" request)
    raise_if (not (is_text name)) (input_error "Runtime MCP request correlation is invalid.")
    raise_if (if has "result" response then has "error" response else not (has "error" response))
        (input_error "Runtime MCP response must contain exactly one result or error.")
    elim (pretty (obj (envelope response))) [
      | none ↦ err (input_error "Runtime MCP response cannot be normalized as bounded JSON text.")
      | some text ↦ do
        request_id ← response_fingerprint "runtime-request-v1" request
        response_id ← response_fingerprint "runtime-response-v1" response
        scan_tool_result c version
            (field "schema_version" (int (pos 1)) (
              field "kind" (str "tool_result") (
                field "request_id" (str request_id) (
                  field "result_id" (str response_id) (
                    field "tool" (str (elim name [ none ↦ "" | some v ↦ as_text v ])) (
                      field "source_trust" (str "untrusted") (
                        field "content" (str text)
                          (field "fields" (obj end) (field "expected_domains" (arr nil) end)))))))))
            "runtime-upstream.json"
    ]
