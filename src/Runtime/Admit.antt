-- ===== src/Runtime/Admit.antt =====
-- The part of the loop of `run_stdio_gateway` in policylatch/runtime_gateway.py up to the write to the server.
use mcp_guard.Approval.Provider.{Provider, Terminal}
use mcp_guard.Approval.Request.{
  decision_text, non_approvable, build_approval_request, ApprovalRequest,
}
use mcp_guard.Base.{suc, Bool, false, not, ◌&&◌, Option, none, some, if◌then◌else◌, any, Unicode}
use mcp_guard.Base.Int.{negsuc}
use mcp_guard.Gateway.{evaluate_mcp_request, GatewayResult}
use mcp_guard.Json.{get, has, equals_text, Fields}
use mcp_guard.Models.{decision_eq, allow, warn}
use mcp_guard.Runtime.Session.{◌>>=◌, ◌>>◌, phase_eq, Run, return, lift, stop_if, count, ready}
use mcp_guard.Result.{runtime_error, Result, ok, err, is_input_error}
use mcp_guard.Runtime.Wire.{parse_json_line, request_id_of, validate_control_message, local_error}
use mcp_guard.Runtime.Turn.{
  rules_of, set_request_id, remember, count_approval, write_message, ask, Gateway, Turn, Permit,
  refused, forward_call, forward_control, current_phase, current_id,
}

module _ ⦃u : Unicode⦄ (g : Gateway) where
  unfoldable pub receive : Turn → Run Fields
  receive turn = do
    message ← lift (parse_json_line g.codec turn.line "Client request")
    request_id ← lift (request_id_of message)
    set_request_id request_id
    remember request_id
    return message

  unfoldable pub settle_call :
      Provider → GatewayResult → Terminal → Result ApprovalRequest → Run Bool
  unfolding ask count_approval
  settle_call p result terminal (err e) =
      if is_input_error e
      then if any non_approvable result.evaluation.reasons
        then return false
        else lift (err (runtime_error "Approval request could not be safely data-minimized."))
      else lift (err e)
  settle_call p result terminal (ok approval) = do
    decided ← ask g p approval terminal
    count (count_approval decided)
    return decided.approved

  unfoldable pub approve_with : Option Provider → Fields → GatewayResult → Terminal → Run Bool
  unfolding settle_call
  approve_with none message result terminal = return false
  approve_with (some p) message result terminal =
      if decision_eq result.evaluation.decision warn
      then settle_call p result terminal (
          build_approval_request g.hashing message result g.upstream_fingerprint g.policy_hash
            p.timeout_seconds)
      else return false

  unfoldable pub approve_call : Fields → GatewayResult → Terminal → Run Bool
  unfolding approve_with
  approve_call message result terminal s = approve_with s.provider message result terminal s

  unfoldable pub permit_call : GatewayResult → Turn → Bool → Run Permit
  unfolding rules_of
  permit_call result turn approved =
      if not (decision_eq result.evaluation.decision allow) && not approved
      then (do
        count (λ c. record c { blocked = suc c.blocked })
        request_id ← current_id
        write_message g
            (local_error request_id (negsuc 32040) "PolicyLatch did not allow this MCP tool call."
              (decision_text result.evaluation.decision) (rules_of result.evaluation.reasons))
            turn.client_writable
        return refused)
      else return forward_call

  unfoldable pub admit_call : Fields → Turn → Run Permit
  unfolding permit_call
  admit_call message turn = do
    stop_if (not (has "id" message))
        "MCP tools/call notifications are not supported by this gateway."
    phase ← current_phase
    stop_if (not (phase_eq phase ready)) "MCP tools/call requires a completed initialize lifecycle."
    result ← lift (evaluate_mcp_request message g.policy)
    approved ← approve_call message result turn.call_terminal
    permit_call result turn approved

  unfoldable pub admit_control : Fields → Run Permit
  admit_control message = do
    phase ← current_phase
    checked ← lift (validate_control_message message phase)
    count (λ c. record c { control_messages = suc c.control_messages })
    return (forward_control checked.0 checked.1)

  -- The part of the loop up to the write to the server.
  unfoldable pub admit : Fields → Turn → Run Permit
  unfolding admit_call admit_control
  admit message turn =
      if equals_text "tools/call" (get "method" message)
      then admit_call message turn
      else admit_control message
