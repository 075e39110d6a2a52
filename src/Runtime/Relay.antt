-- ===== src/Runtime/Relay.antt =====
-- The part of the loop of `run_stdio_gateway` in policylatch/runtime_gateway.py from the write to the server on.
use mcp_guard.Approval.Provider.{Provider, Terminal}
use mcp_guard.Approval.Request.{
  decision_text, build_result_approval_request, ApprovalRequest, ScanReport, clean, Outcome,
}
use mcp_guard.Base.{
  suc, String, Bool, true, false, not, Option, none, some, ◌==◌, if◌then◌else◌, Unicode,
}
use mcp_guard.Base.Int.{negsuc}
use mcp_guard.Json.{obj, Fields}
use mcp_guard.Runtime.Session.{
  ◌>>=◌, ◌>>◌, Run, return, lift, stop_if, send, count, set_phase, initialized, ready, to_upstream,
}
use mcp_guard.Result.{runtime_error, Result, ok, err, is_input_error}
use mcp_guard.Runtime.Wire.{read_correlated_response, validate_initialize_response, local_error}
use mcp_guard.Runtime.Turn.{
  rules_of, count_outcome, read_next, write_message, ask, Gateway, Turn, Permit, refused,
  forward_call, forward_control, current_id,
}

module _ ⦃u : Unicode⦄ (g : Gateway) where
  unfoldable pub forward_rest : Turn → Run (Unit {0})
  forward_rest turn = do
    stop_if (not turn.upstream_writable) "Could not write upstream stdin."
    count (λ c. record c { forwarded = suc c.forwarded })

  unfoldable pub forward : Turn → Run (Unit {0})
  unfolding forward_rest
  forward turn = send (to_upstream turn.line) >> forward_rest turn

  unfoldable pub await_response : Turn → Run Fields
  unfolding read_next
  await_response turn = do
    request_id ← current_id
    lift (read_correlated_response g.codec (read_next turn.upstream_line) request_id)

  unfoldable pub scan_response : Fields → Fields → Result ScanReport
  scan_response message response = elim (g.scan message response) [
    | ok report ↦ ok report
    | err e ↦
        if is_input_error e
        then err (runtime_error "Upstream tool response failed the bounded post-flight contract.")
        else err e
  ]

  unfoldable pub settle_result : Provider → Terminal → Result ApprovalRequest → Run Bool
  unfolding ask
  settle_result p terminal (err e) =
      if is_input_error e
      then lift (err (runtime_error "Result approval could not be safely data-minimized."))
      else lift (err e)
  settle_result p terminal (ok approval) = do
    decided ← ask g p approval terminal
    return decided.approved

  unfoldable pub approve_result_with : Option Provider → Fields → ScanReport → Terminal → Run Bool
  unfolding settle_result
  approve_result_with none message report terminal = return false
  approve_result_with (some p) message report terminal = settle_result p terminal (
      build_result_approval_request g.hashing message report g.upstream_fingerprint g.policy_hash
        p.timeout_seconds)

  unfoldable pub approve_result : Fields → ScanReport → Terminal → Run Bool
  unfolding approve_result_with
  approve_result message report terminal s =
      approve_result_with s.provider message report terminal s

  unfoldable pub withhold : ScanReport → Turn → Bool → Run Bool
  unfolding rules_of
  withhold report turn true = do
    count (λ c. record c { response_approved = suc c.response_approved })
    return true
  withhold report turn false = do
    request_id ← current_id
    write_message g
        (local_error request_id (negsuc 32042)
          "PolicyLatch withheld an untrusted MCP tool response." (decision_text report.decision)
          (rules_of report.reasons))
        turn.client_writable
    return false

  unfoldable pub screen_outcome : Fields → ScanReport → Turn → Outcome → Run Bool
  screen_outcome message report turn clean = return true
  screen_outcome message report turn _ =
      approve_result message report turn.result_terminal >>= withhold report turn

  -- Whether the response of the server is written to the client.
  unfoldable pub screen : Fields → Fields → Turn → Run Bool
  unfolding scan_response screen_outcome withhold count_outcome
  screen message response turn = do
    report ← lift (scan_response message response)
    count (count_outcome report.outcome)
    screen_outcome message report turn report.outcome

  unfoldable pub answer_call : Fields → Turn → Run (Unit {0})
  unfolding screen await_response
  answer_call message turn = do
    response ← await_response turn
    released ← screen message response turn
    (if released then write_message g (obj response) turn.client_writable else return tt)

  unfoldable pub answer_control : String → Turn → Run (Unit {0})
  unfolding await_response
  answer_control method turn = do
    response ← await_response turn
    lift (if method == "initialize" then validate_initialize_response response else ok tt)
    write_message g (obj response) turn.client_writable
    (if method == "initialize" then set_phase initialized else return tt)

  -- The rest of the loop.
  unfoldable pub relay : Fields → Turn → Permit → Run (Unit {0})
  unfolding forward answer_call answer_control
  relay message turn refused = return tt
  relay message turn forward_call = forward turn >> answer_call message turn
  relay message turn (forward_control method true) =
      forward turn >> (if method == "notifications/initialized" then set_phase ready else return tt)
  relay message turn (forward_control method false) = forward turn >> answer_control method turn
