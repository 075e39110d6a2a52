-- ===== src/Runtime/Loop.antt =====
-- The loop of `run_stdio_gateway` in policylatch/runtime_gateway.py.
use mcp_guard.Base.{ℕ, suc, List, [], ◌∷◌, if◌then◌else◌, is_empty, Unicode, zero, String}
use mcp_guard.Base.Int.{negsuc}
use mcp_guard.Gateway.{no_id}
use mcp_guard.Runtime.Session.{◌>>=◌, ◌>>◌, Run, Session, Ran, value, raised, count}
use mcp_guard.Result.{runtime_error}
use mcp_guard.Runtime.Wire.{local_error}
use mcp_guard.Runtime.Admit.{receive, admit}
use mcp_guard.Runtime.Relay.{relay}
use mcp_guard.Runtime.Turn.{
  write_message, Gateway, Turn, End, continues, stops, escapes, current_id,
}

module _ ⦃u : Unicode⦄ (g : Gateway) where
  unfoldable pub handle : Turn → Run (Unit {0})
  handle turn = do
    message ← receive g turn
    permit ← admit g message turn
    relay g message turn permit

  unfoldable pub report_error : Ran (Unit {0}) → End × Session
  report_error (value _ s) = (stops, s)
  report_error (raised (runtime_error m) s) = (stops, s)
  report_error (raised e s) = (escapes e, s)

  unfoldable pub report : Turn → String → Run (Unit {0})
  report turn m = do
    count (λ c. record c { protocol_errors = suc c.protocol_errors })
    request_id ← current_id
    write_message g (local_error request_id (negsuc 32041) m "deny" []) turn.error_writable

  -- `except RuntimeGatewayError`
  unfoldable pub finish : Turn → Ran (Unit {0}) → End × Session
  unfolding report_error report
  finish turn (value _ s) = (continues, s)
  finish turn (raised (runtime_error m) s) = report_error (report turn m s)
  finish turn (raised e s) = (escapes e, s)

  -- One pass of the loop.
  unfoldable pub step : Turn → Session → End × Session
  step turn s = finish turn (handle turn (record s { request_id = no_id }))

  unfoldable pub go_on : End → End × Session → End × Session → End × Session
  go_on continues rest final = rest
  go_on stops rest final = final
  go_on (escapes e) rest final = final

  -- The loop; the client is at its end when no turn is left, or at an empty line.
  unfoldable pub run_session : ℕ → List Turn → Session → End × Session
  unfolding go_on
  run_session zero turns s =
      (escapes (runtime_error "Runtime session exceeds the message-count limit."), s)
  run_session (suc n) [] s = (stops, s)
  run_session (suc n) (turn ∷ turns) s =
      let rest = run_session n turns (step turn s).1 in
      if is_empty turn.line then (stops, s) else go_on (step turn s).0 rest (step turn s)
