-- ===== src/Runtime/Release.antt =====
-- When `run_stdio_gateway` of policylatch/runtime_gateway.py lets the response to a tool call pass.
use mcp_guard.Runtime.Session.{
  ◌>>=◌, return, lift, count, >>=-eq-value, lift-value, return-value, Session, value,
}
use mcp_guard.Approval.Provider.{authorize, Provider, Terminal}
use mcp_guard.Approval.Request.{
  build_result_approval_request, ApprovalRequest, ScanReport, Outcome, clean, review,
  block_next_step,
}
use mcp_guard.Base.{
  ◌≡◌, refl, sym, ◌∙◌, Bool, true, false, Option, none, some, arith, if◌then◌else◌, Unicode,
}
use mcp_guard.Json.{Fields}
use mcp_guard.Result.{runtime_error, Result, err, ok, is_input_error}
use mcp_guard.Runtime.Loop.{report}
use mcp_guard.Runtime.Relay.{
  scan_response, settle_result, approve_result_with, approve_result, withhold, screen_outcome,
  screen,
}
use mcp_guard.Runtime.Turn.{current_id, write_message, ask, Gateway, Turn}

module _ ⦃u : Unicode⦄ (g : Gateway) where
  -- The scan of the response is clean, or the provider approved the result.
  pub data Screened (s : Session) (m response : Fields) (t : Terminal) : Type 0 where
    is_clean :
        (r : ScanReport) → g.scan m response ≡ ok r → r.outcome ≡ clean → Screened s m response t
    reviewed :
        (r : ScanReport) (p : Provider) (a : ApprovalRequest)
        → g.scan m response ≡ ok r
        → s.provider ≡ some p
        → build_result_approval_request g.hashing m r g.upstream_fingerprint g.policy_hash
            p.timeout_seconds
          ≡ ok a
        → (authorize g.ticks_per_second p a t).0.approved ≡ true
        → Screened s m response t

  settle_result-value :
      (p : Provider) (t : Terminal) (a : Result ApprovalRequest) (s s' : Session)
      → settle_result g p t a s ≡ value true s'
      → (request : ApprovalRequest) × (a ≡ ok request)
        × ((authorize g.ticks_per_second p request t).0.approved ≡ true)
  unfolding settle_result lift return
  settle_result-value p t (err e) s s' h = absurd (ground arith)
  settle_result-value p t (ok a) s s' h = (a, refl, unfold ask in ground arith)

  approve_result_with-value :
      (o : Option Provider) (m response : Fields) (r : ScanReport) (t : Terminal) (s s' : Session)
      → o ≡ s.provider
      → g.scan m response ≡ ok r
      → approve_result_with g o m r t s ≡ value true s'
      → Screened s m response t
  unfolding approve_result_with return
  approve_result_with-value none m response r t s s' o scanned h = cc
  approve_result_with-value (some p) m response r t s s' o scanned h =
      let (a, built, granted) = settle_result-value p t _ s s' h in
      reviewed r p a scanned (sym o) built granted

  withhold-value :
      (r : ScanReport) (turn : Turn) (b : Bool) (s s' : Session)
      → withhold g r turn b s ≡ value true s'
      → b ≡ true
  unfolding withhold
  withhold-value r turn true s s' h = refl
  withhold-value r turn false s s' h =
      let (i, s1, read, h1) = >>=-eq-value (current_id s) _ h in
      let (_, s2, was_written, h2) = >>=-eq-value (write_message g _ _ s1) _ h1 in
      return-value false s2 h2

  review-value :
      (m response : Fields) (r : ScanReport) (turn : Turn) (s s' : Session)
      → g.scan m response ≡ ok r
      → (approve_result g m r turn.result_terminal >>= withhold g r turn) s ≡ value true s'
      → Screened s m response turn.result_terminal
  unfolding approve_result
  review-value m response r turn s s' scanned h =
      let (b, t, decided, h1) = >>=-eq-value (approve_result g m r turn.result_terminal s) _ h in
      approve_result_with-value s.provider m response r turn.result_terminal s t refl scanned
        (rw (withhold-value r turn b t s' h1) at decided)

  screen_outcome-value :
      (m response : Fields) (r : ScanReport) (turn : Turn) (o : Outcome) (s s' : Session)
      → r.outcome ≡ o
      → g.scan m response ≡ ok r
      → screen_outcome g m r turn o s ≡ value true s'
      → Screened s m response turn.result_terminal
  unfolding screen_outcome
  screen_outcome-value m response r turn clean s s' e scanned h = is_clean r scanned e
  screen_outcome-value m response r turn review s s' e scanned h =
      review-value m response r turn s s' scanned h
  screen_outcome-value m response r turn block_next_step s s' e scanned h =
      review-value m response r turn s s' scanned h

  scan_response-ok :
      (m response : Fields) (r : ScanReport)
      → scan_response g m response ≡ ok r
      → g.scan m response ≡ ok r
  unfolding scan_response
  scan_response-ok m response r h = found (g.scan m response) h
    where
      found :
          (o : Result ScanReport)
          → elim o as (λ _. Result ScanReport) [
            | ok report ↦ ok report
            | err e ↦
                if is_input_error e
                then err (
                    runtime_error "Upstream tool response failed the bounded post-flight contract.")
                else err e
          ]
            ≡ ok r
          → o ≡ ok r
      found (ok report) k = k
      found (err e) k = absurd (ground arith)

  Screened-counted :
      (s t : Session) (m response : Fields) (x : Terminal)
      → t.provider ≡ s.provider
      → Screened t m response x
      → Screened s m response x
  Screened-counted s t m response x same (is_clean r scanned e) = is_clean r scanned e
  Screened-counted s t m response x same (reviewed r p a scanned has_p built granted) =
      reviewed r p a scanned (sym same ∙ has_p) built granted

  -- The response to a tool call is let through only if its scan is clean, or the provider of the
  -- session approved the request for this result.
  pub screen-Screened :
      (m response : Fields) (turn : Turn) (s s' : Session)
      → screen g m response turn s ≡ value true s'
      → Screened s m response turn.result_terminal
  unfolding screen count
  screen-Screened m response turn s s' h =
      let (r, scanned, h1) = lift-value (scan_response g m response) s _ h in
      Screened-counted s _ m response turn.result_terminal refl (
        screen_outcome-value m response r turn r.outcome _ s' refl
          (scan_response-ok m response r scanned) h1)
