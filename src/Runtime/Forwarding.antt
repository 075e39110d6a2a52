-- ===== src/Runtime/Forwarding.antt =====
-- Which lines `run_stdio_gateway` of policylatch/runtime_gateway.py writes to the server.
pub mod Step
-- The lines written to the server, the last first.
use mcp_guard.Approval.Provider.{authorize, Provider, Terminal}
use mcp_guard.Approval.Request.{build_approval_request, ApprovalRequest}
use mcp_guard.Base.{
  ℕ, String, ◌≡◌, refl, sym, ◌⊎◌, inl, inr, Bool, true, false, Option, none, some, List, [], ◌∷◌,
  arith, Bool-cases, Unicode, suc, not, ◌&&◌,
}
use mcp_guard.Gateway.{evaluate_mcp_request, GatewayResult}
use mcp_guard.Json.{get, equals_text, Fields, has}
use mcp_guard.Models.{decision_eq, allow, warn, Decision}
use mcp_guard.Result.{Result, ok, err}
use mcp_guard.Runtime.Admit.{
  settle_call, approve_with, permit_call, admit, approve_call, admit_call, admit_control,
}
use mcp_guard.Runtime.Session.{
  return, lift, count, Session, ready, Sent, to_upstream, to_client, value, phase_eq, >>=-eq-value,
  stop_if-value, lift-value, value-injective, return-value, Phase,
}
use mcp_guard.Runtime.Turn.{
  ask, Gateway, Turn, Permit, refused, current_phase, current_id, write_message,
}
use mcp_guard.Runtime.Wire.{validate_control_message}
use mathlib.Core.Bool.{false≢true}

abbrev pub upstream : List Sent → List (List ℕ)
upstream [] = []
upstream (to_upstream line ∷ sent) = line ∷ upstream sent
upstream (to_client v ∷ sent) = upstream sent

module _ ⦃u : Unicode⦄ (g : Gateway) where
  -- The decision is allow, or it is a warning and the provider approved the call.
  pub data Cleared (s : Session) (message : Fields) (r : GatewayResult) (t : Terminal)
      : Type 0 where
    allowed : r.evaluation.decision ≡ allow → Cleared s message r t
    approved :
        (p : Provider) (a : ApprovalRequest)
        → s.provider ≡ some p
        → r.evaluation.decision ≡ warn
        → build_approval_request g.hashing message r g.upstream_fingerprint g.policy_hash
            p.timeout_seconds
          ≡ ok a
        → (authorize g.ticks_per_second p a t).0.approved ≡ true
        → Cleared s message r t

  pub data Admitted (s : Session) (message : Fields) (t : Terminal) : Type 0 where
    tool_call :
        (r : GatewayResult)
        → equals_text "tools/call" (get "method" message) ≡ true
        → s.phase ≡ ready
        → evaluate_mcp_request message g.policy ≡ ok r
        → Cleared s message r t
        → Admitted s message t
    control :
        (method : String) (notification : Bool)
        → equals_text "tools/call" (get "method" message) ≡ false
        → validate_control_message message s.phase ≡ ok (method, notification)
        → Admitted s message t

  is_warn : (d : Decision) → decision_eq d warn ≡ true → d ≡ warn
  is_warn d h = ground arith

  settle_call-value :
      (p : Provider) (r : GatewayResult) (t : Terminal) (a : Result ApprovalRequest)
      (s s' : Session)
      → settle_call g p r t a s ≡ value true s'
      → (request : ApprovalRequest) × (a ≡ ok request)
        × ((authorize g.ticks_per_second p request t).0.approved ≡ true)
  unfolding settle_call lift return
  settle_call-value p r t (err e) s s' h = absurd (ground arith)
  settle_call-value p r t (ok a) s s' h = (a, refl, unfold ask count in ground arith)

  approve_with-value :
      (o : Option Provider) (m : Fields) (r : GatewayResult) (t : Terminal) (s s' : Session)
      → o ≡ s.provider
      → approve_with g o m r t s ≡ value true s'
      → Cleared s m r t
  unfolding approve_with return
  approve_with-value none m r t s s' o h = cc
  approve_with-value (some p) m r t s s' o h =
      elim (Bool-cases (decision_eq r.evaluation.decision warn)) [
        | inl e ↦
            let (a, built, granted) = settle_call-value p r t _ s s' (rw e at h) in
            approved p a (sym o) (is_warn r.evaluation.decision e) built granted
        | inr e ↦ absurd (false≢true (value-injective (rw e at h)))
      ]

  approve_call-value :
      (m : Fields) (r : GatewayResult) (t : Terminal) (s s' : Session)
      → approve_call g m r t s ≡ value true s'
      → Cleared s m r t
  unfolding approve_call
  approve_call-value m r t s s' h = approve_with-value s.provider m r t s s' refl h

  is_ready : (phase : Phase) → not (phase_eq phase ready) ≡ false → phase ≡ ready
  is_ready phase h = ground arith

  permit_call-value :
      (r : GatewayResult) (turn : Turn) (b : Bool) (s s' : Session) (permit : Permit)
      → permit_call g r turn b s ≡ value permit s'
      → (permit ≡ refused) ⊎ ((r.evaluation.decision ≡ allow) ⊎ (b ≡ true))
  unfolding permit_call
  permit_call-value r turn b s s' permit h =
      elim (Bool-cases (not (decision_eq r.evaluation.decision allow) && not b)) [
        | inl e ↦
            let (_, s1, counted, h1) =
              >>=-eq-value (count (λ c. record c { blocked = suc c.blocked }) s) _ (rw e at h) in
            let (i, s2, read, h2) = >>=-eq-value (current_id s1) _ h1 in
            let (_, s3, written, h3) = >>=-eq-value (write_message g _ _ s2) _ h2 in
            inl (sym (return-value refused s3 h3))
        | inr e ↦ inr (ground arith)
      ]

  admit_call-value :
      (m : Fields) (turn : Turn) (s s' : Session) (permit : Permit)
      → equals_text "tools/call" (get "method" m) ≡ true
      → admit_call g m turn s ≡ value permit s'
      → (permit ≡ refused) ⊎ Admitted s m turn.call_terminal
  unfolding admit_call current_phase
  admit_call-value m turn s s' permit is_call h =
      let (has_id, h1) = stop_if-value (not (has "id" m)) _ s _ h in
      let (in_phase, h2) = stop_if-value (not (phase_eq s.phase ready)) _ s _ h1 in
      let (r, evaluated, h3) = lift-value (evaluate_mcp_request m g.policy) s _ h2 in
      let (b, t, decided, h4) = >>=-eq-value (approve_call g m r turn.call_terminal s) _ h3 in
      elim (permit_call-value r turn b t s' permit h4) [
        | inl stop ↦ inl stop
        | inr (inl yes_allow) ↦
            inr (tool_call r is_call (is_ready s.phase in_phase) evaluated (allowed yes_allow))
        | inr (inr granted) ↦ inr (
            tool_call r is_call (is_ready s.phase in_phase) evaluated
              (approve_call-value m r turn.call_terminal s t (rw granted at decided)))
      ]

  admit_control-value :
      (m : Fields) (turn : Turn) (s s' : Session) (permit : Permit)
      → equals_text "tools/call" (get "method" m) ≡ false
      → admit_control g m s ≡ value permit s'
      → Admitted s m turn.call_terminal
  unfolding admit_control current_phase
  admit_control-value m turn s s' permit not_call h =
      let (c, checked, h1) = lift-value (validate_control_message m s.phase) s _ h in
      control c.0 c.1 not_call checked

  pub admit-value :
      (m : Fields) (turn : Turn) (s s' : Session) (permit : Permit)
      → admit g m turn s ≡ value permit s'
      → (permit ≡ refused) ⊎ Admitted s m turn.call_terminal
  unfolding admit
  admit-value m turn s s' permit h = elim (Bool-cases (equals_text "tools/call" (get "method" m))) [
    | inl e ↦ admit_call-value m turn s s' permit e (rw e at h)
    | inr e ↦ inr (admit_control-value m turn s s' permit e (rw e at h))
  ]
