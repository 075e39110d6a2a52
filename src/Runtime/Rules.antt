-- ===== src/Runtime/Rules.antt =====
-- Predicates on the state that the parts of `run_stdio_gateway` in policylatch/runtime_gateway.py keep.
-- The predicate does not depend on the counters, the provider or what the client was sent.
use mcp_guard.Approval.Provider.{Provider, Terminal}
use mcp_guard.Approval.Request.{non_approvable, ApprovalRequest}
use mcp_guard.Base.{ℕ, Bool, not, ◌&&◌, Option, none, some, List, ◌∷◌, any, Unicode}
use mcp_guard.Gateway.{GatewayResult}
use mcp_guard.Json.{get, equals_text, Value, Fields}
use mcp_guard.Models.{decision_eq, allow, warn}
use mcp_guard.Result.{Result, ok, err, is_input_error}
use mcp_guard.Runtime.Admit.{
  settle_call, approve_with, approve_call, permit_call, admit_call, admit_control, admit,
}
use mcp_guard.Runtime.Session.{
  send, count, >>=-Keeps, return-Keeps, lift-Keeps, stop_if-Keeps, if-Keeps, Summary, Session,
  Keeps, to_client,
}
use mcp_guard.Runtime.Turn.{
  write_encoded, write_message, ask, Gateway, Turn, current_phase, current_id, count_approval,
}

pub record Stable (P : Session → Type 0) : Type 0 where
  pub client : (s : Session) (v : Value) → P s → P (record s { sent = to_client v ∷ s.sent })
  pub counted : (s : Session) (c : Summary) → P s → P (record s { summary = c })
  pub asked : (s : Session) (p : Provider) → P s → P (record s { provider = some p })

module _ {P : Session → Type 0} where
  pub current_phase-Keeps : Keeps P current_phase
  unfolding current_phase
  current_phase-Keeps = record { at_state = λ s p. p }

  pub current_id-Keeps : Keeps P current_id
  unfolding current_id
  current_id-Keeps = record { at_state = λ s p. p }

module _ {P : Session → Type 0} (st : Stable P) where
  pub count-Keeps : (f : Summary → Summary) → Keeps P (count f)
  unfolding count
  count-Keeps f = record { at_state = λ s p. st.counted s (f s.summary) p }

  send-Keeps : (v : Value) → Keeps P (send (to_client v))
  unfolding send
  send-Keeps v = record { at_state = λ s p. st.client s v p }

  module _ ⦃u : Unicode⦄ (g : Gateway) where
    write_encoded-Keeps :
        (v : Value) (writable : Bool) (o : Option (List ℕ)) → Keeps P (write_encoded g v writable o)
    unfolding write_encoded
    write_encoded-Keeps v writable none = (lift-Keeps _)
    write_encoded-Keeps v writable (some bytes) =
        >>=-Keeps (stop_if-Keeps _ _) (λ _. >>=-Keeps (send-Keeps v) (λ _. (stop_if-Keeps _ _)))

    pub write_message-Keeps : (v : Value) (writable : Bool) → Keeps P (write_message g v writable)
    unfolding write_message
    write_message-Keeps v writable = write_encoded-Keeps v writable (g.codec.encode v)

    pub ask-Keeps : (p : Provider) (a : ApprovalRequest) (t : Terminal) → Keeps P (ask g p a t)
    unfolding ask
    ask-Keeps p a t = record { at_state = λ s h. st.asked s _ h }

    settle_call-Keeps :
        (p : Provider) (r : GatewayResult) (t : Terminal) (a : Result ApprovalRequest)
        → Keeps P (settle_call g p r t a)
    unfolding settle_call
    settle_call-Keeps p r t (err e) =
        if-Keeps (is_input_error e)
          (if-Keeps (any non_approvable r.evaluation.reasons) (return-Keeps _) (lift-Keeps _))
          (lift-Keeps _)
    settle_call-Keeps p r t (ok a) =
        >>=-Keeps (ask-Keeps p a t)
          (λ d. >>=-Keeps (count-Keeps (count_approval d)) (λ _. return-Keeps d.approved))

    approve_with-Keeps :
        (o : Option Provider) (m : Fields) (r : GatewayResult) (t : Terminal)
        → Keeps P (approve_with g o m r t)
    unfolding approve_with
    approve_with-Keeps none m r t = return-Keeps _
    approve_with-Keeps (some p) m r t =
        if-Keeps (decision_eq r.evaluation.decision warn) (settle_call-Keeps p r t _)
          (return-Keeps _)

    approve_call-Keeps :
        (m : Fields) (r : GatewayResult) (t : Terminal) → Keeps P (approve_call g m r t)
    unfolding approve_call
    approve_call-Keeps m r t = record {
      at_state = λ s h. (approve_with-Keeps s.provider m r t).at_state s h;
    }

    permit_call-Keeps :
        (r : GatewayResult) (turn : Turn) (b : Bool) → Keeps P (permit_call g r turn b)
    unfolding permit_call
    permit_call-Keeps r turn b =
        if-Keeps (not (decision_eq r.evaluation.decision allow) && not b)
          (>>=-Keeps (count-Keeps _) (λ _.
            >>=-Keeps current_id-Keeps
              (λ i. >>=-Keeps (write_message-Keeps _ _) (λ _. return-Keeps _))))
          (return-Keeps _)

    admit_call-Keeps : (m : Fields) (turn : Turn) → Keeps P (admit_call g m turn)
    unfolding admit_call
    admit_call-Keeps m turn = >>=-Keeps (stop_if-Keeps _ _) (λ _.
        >>=-Keeps current_phase-Keeps (λ phase. >>=-Keeps (stop_if-Keeps _ _) (λ _.
          >>=-Keeps (lift-Keeps _) (λ r.
            >>=-Keeps (approve_call-Keeps m r turn.call_terminal)
              (λ b. permit_call-Keeps r turn b)))))

    admit_control-Keeps : (m : Fields) → Keeps P (admit_control g m)
    unfolding admit_control
    admit_control-Keeps m =
        >>=-Keeps current_phase-Keeps
          (λ phase. >>=-Keeps (lift-Keeps _) (λ c. >>=-Keeps (count-Keeps _) (λ _. return-Keeps _)))

    pub admit-Keeps : (m : Fields) (turn : Turn) → Keeps P (admit g m turn)
    unfolding admit
    admit-Keeps m turn =
        if-Keeps (equals_text "tools/call" (get "method" m)) (admit_call-Keeps m turn)
          (admit_control-Keeps m)
