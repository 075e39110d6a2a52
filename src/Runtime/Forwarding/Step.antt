-- ===== src/Runtime/Forwarding/Step.antt =====
-- What one pass of the loop of policylatch/runtime_gateway.py writes to the server.
-- What `receive` leaves as it was.
use mcp_guard.Approval.Provider.{Terminal}
use mcp_guard.Base.{ℕ, ◌≡◌, sym, ap, ◌∙◌, ◌⊎◌, inl, List, ◌∷◌, Unicode, refl, inr, arith}
use mcp_guard.Gateway.{RequestId, no_id, text_id, int_id}
use mcp_guard.Json.{Fields}
use mcp_guard.Result.{ok}
use mcp_guard.Runtime.Admit.{receive, admit}
use mcp_guard.Runtime.Forwarding.{
  upstream, allowed, approved, tool_call, control, Admitted, admit-value,
}
use mcp_guard.Runtime.Relay.{relay}
use mcp_guard.Runtime.RelayRules.{relay-Keeps, any-Phased}
use mcp_guard.Runtime.Session.{
  return, after, >>=-eq-value, >>=-Keeps, return-Keeps, lift-Keeps, lift-value, return-value,
  Session, Keeps, value, and_then, Ran-cases,
}
use mcp_guard.Runtime.Turn.{
  set_request_id, remember, Gateway, Turn, Permit, refused, forward_call, forward_control,
}
use mcp_guard.Runtime.Wire.{parse_json_line, request_id_of}
use mcp_guard.Runtime.Loop.{handle, step}
use mcp_guard.Runtime.Rules.{admit-Keeps, Stable}
use mcp_guard.Runtime.LoopRules.{finish-Keeps}

pub record Same (s t : Session) : Type 0 where
  pub phase : t.phase ≡ s.phase
  pub provider : t.provider ≡ s.provider
  pub sent : t.sent ≡ s.sent

remember-Keeps : (s : Session) (i : RequestId) → Keeps (Same s) (remember i)
unfolding remember
remember-Keeps s no_id = record { at_state = λ t h. h }
remember-Keeps s (text_id x) = record {
  at_state = λ t h. record {
    phase = ground (arith, h.phase);
    provider = ground (arith, h.provider);
    sent = ground (arith, h.sent);
  };
}
remember-Keeps s (int_id n) = record {
  at_state = λ t h. record {
    phase = ground (arith, h.phase);
    provider = ground (arith, h.provider);
    sent = ground (arith, h.sent);
  };
}

set_request_id-Keeps : (s : Session) (i : RequestId) → Keeps (Same s) (set_request_id i)
unfolding set_request_id
set_request_id-Keeps s i = record {
  at_state = λ t h. record { phase = h.phase; provider = h.provider; sent = h.sent };
}

abbrev Unsent : List (List ℕ) → Session → Type 0
Unsent lines s = upstream s.sent ≡ lines

Unsent-Stable : (lines : List (List ℕ)) → Stable (Unsent lines)
Unsent-Stable lines = record { client = λ s v p. p; counted = λ s c p. p; asked = λ s q p. p }

module _ ⦃u : Unicode⦄ (g : Gateway) (turn : Turn) where
  receive-Keeps : (s : Session) → Keeps (Same s) (receive g turn)
  unfolding receive
  receive-Keeps s = >>=-Keeps (lift-Keeps _) (λ m. >>=-Keeps (lift-Keeps _) (λ i.
      >>=-Keeps (set_request_id-Keeps s i)
        (λ _. >>=-Keeps (remember-Keeps s i) (λ _. return-Keeps m))))

  receive-value :
      (s t : Session) (m : Fields)
      → receive g turn s ≡ value m t
      → parse_json_line g.codec turn.line "Client request" ≡ ok m
  unfolding receive
  receive-value s t m h =
      let (message, parsed, h1) =
        lift-value (parse_json_line g.codec turn.line "Client request") s _ h in
      let (i, found, h2) = lift-value (request_id_of message) s _ h1 in
      let (_, s1, marked, h3) = >>=-eq-value (set_request_id i s) _ h2 in
      let (_, s2, added, h4) = >>=-eq-value (remember i s1) _ h3 in
      parsed ∙ ap ok (return-value message s2 h4)

  Admitted-Same :
      (s t : Session) (m : Fields) (x : Terminal) → Same s t → Admitted g t m x → Admitted g s m x
  Admitted-Same s t m x same (tool_call r is_call phase evaluated (allowed d)) =
      tool_call r is_call (sym same.phase ∙ phase) evaluated (allowed d)
  Admitted-Same s t m x same
        (tool_call r is_call phase evaluated (approved p a has_p warned built granted)) =
      tool_call r is_call (sym same.phase ∙ phase) evaluated
        (approved p a (sym same.provider ∙ has_p) warned built granted)
  Admitted-Same s t m x same (control method notification not_call checked) =
      control method notification not_call (rw same.phase at checked)

  -- The line is a message that the gateway admits in this state.
  pub record Forwards (s : Session) : Type 0 where
    pub message : Fields
    pub parsed : parse_json_line g.codec turn.line "Client request" ≡ ok message
    pub admitted : Admitted g s message turn.call_terminal

  -- The request id does not matter.
  from_start :
      (s : Session) (m : Fields)
      → Admitted g (record s { request_id = no_id }) m turn.call_terminal
      → Admitted g s m turn.call_terminal
  from_start s m a =
      Admitted-Same s (record s { request_id = no_id }) m _
        (record { phase = refl; provider = refl; sent = refl }) a

  abbrev Writes : Session → Session → Type 0
  Writes s t =
      (upstream t.sent ≡ upstream s.sent)
      ⊎ ((upstream t.sent ≡ turn.line ∷ upstream s.sent) × Forwards s)

  relay-written :
      (s t : Session) (m : Fields) (permit : Permit)
      → Unsent (upstream s.sent) t
      → ¬ (permit ≡ refused)
      → Unsent (turn.line ∷ upstream s.sent) (after (relay g m turn permit t))
  relay-written s t m permit same going =
      relay-Keeps (Unsent-Stable (turn.line ∷ upstream s.sent)) g m turn permit t
        (any-Phased permit (λ s phase p. p)) (λ e. absurd (going e))
        (ap (λ lines. turn.line ∷ lines) same)

  relay-Writes :
      (s t : Session) (m : Fields) (permit : Permit)
      → Unsent (upstream s.sent) t
      → (permit ≡ refused) ⊎ Forwards s
      → Writes s (after (relay g m turn permit t))
  unfolding relay return
  relay-Writes s t m refused same f = inl same
  relay-Writes s t m forward_call same (inl e) = cc
  relay-Writes s t m forward_call same (inr f) =
      inr (relay-written s t m forward_call same (λ e. cc), f)
  relay-Writes s t m (forward_control method b) same (inl e) = cc
  relay-Writes s t m (forward_control method b) same (inr f) =
      inr (relay-written s t m (forward_control method b) same (λ e. cc), f)

  admit-Writes :
      (s t : Session) (m : Fields)
      → Same s t
      → parse_json_line g.codec turn.line "Client request" ≡ ok m
      → Writes s (after (and_then (admit g m turn t) (relay g m turn)))
  admit-Writes s t m same parsed =
      let kept =
        (admit-Keeps (Unsent-Stable (upstream s.sent)) g m turn).at_state t
          (ap upstream same.sent) in
      elim (Ran-cases (admit g m turn t)) [
        | inl (permit, t', e) ↦ rw e (
            relay-Writes s t' m permit (rw e at kept) (elim (admit-value g m turn t t' permit e) [
              | inl stop ↦ inl stop
              | inr a ↦
                  inr (record {
                    message = m;
                    parsed = parsed;
                    admitted = Admitted-Same s t m _ same a;
                  })
            ]))
        | inr (error, t', e) ↦ rw e (inl (rw e at kept))
      ]

  handle-Writes : (s : Session) → Writes s (after (handle g turn s))
  unfolding handle
  handle-Writes s =
      let kept =
        (receive-Keeps s).at_state s (record { phase = refl; provider = refl; sent = refl }) in
      elim (Ran-cases (receive g turn s)) [
        | inl (m, t, e) ↦ rw e (admit-Writes s t m (rw e at kept) (receive-value s t m e))
        | inr (error, t, e) ↦ rw e (inl (ap upstream (Same.sent (rw e at kept))))
      ]

  -- One pass writes nothing to the server, or it writes the line of the client, and then the line is
  -- a message that the gateway admits in this state: a tool call after the initialize lifecycle that
  -- the policy allows, or that it warns of and the provider approved; or a valid control message.
  pub step-Forwards :
      (s : Session)
      → (upstream (step g turn s).1.sent ≡ upstream s.sent)
        ⊎ ((upstream (step g turn s).1.sent ≡ turn.line ∷ upstream s.sent) × Forwards s)
  unfolding step
  step-Forwards s =
      let start = record s { request_id = no_id } in
      elim (handle-Writes start) [
        | inl none_sent ↦
            inl (
              finish-Keeps (Unsent-Stable (upstream s.sent)) g turn (handle g turn start) none_sent)
        | inr (written, f) ↦ inr (
          finish-Keeps (Unsent-Stable (turn.line ∷ upstream s.sent)) g turn (handle g turn start)
              written,
          record {
            message = f.message;
            parsed = f.parsed;
            admitted = from_start s f.message f.admitted;
          },
        )
      ]
