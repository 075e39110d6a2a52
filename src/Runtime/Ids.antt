-- ===== src/Runtime/Ids.antt =====
-- The request ids that `run_stdio_gateway` of policylatch/runtime_gateway.py has seen, and the ids of
-- the lines that it writes to the server.
pub mod Lines
pub mod Seen
use mcp_guard.Gateway.{RequestId, no_id, text_id, int_id}
use mcp_guard.Json.{Fields}
use mcp_guard.Runtime.RelayRules.{relay-Keeps, any-Phased}
use mcp_guard.Base.{ℕ, ◌≡◌, sym, ap, ◌∙◌, inl, inr, true, false, List, [], ◌∷◌, Unicode}
use mcp_guard.Result.{ok-injective, ok}
use mcp_guard.Runtime.Admit.{receive, admit}
use mcp_guard.Runtime.Forwarding.{upstream}
use mcp_guard.Runtime.Ids.Seen.{
  has_seen-first, has_seen-∷, remember-value, remember-after, set_request_id-state, return-state,
}
use mcp_guard.Runtime.Loop.{handle, step, run_session}
use mcp_guard.Runtime.LoopRules.{finish-Keeps, run_session-Keeps}
use mcp_guard.Runtime.Relay.{relay}
use mcp_guard.Runtime.Rules.{admit-Keeps, Stable}
use mcp_guard.Runtime.Session.{
  and_then, after, >>=-eq-value, >>=-Keeps, return-Keeps, lift-Keeps, lift-value, Ran-cases,
  Session, Keeps, Ran, value, raised,
}
use mcp_guard.Runtime.Turn.{set_request_id, remember, Gateway, Turn, Permit}
use mcp_guard.Runtime.Wire.{parse_json_line, request_id_of, has_seen}
use mathlib.Core.Path.{subst}
use mathlib.Core.Bool.{false≢true}
use mcp_guard.Runtime.Ids.Lines.{OnceEach, Covered-∷, new-Once, null-Once, Once}
use mcp_guard.Journal.File.Growing.{line}

module _ ⦃u : Unicode⦄ (g : Gateway) where
  abbrev Kept : Session → Type 0
  Kept s = Once g s.seen_ids (upstream s.sent)

  Kept-Stable : Stable Kept
  Kept-Stable = record {
    client = λ s v p. record { each = p.each; covered = p.covered };
    counted = λ s c p. p;
    asked = λ s q p. p;
  }

  -- What the state is like once the pass has read its message.
  record Ready (wire : List ℕ) (s : Session) : Type 0 where
    kept : Kept s
    next : Once g s.seen_ids (wire ∷ upstream s.sent)

  Ready-Stable : (wire : List ℕ) → Stable (Ready wire)
  Ready-Stable wire = record {
    client = λ s v p. record { kept = Kept-Stable.client s v p.kept; next = p.next };
    counted = λ s c p. record { kept = p.kept; next = p.next };
    asked = λ s q p. record { kept = p.kept; next = p.next };
  }

  remember-Ready :
      (wire : List ℕ) (m : Fields) (i : RequestId) (s t : Session)
      → parse_json_line g.codec wire "Client request" ≡ ok m
      → request_id_of m ≡ ok i
      → Kept s
      → remember i s ≡ value tt t
      → Ready wire t
  remember-Ready wire m i s t parsed found before h = elim (remember-value i s t h) [
    | inl (is_null, e) ↦ subst (Ready wire) (sym e) (record {
      kept = before;
      next = null-Once g wire m s.seen_ids _ parsed (found ∙ ap ok is_null) before;
    })
    | inr (unseen, e) ↦ subst (Ready wire) (sym e) (record {
      kept = record { each = before.each; covered = Covered-∷ g i s.seen_ids _ before.covered };
      next = new-Once g wire m i s.seen_ids _ parsed found unseen before;
    })
  ]

  receive-Ready :
      (turn : Turn) (s t : Session) (m : Fields)
      → Kept s
      → receive g turn s ≡ value m t
      → Ready turn.line t
  unfolding receive
  receive-Ready turn s t m before h =
      let (message, parsed, h1) =
        lift-value (parse_json_line g.codec turn.line "Client request") s _ h in
      let (i, found, h2) = lift-value (request_id_of message) s _ h1 in
      let (_, s1, marked, h3) = >>=-eq-value (set_request_id i s) _ h2 in
      let (_, s2, added, h4) = >>=-eq-value (remember i s1) _ h3 in
      subst (Ready turn.line) (return-state message s2 h4) (
        remember-Ready turn.line message i s1 s2 parsed found
          (subst Kept (set_request_id-state i s s1 marked) before) added)

  remember-Keeps : (i : RequestId) → Keeps Kept (remember i)
  remember-Keeps i = record {
    at_state = λ s h. elim (remember-after i s) [
      | inl e ↦ subst Kept (sym e) h
      | inr e ↦
          subst Kept (sym e)
            (record { each = h.each; covered = Covered-∷ g i s.seen_ids _ h.covered })
    ];
  }

  set_request_id-Keeps : (i : RequestId) → Keeps Kept (set_request_id i)
  unfolding set_request_id
  set_request_id-Keeps i = record { at_state = λ s h. h }

  receive-Keeps : (turn : Turn) → Keeps Kept (receive g turn)
  unfolding receive
  receive-Keeps turn = >>=-Keeps (lift-Keeps _) (λ m. >>=-Keeps (lift-Keeps _) (λ i.
      >>=-Keeps (set_request_id-Keeps i) (λ _. >>=-Keeps (remember-Keeps i) (λ _. return-Keeps m))))

  Ready-Kept :
      (turn : Turn) (m : Fields) (r : Ran Permit)
      → Ready turn.line (after r)
      → Kept (after (and_then r (relay g m turn)))
  Ready-Kept turn m (value permit t) h =
      relay-Keeps Kept-Stable g m turn permit t (any-Phased permit (λ s phase p. p)) (λ e. h.kept)
        (record { each = h.next.each; covered = h.next.covered })
  Ready-Kept turn m (raised e t) h = h.kept

  handle-Kept : (turn : Turn) (s : Session) → Kept s → Kept (after (handle g turn s))
  unfolding handle
  handle-Kept turn s h = elim (Ran-cases (receive g turn s)) [
    | inl (m, t, e) ↦ rw e (
        Ready-Kept turn m (admit g m turn t) (
          (admit-Keeps (Ready-Stable turn.line) g m turn).at_state t
            (receive-Ready turn s t m h e)))
    | inr (error, t, e) ↦ rw e (rw e at ((receive-Keeps turn).at_state s h))
  ]

  step-Kept : (turn : Turn) (s : Session) → Kept s → Kept (step g turn s).1
  unfolding step
  step-Kept turn s h =
      let start = record s { request_id = no_id } in
      finish-Keeps Kept-Stable g turn (handle g turn start)
        (handle-Kept turn start (record { each = h.each; covered = h.covered }))

  -- In a session that has written nothing to the server at its start, no two lines that it writes
  -- to the server carry the same request id (ids that are null or missing left aside), whatever the
  -- client, the server and the terminal do.
  pub run_session-OnceEach :
      (n : ℕ) (turns : List Turn) (s : Session)
      → upstream s.sent ≡ []
      → OnceEach g (upstream (run_session g n turns s).1.sent)
  run_session-OnceEach n turns s h =
      (run_session-Keeps Kept g step-Kept n turns s
        (subst (Once g s.seen_ids) (sym h) (record { each = tt; covered = tt }))).each
