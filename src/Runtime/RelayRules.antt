-- ===== src/Runtime/RelayRules.antt =====
-- What the parts of `run_stdio_gateway` in policylatch/runtime_gateway.py after the write to the server
-- keep: predicates that do not depend on the phase either.
use mcp_guard.Runtime.Session.{
  ◌>>=◌, return, send, set_phase, after, >>=-Keeps, return-Keeps, lift-Keeps, stop_if-Keeps,
  if-Keeps, Session, Keeps, Phase, initialized, ready, to_upstream, when-Keeps,
}
use mcp_guard.Approval.Provider.{Provider, Terminal}
use mcp_guard.Approval.Request.{
  ApprovalRequest, ScanReport, Outcome, clean, review, block_next_step,
}
use mcp_guard.Base.{String, ◌≡◌, refl, Bool, true, false, Option, none, some, ◌∷◌, ◌==◌, Unicode}
use mcp_guard.Json.{Fields}
use mcp_guard.Result.{Result, ok, err, is_input_error}
use mcp_guard.Runtime.Relay.{
  forward_rest, forward, await_response, settle_result, approve_result_with, approve_result,
  withhold, screen_outcome, screen, answer_call, answer_control, relay,
}
use mcp_guard.Runtime.Rules.{current_id-Keeps, count-Keeps, write_message-Keeps, ask-Keeps, Stable}
use mcp_guard.Runtime.Turn.{
  count_outcome, Gateway, Turn, Permit, refused, forward_call, forward_control,
}

-- The predicate holds after the changes of the phase that the message may make.
pub record Phased (P : Session → Type 0) (permit : Permit) : Type 0 where
  pub initialize :
      (method : String) (notification : Bool)
      → permit ≡ forward_control method notification
      → (method == "initialize") ≡ true
      → Keeps P (set_phase initialized)
  pub finish :
      (method : String) (notification : Bool)
      → permit ≡ forward_control method notification
      → (method == "notifications/initialized") ≡ true
      → Keeps P (set_phase ready)

pub any-Phased :
    {P : Session → Type 0} (permit : Permit)
    → ((s : Session) (phase : Phase) → P s → P (record s { phase = phase }))
    → Phased P permit
unfolding set_phase
any-Phased permit h = record {
  initialize = λ _ _ _ _. record { at_state = λ s p. h s initialized p };
  finish = λ _ _ _ _. record { at_state = λ s p. h s ready p };
}

module _ {P : Session → Type 0} (st : Stable P) where
  module _ ⦃u : Unicode⦄ (g : Gateway) where
    await_response-Keeps : (turn : Turn) → Keeps P (await_response g turn)
    unfolding await_response
    await_response-Keeps turn = >>=-Keeps current_id-Keeps (λ i. lift-Keeps _)

    settle_result-Keeps :
        (p : Provider) (t : Terminal) (a : Result ApprovalRequest) → Keeps P (settle_result g p t a)
    unfolding settle_result
    settle_result-Keeps p t (err e) = if-Keeps (is_input_error e) (lift-Keeps _) (lift-Keeps _)
    settle_result-Keeps p t (ok a) = >>=-Keeps (ask-Keeps st g p a t) (λ d. return-Keeps d.approved)

    approve_result_with-Keeps :
        (o : Option Provider) (m : Fields) (r : ScanReport) (t : Terminal)
        → Keeps P (approve_result_with g o m r t)
    unfolding approve_result_with
    approve_result_with-Keeps none m r t = return-Keeps _
    approve_result_with-Keeps (some p) m r t = settle_result-Keeps p t _

    approve_result-Keeps :
        (m : Fields) (r : ScanReport) (t : Terminal) → Keeps P (approve_result g m r t)
    unfolding approve_result
    approve_result-Keeps m r t = record {
      at_state = λ s h. (approve_result_with-Keeps s.provider m r t).at_state s h;
    }

    withhold-Keeps : (r : ScanReport) (turn : Turn) (b : Bool) → Keeps P (withhold g r turn b)
    unfolding withhold
    withhold-Keeps r turn true = >>=-Keeps (count-Keeps st _) (λ _. return-Keeps _)
    withhold-Keeps r turn false =
        >>=-Keeps current_id-Keeps
          (λ i. >>=-Keeps (write_message-Keeps st g _ _) (λ _. return-Keeps _))

    review_response-Keeps :
        (m : Fields) (r : ScanReport) (turn : Turn)
        → Keeps P (approve_result g m r turn.result_terminal >>= withhold g r turn)
    review_response-Keeps m r turn =
        >>=-Keeps (approve_result-Keeps m r turn.result_terminal) (withhold-Keeps r turn)

    screen_outcome-Keeps :
        (m : Fields) (r : ScanReport) (turn : Turn) (o : Outcome)
        → Keeps P (screen_outcome g m r turn o)
    unfolding screen_outcome
    screen_outcome-Keeps m r turn clean = return-Keeps _
    screen_outcome-Keeps m r turn review = review_response-Keeps m r turn
    screen_outcome-Keeps m r turn block_next_step = review_response-Keeps m r turn

    screen-Keeps : (m response : Fields) (turn : Turn) → Keeps P (screen g m response turn)
    unfolding screen
    screen-Keeps m response turn = >>=-Keeps (lift-Keeps _) (λ r.
        >>=-Keeps (count-Keeps st (count_outcome r.outcome))
          (λ _. screen_outcome-Keeps m r turn r.outcome))

    answer_call-Keeps : (m : Fields) (turn : Turn) → Keeps P (answer_call g m turn)
    unfolding answer_call
    answer_call-Keeps m turn = >>=-Keeps (await_response-Keeps turn) (λ response.
        >>=-Keeps (screen-Keeps m response turn)
          (λ released. if-Keeps released (write_message-Keeps st g _ _) (return-Keeps _)))

    answer_control-Keeps :
        (method : String) (turn : Turn)
        → ((method == "initialize") ≡ true → Keeps P (set_phase initialized))
        → Keeps P (answer_control g method turn)
    unfolding answer_control
    answer_control-Keeps method turn ph = >>=-Keeps (await_response-Keeps turn) (λ response.
        >>=-Keeps (lift-Keeps _) (λ _.
          >>=-Keeps (write_message-Keeps st g _ _)
            (λ _. when-Keeps (method == "initialize") ph (return-Keeps _))))

    -- The rest of `forward`, after the write has started.
    forward-Keeps : (turn : Turn) → Keeps P (forward_rest g turn)
    unfolding forward_rest
    forward-Keeps turn = >>=-Keeps (stop_if-Keeps _ _) (λ _. count-Keeps st _)

    abbrev started : Turn → Session → Session
    started turn s = record s { sent = to_upstream turn.line ∷ s.sent }

    -- If a message is relayed, the rest keeps what holds once the write has started.
    pub relay-Keeps :
        (m : Fields) (turn : Turn) (permit : Permit) (s : Session)
        → Phased P permit
        → (permit ≡ refused → P s)
        → P (started turn s)
        → P (after (relay g m turn permit s))
    unfolding relay forward send return
    relay-Keeps m turn refused s ph h k = h refl
    relay-Keeps m turn forward_call s ph h k =
        (>>=-Keeps (forward-Keeps turn) (λ _. answer_call-Keeps m turn)).at_state (started turn s) k
    relay-Keeps m turn (forward_control method true) s ph h k =
        (>>=-Keeps (forward-Keeps turn) (λ _.
            when-Keeps (method == "notifications/initialized") (ph.finish method true refl)
              (return-Keeps tt))).at_state
          (started turn s) k
    relay-Keeps m turn (forward_control method false) s ph h k =
        (>>=-Keeps (forward-Keeps turn)
            (λ _. answer_control-Keeps method turn (ph.initialize method false refl))).at_state
          (started turn s) k
