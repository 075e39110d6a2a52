-- ===== src/Runtime/Lifecycle/Step.antt =====
-- The change of the phase in one pass of the loop of policylatch/runtime_gateway.py.
use mcp_guard.Base.{
  String, ◌≡◌, Bool, not, ◌&&◌, Unicode, suc, refl, sym, ◌∙◌, ◌⊎◌, inl, inr, Bool-cases,
}
use mcp_guard.Json.{get, has, Fields, equals_text}
use mcp_guard.Result.{ok}
use mcp_guard.Runtime.Session.{
  phase_eq, Phase, ready, >>=-Keeps, return-Keeps, lift-Keeps, Session, Keeps, value, and_then,
  count, after, >>=-eq-value, stop_if-value, lift-value, Ran-cases, return-value,
}
use mcp_guard.Runtime.Wire.{validate_control_message}
use mcp_guard.Gateway.{no_id, evaluate_mcp_request, GatewayResult}
use mcp_guard.Runtime.Admit.{receive, admit, approve_call, permit_call, admit_call, admit_control}
use mcp_guard.Runtime.Loop.{handle, step}
use mcp_guard.Runtime.RelayRules.{relay-Keeps}
use mcp_guard.Runtime.Rules.{Stable, admit-Keeps}
use mcp_guard.Runtime.Turn.{
  Gateway, Turn, Permit, forward_control, current_phase, current_id, write_message, refused,
  forward_call,
}
use mcp_guard.Models.{decision_eq, allow}
use mcp_guard.Runtime.LoopRules.{finish-Keeps}
use mcp_guard.Runtime.Relay.{relay}
use mcp_guard.Runtime.Lifecycle.{
  validate_control_message-InOrder, stays, Past, Past-Stable, remember-Keeps, set_request_id-Keeps,
  Ordered, Ordered-Phased, Advances,
}

module _ ⦃u : Unicode⦄ (g : Gateway) (turn : Turn) where
  receive-Keeps : (p : Phase) → Keeps (λ s. s.phase ≡ p) (receive g turn)
  unfolding receive
  receive-Keeps p = >>=-Keeps (lift-Keeps _) (λ m. >>=-Keeps (lift-Keeps _) (λ i.
      >>=-Keeps (set_request_id-Keeps p i)
        (λ _. >>=-Keeps (remember-Keeps p i) (λ _. return-Keeps m))))

  same-Stable : (p : Phase) → Stable (λ s. s.phase ≡ p)
  same-Stable p = record { client = λ s v h. h; counted = λ s c h. h; asked = λ s q h. h }

  permit_call-permit :
      (r : GatewayResult) (b : Bool) (s t : Session) (permit : Permit)
      → permit_call g r turn b s ≡ value permit t
      → (permit ≡ refused) ⊎ (permit ≡ forward_call)
  unfolding permit_call
  permit_call-permit r b s t permit h =
      elim (Bool-cases (not (decision_eq r.evaluation.decision allow) && not b)) [
        | inl e ↦
            let (_, s1, counted, h1) =
              >>=-eq-value (count (λ c. record c { blocked = suc c.blocked }) s) _ (rw e at h) in
            let (i, s2, read, h2) = >>=-eq-value (current_id s1) _ h1 in
            let (_, s3, written, h3) = >>=-eq-value (write_message g _ _ s2) _ h2 in
            inl (sym (return-value refused s3 h3))
        | inr e ↦ inr (sym (return-value forward_call s (rw e at h)))
      ]

  admit_call-permit :
      (m : Fields) (s t : Session) (permit : Permit)
      → admit_call g m turn s ≡ value permit t
      → (permit ≡ refused) ⊎ (permit ≡ forward_call)
  unfolding admit_call current_phase
  admit_call-permit m s t permit h =
      let (has_id, h1) = stop_if-value (not (has "id" m)) _ s _ h in
      let (in_phase, h2) = stop_if-value (not (phase_eq s.phase ready)) _ s _ h1 in
      let (r, evaluated, h3) = lift-value (evaluate_mcp_request m g.policy) s _ h2 in
      let (b, s', decided, h4) = >>=-eq-value (approve_call g m r turn.call_terminal s) _ h3 in
      permit_call-permit r b s' t permit h4

  admit_control-permit :
      (m : Fields) (s t : Session) (permit : Permit)
      → admit_control g m s ≡ value permit t
      → (c : String × Bool) × (validate_control_message m s.phase ≡ ok c)
        × (forward_control c.0 c.1 ≡ permit)
  unfolding admit_control current_phase
  admit_control-permit m s t permit h =
      let (c, checked, h1) = lift-value (validate_control_message m s.phase) s _ h in
      let (_, s1, counted, h2) =
        >>=-eq-value (count (λ n. record n { control_messages = suc n.control_messages }) s) _ h1 in
      (c, checked, return-value _ s1 h2)

  control-injective :
      (a b : String) (x y : Bool) → forward_control a x ≡ forward_control b y → (a ≡ b) × (x ≡ y)
  control-injective a b x y h = (cc, cc)

  not_control :
      (permit : Permit) (method : String) (b : Bool)
      → (permit ≡ refused) ⊎ (permit ≡ forward_call)
      → ¬ (permit ≡ forward_control method b)
  not_control permit method b (inl e) = λ h. cc
  not_control permit method b (inr e) = λ h. cc

  admit-Ordered :
      (m : Fields) (s t : Session) (permit : Permit)
      → admit g m turn s ≡ value permit t
      → Ordered s.phase permit
  unfolding admit Ordered
  admit-Ordered m s t permit h method b e =
      elim (Bool-cases (equals_text "tools/call" (get "method" m))) [
        | inl call ↦
            absurd (not_control permit method b (admit_call-permit m s t permit (rw call at h)) e)
        | inr not_call ↦
            let (c, checked, made) = admit_control-permit m s t permit (rw not_call at h) in
            let (name, note) = control-injective c.0 method c.1 b (made ∙ e) in
            rw (name, note) at (validate_control_message-InOrder m s.phase c.0 c.1 checked)
      ]

  relay-Past :
      (s t : Session) (m : Fields) (permit : Permit)
      → t.phase ≡ s.phase
      → Ordered s.phase permit
      → Past s.phase (after (relay g m turn permit t))
  relay-Past s t m permit same ordered =
      let past : Past s.phase t = unfold Past in rw same stays in
      relay-Keeps (Past-Stable s.phase) g m turn permit t (Ordered-Phased s.phase permit ordered)
        (λ e. past) (unfold Past in rw same stays)

  admit-Past :
      (s t : Session) (m : Fields)
      → t.phase ≡ s.phase
      → Past s.phase (after (and_then (admit g m turn t) (relay g m turn)))
  admit-Past s t m same =
      let kept = (admit-Keeps (same-Stable s.phase) g m turn).at_state t same in
      elim (Ran-cases (admit g m turn t)) [
        | inl (permit, t', e) ↦
            rw e
              (relay-Past s t' m permit (rw e at kept) (rw same at (admit-Ordered m t t' permit e)))
        | inr (error, t', e) ↦ rw e (unfold Past in rw (rw e at kept) stays)
      ]

  handle-Past : (s : Session) → Past s.phase (after (handle g turn s))
  unfolding handle
  handle-Past s =
      let kept = (receive-Keeps s.phase).at_state s refl in
      elim (Ran-cases (receive g turn s)) [
        | inl (m, t, e) ↦ rw e (admit-Past s t m (rw e at kept))
        | inr (error, t, e) ↦ rw e (unfold Past in rw (rw e at kept) stays)
      ]

  -- One pass leaves the phase as it is, or it goes from new to initialized, or from initialized to ready.
  pub step-Advances : (s : Session) → Advances s.phase (step g turn s).1.phase
  unfolding step Past
  step-Advances s =
      finish-Keeps (Past-Stable s.phase) g turn (handle g turn (record s { request_id = no_id }))
        (handle-Past (record s { request_id = no_id }))
