-- ===== src/Runtime/Lifecycle.antt =====
-- The order of the phases of a session of policylatch/runtime_gateway.py.
-- What a control message that is admitted says of the phase.
pub mod Step
use mcp_guard.Base.{
  String, ◌≡◌, ap, Bool, true, false, not, ◌&&◌, ◌||◌, arith, ◌==◌, Unicode, suc, refl, sym, ◌∙◌,
  ◌⊎◌, inl, inr, Bool-cases,
}
use mcp_guard.Evaluator.{text_of}
use mcp_guard.Json.{get, has, in_set, Fields, equals_text}
use mcp_guard.Result.{>>=-eq-ok, raise_if-eq-ok, ok-injective, ok}
use mcp_guard.Runtime.Session.{
  phase_eq, Phase, new, initialized, ready, set_phase, >>=-Keeps, return-Keeps, lift-Keeps, Session,
  Keeps, value, and_then, count, after, >>=-eq-value, stop_if-value, lift-value, Ran-cases,
  return-value,
}
use mcp_guard.Runtime.Wire.{control_params, validate_control_message}
use mcp_guard.Gateway.{RequestId, no_id, text_id, int_id, evaluate_mcp_request, GatewayResult}
use mcp_guard.Runtime.Admit.{receive, admit, approve_call, permit_call, admit_call, admit_control}
use mcp_guard.Runtime.Loop.{handle, step, finish}
use mcp_guard.Runtime.RelayRules.{Phased, relay-Keeps}
use mcp_guard.Runtime.Rules.{Stable, admit-Keeps}
use mcp_guard.Runtime.Turn.{
  set_request_id, remember, Gateway, Turn, Permit, forward_control, current_phase, current_id,
  write_message, refused, forward_call,
}
use mcp_guard.Models.{decision_eq, allow}
use mcp_guard.Runtime.LoopRules.{finish-Keeps}
use mcp_guard.Runtime.Relay.{relay}

pub record InOrder (phase : Phase) (method : String) (notification : Bool) : Type 0 where
  pub initialize : (method == "initialize") ≡ true → (phase ≡ new) × (notification ≡ false)
  pub finishes :
      (method == "notifications/initialized") ≡ true → (phase ≡ initialized) × (notification ≡ true)
  pub lists : (method == "tools/list") ≡ true → phase ≡ ready

initialize-InOrder :
    (phase : Phase) (is_it notification : Bool)
    → (is_it && (not (phase_eq phase new) || notification)) ≡ false
    → is_it ≡ true
    → (phase ≡ new) × (notification ≡ false)
initialize-InOrder phase is_it notification h e = (ground arith, ground arith)

completes-InOrder :
    (phase : Phase) (is_it notification : Bool)
    → (is_it && (not (phase_eq phase initialized) || not notification)) ≡ false
    → is_it ≡ true
    → (phase ≡ initialized) × (notification ≡ true)
completes-InOrder phase is_it notification h e = (ground arith, ground arith)

lists-InOrder :
    (phase : Phase) (is_it : Bool)
    → (is_it && not (phase_eq phase ready)) ≡ false
    → is_it ≡ true
    → phase ≡ ready
lists-InOrder phase is_it h e = ground arith

-- A control message that is valid is in the order of the lifecycle: initialize is a request in the
-- phase new, notifications/initialized a notification in the phase initialized, and tools/list
-- stands in the phase ready.
pub validate_control_message-InOrder :
    (m : Fields) (phase : Phase) (method : String) (notification : Bool)
    → validate_control_message m phase ≡ ok (method, notification)
    → InOrder phase method notification
unfolding validate_control_message
validate_control_message-InOrder m phase method notification h =
    let (version, h1) = raise_if-eq-ok _ _ _ h in
    let (known, member, h2) = >>=-eq-ok (in_set _ (get "method" m)) _ h1 in
    let (is_known, h3) = raise_if-eq-ok _ _ _ h2 in
    let (params, has_params, h4) = >>=-eq-ok (control_params m) _ h3 in
    let (first, h5) = raise_if-eq-ok _ _ _ h4 in
    let (revision, h6) = raise_if-eq-ok _ _ _ h5 in
    let (capable, h7) = raise_if-eq-ok _ _ _ h6 in
    let (client, h8) = raise_if-eq-ok _ _ _ h7 in
    let (second, h9) = raise_if-eq-ok _ _ _ h8 in
    let (third, h10) = raise_if-eq-ok _ _ _ h9 in
    let e = ok-injective h10 in
    let name : text_of "method" m ≡ method = ap (λ (p : String × Bool). p.0) e in
    let note : not (has "id" m) ≡ notification = ap (λ (p : String × Bool). p.1) e in
    let order : InOrder phase (text_of "method" m) (not (has "id" m)) = record {
      initialize = initialize-InOrder phase _ _ first;
      finishes = completes-InOrder phase _ _ second;
      lists = lists-InOrder phase _ third;
    } in
    rw (name, note) at order

-- The changes of the phase that one pass may make.
pub data Advances : Phase → Phase → Type 0 where
  stays : {p : Phase} → Advances p p
  initializes : Advances new initialized
  completes : Advances initialized ready

Past : Phase → Session → Type 0
Past p s = Advances p s.phase

Past-Stable : (p : Phase) → Stable (Past p)
unfolding Past
Past-Stable p = record { client = λ s v h. h; counted = λ s c h. h; asked = λ s q h. h }

remember-Keeps : (p : Phase) (i : RequestId) → Keeps (λ s. s.phase ≡ p) (remember i)
unfolding remember
remember-Keeps p no_id = record { at_state = λ s h. h }
remember-Keeps p (text_id x) = record { at_state = λ s h. ground (arith, h) }
remember-Keeps p (int_id n) = record { at_state = λ s h. ground (arith, h) }

set_request_id-Keeps : (p : Phase) (i : RequestId) → Keeps (λ s. s.phase ≡ p) (set_request_id i)
unfolding set_request_id
set_request_id-Keeps p i = record { at_state = λ s h. h }

-- The permit is for a control message that is in order in this phase.
Ordered : Phase → Permit → Type 0
Ordered p permit =
    (method : String) (notification : Bool)
    → permit ≡ forward_control method notification
    → InOrder p method notification

initialize-Keeps : (p : Phase) → p ≡ new → Keeps (Past p) (set_phase initialized)
unfolding Past set_phase
initialize-Keeps p e = record { at_state = λ s h. rw e initializes }

finish-Keeps_phase : (p : Phase) → p ≡ initialized → Keeps (Past p) (set_phase ready)
unfolding Past set_phase
finish-Keeps_phase p e = record { at_state = λ s h. rw e completes }

Ordered-Phased : (p : Phase) (permit : Permit) → Ordered p permit → Phased (Past p) permit
unfolding Ordered
Ordered-Phased p permit ordered = record {
  initialize = λ method b e is_it. initialize-Keeps p ((ordered method b e).initialize is_it).0;
  finish = λ method b e is_it. finish-Keeps_phase p ((ordered method b e).finishes is_it).0;
}
