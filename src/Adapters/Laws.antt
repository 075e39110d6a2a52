-- ===== src/Adapters/Laws.antt =====
-- What the answer of a hook depends on, for policylatch/adapters.py.
use mcp_guard.Adapters.{
  runtime_name, known_fields, mark_unclassified, hook_arguments, hook_request, hook_tool_name,
  hook_tool_input, normalize_hook_event, permission_of, RuntimeName, runtime_text, mode_of,
  hook_response, adapter_decision, permission, AdapterDecision, claude_code, codex, blocking,
  with_file_path,
}
use mcp_guard.Base.{
  String, ◌≡◌, refl, sym, ap, inl, inr, Bool, true, false, Option, none, some, arith, Bool-cases,
  all, ◌<>◌, ◌==◌, contains, List, Unicode, ◌∙◌, [], ◌∷◌, All,
}
use mcp_guard.Gateway.{
  object_field, call_arguments, parse_mcp_tool_call, recognized_argument_keys, McpToolCall,
  gateway_result, evaluate_mcp_request, has_unclassified_arguments, GatewayResult,
  capability_actions, all_action_reasons, CapabilityAction,
}
use mcp_guard.Gateway.Parsing.{parse_mcp_tool_call-IsParsed}
use mcp_guard.Json.{
  get, has, field_names, only_fields, equals_text, nonblank_text, append_field, Fields, field, end,
  Value, obj, str, bool,
}
use mcp_guard.Models.{Decision, allow, warn, deny, Reason, Evaluation}
use mcp_guard.Result.{>>=-eq-ok, raise_if-eq-ok, ok-injective, ok, input_error, Result, err}
use mathlib.Core.Path.{subst}
use mcp_guard.Gateway.Gate.{IsClear, evaluate_mcp_request-allow_iff, append-eq-nil}
use mcp_guard.Policy.{Policy}
use mcp_guard.Evaluator.{evaluate_action}

all-append_field :
    (p : String → Bool) (fs : Fields) (name : String) (v : Value)
    → p name ≡ false
    → all p (field_names (append_field fs name v)) ≡ false
unfolding append_field field_names
all-append_field p end name v h = ground arith
all-append_field p (field k w fs) name v h = ground (arith, all-append_field p fs name v h)

-- A field that is not known leaves its mark in the arguments.
only_fields-mark_unclassified :
    (tool_name : String) (tool_input arguments : Fields)
    → only_fields recognized_argument_keys (mark_unclassified tool_name tool_input arguments) ≡ true
    → only_fields (known_fields tool_name) tool_input ≡ true
unfolding mark_unclassified only_fields
only_fields-mark_unclassified tool_name tool_input arguments h =
    elim (Bool-cases (only_fields (known_fields tool_name) tool_input)) [
      | inl recognized ↦ recognized
      | inr stray ↦ cc (
        all-append_field (contains recognized_argument_keys) arguments "__unclassified__"
            (bool true) refl,
        rw stray at h,
      )
    ]

-- The parts of a hook event that the adapter took.
pub record IsNormalized (runtime : String) (event request : Fields) : Type 0 where
  pub tool_name : String
  pub tool_input : Fields
  pub arguments : Fields
  pub is_hook : equals_text "PreToolUse" (get "hook_event_name" event) ≡ true
  pub has_name : nonblank_text (get "tool_name" event) ≡ some tool_name
  pub has_input : get "tool_input" event ≡ some (obj tool_input)
  pub taken : hook_arguments tool_name tool_input ≡ ok arguments
  pub request_is : hook_request tool_name arguments ≡ request

hook_tool_name-eq-ok :
    (selected : RuntimeName) (o : Option Value) {name : String}
    → hook_tool_name selected o ≡ ok name
    → nonblank_text o ≡ some name
unfolding hook_tool_name
hook_tool_name-eq-ok selected o {name} h = found (nonblank_text o) h
  where
    found :
        (t : Option String) {n : String}
        → elim t as (λ _. Result String) [
          | some tool_name ↦ ok tool_name
          | none ↦ err (
              input_error
                (runtime_text selected <> " PreToolUse tool_name must be a non-empty string."))
        ]
          ≡ ok n
        → t ≡ some n
    found none e = cc
    found (some t) e = ap some (ok-injective e)

hook_tool_input-eq-ok :
    (selected : RuntimeName) (o : Option Value) {input : Fields}
    → hook_tool_input selected o ≡ ok input
    → o ≡ some (obj input)
unfolding hook_tool_input
hook_tool_input-eq-ok selected (some (obj o)) h = ap (λ fs. some (obj fs)) (ok-injective h)
hook_tool_input-eq-ok selected none h = cc
hook_tool_input-eq-ok selected (some _) h = cc

normalize_hook_event-IsNormalized :
    (runtime : String) (event : Fields) {request : Fields}
    → normalize_hook_event runtime event ≡ ok request
    → IsNormalized runtime event request
unfolding normalize_hook_event
normalize_hook_event-IsNormalized runtime event h =
    let (selected, _, h1) = >>=-eq-ok (runtime_name runtime) _ h in
    let (is_hook, h2) = raise_if-eq-ok _ _ _ h1 in
    let (tool_name, has_name, h3) =
      >>=-eq-ok (hook_tool_name selected (get "tool_name" event)) _ h2 in
    let (tool_input, has_input, h4) =
      >>=-eq-ok (hook_tool_input selected (get "tool_input" event)) _ h3 in
    let (arguments, taken, h5) = >>=-eq-ok (hook_arguments tool_name tool_input) _ h4 in
    record {
      tool_name = tool_name;
      tool_input = tool_input;
      arguments = arguments;
      is_hook = ground arith;
      has_name = hook_tool_name-eq-ok selected _ has_name;
      has_input = hook_tool_input-eq-ok selected _ has_input;
      taken = taken;
      request_is = ok-injective h5;
    }

some-injective {ℓ} : {A : Type ℓ} {a b : A} → some a ≡ some b → a ≡ b
some-injective h = cc

-- The call of a request of the adapter has its tool name and its arguments.
hook_request-parsed :
    (tool_name : String) (arguments : Fields) (call : McpToolCall)
    → parse_mcp_tool_call (hook_request tool_name arguments) ≡ ok call
    → (arguments ≡ call.arguments) × (nonblank_text (some (str tool_name)) ≡ some call.name)
unfolding hook_request object_field call_arguments get has
hook_request-parsed tool_name arguments call h =
    let p = parse_mcp_tool_call-IsParsed (hook_request tool_name arguments) call h in
    let same : field "name" (str tool_name) (field "arguments" (obj arguments) end) ≡ p.params =
      some-injective p.has_params in
    (
      some-injective
          (subst (λ ps. call_arguments ps ≡ some call.arguments) (sym same) p.has_arguments),
      subst (λ ps. nonblank_text (get "name" ps) ≡ some call.name) (sym same) p.has_name,
    )

pub permission_of-allow : (d : Decision) → permission_of d ≡ "allow" → d ≡ allow
unfolding permission_of
permission_of-allow allow h = refl
permission_of-allow warn h = let e : false ≡ true = ap (λ s. s == "allow") h in cc
permission_of-allow deny h = let e : false ≡ true = ap (λ s. s == "allow") h in cc

hook_response-allow :
    (selected : RuntimeName) (e : Evaluation) {reason : String}
    → hook_response selected e ≡ permission "allow" reason
    → (selected ≡ claude_code) × (e.decision ≡ allow)
unfolding hook_response
hook_response-allow claude_code e h =
    let same : permission_of e.decision ≡ "allow" = cc h in
    (refl, permission_of-allow e.decision same)
hook_response-allow codex e h = cc

module _ ⦃u : Unicode⦄ where
  -- An action that no rule of the policy speaks against.
  abbrev pub IsQuiet : Policy → CapabilityAction → Type 0
  IsQuiet policy a = (e : Evaluation) × (evaluate_action a.action policy ≡ ok e) × (e.reasons ≡ [])

  all_action_reasons-IsQuiet :
      (actions : List CapabilityAction) (policy : Policy) {found : List Reason}
      → all_action_reasons actions policy ≡ ok found
      → found ≡ []
      → All (IsQuiet policy) actions
  unfolding all_action_reasons
  all_action_reasons-IsQuiet [] policy h none_found = tt
  all_action_reasons-IsQuiet (a ∷ rest) policy {found} h none_found =
      let (e, evaluated, h1) = >>=-eq-ok (evaluate_action a.action policy) _ h in
      let (more, others, h2) = >>=-eq-ok (all_action_reasons rest policy) _ h1 in
      let (mine, nothing) = append-eq-nil e.reasons more (ok-injective h2 ∙ none_found) in
      ((e, evaluated, mine), all_action_reasons-IsQuiet rest policy others nothing)

  -- What a permission rests on.
  pub record Permitted (event : Fields) (policy : Policy) (r : GatewayResult) : Type 0 where
    pub tool_name : String
    pub tool_input : Fields
    pub actions : List CapabilityAction
    pub found : List Reason
    pub is_hook : equals_text "PreToolUse" (get "hook_event_name" event) ≡ true
    pub has_name : nonblank_text (get "tool_name" event) ≡ some tool_name
    pub has_input : get "tool_input" event ≡ some (obj tool_input)
    pub known : only_fields (known_fields tool_name) tool_input ≡ true
    pub called : nonblank_text (some (str tool_name)) ≡ some r.call.name
    pub taken : hook_arguments tool_name tool_input ≡ ok r.call.arguments
    pub projected : capability_actions r.call ≡ ok actions
    pub checked : all_action_reasons actions policy ≡ ok found
    pub quiet : All (IsQuiet policy) actions
    pub harmless : IsClear r.call found policy

  hook_arguments-known :
      (tool_name : String) (tool_input : Fields) {arguments : Fields}
      → hook_arguments tool_name tool_input ≡ ok arguments
      → only_fields recognized_argument_keys arguments ≡ true
      → only_fields (known_fields tool_name) tool_input ≡ true
  unfolding hook_arguments
  hook_arguments-known tool_name tool_input h recognized =
      let (taken, _, h1) = >>=-eq-ok (with_file_path (get "file_path" tool_input) _) _ h in
      only_fields-mark_unclassified tool_name tool_input taken (
        subst (λ fs. only_fields recognized_argument_keys fs ≡ true) (sym (ok-injective h1))
          recognized)

  evaluate_mcp_request-Permitted :
      (runtime : String) (event request : Fields) (policy : Policy) (r : GatewayResult)
      → IsNormalized runtime event request
      → evaluate_mcp_request request policy ≡ ok r
      → r.evaluation.decision ≡ allow
      → Permitted event policy r
  unfolding gateway_result has_unclassified_arguments
  evaluate_mcp_request-Permitted runtime event request policy r n evaluated allowed_now =
      let (e, allows) = evaluate_mcp_request-allow_iff request policy r evaluated in
      let harmless = (allows.0 allowed_now).0 in
      let same : e.call ≡ r.call = ap (λ (x : GatewayResult). x.call) e.result in
      let (arguments, called) =
        hook_request-parsed n.tool_name n.arguments e.call
          (subst (λ q. parse_mcp_tool_call q ≡ ok e.call) (sym n.request_is) e.parsed) in
      let classified : only_fields recognized_argument_keys n.arguments ≡ true =
        rw arguments (ground (arith, harmless.classified)) in
      record {
        tool_name = n.tool_name;
        tool_input = n.tool_input;
        actions = e.actions;
        found = e.found;
        is_hook = n.is_hook;
        has_name = n.has_name;
        has_input = n.has_input;
        known = hook_arguments-known n.tool_name n.tool_input n.taken classified;
        called =
            subst (λ (x : McpToolCall). nonblank_text (some (str n.tool_name)) ≡ some x.name) same
              called;
        taken = n.taken ∙ ap ok (arguments ∙ ap (λ (x : McpToolCall). x.arguments) same);
        projected = subst (λ x. capability_actions x ≡ ok e.actions) same e.projected;
        checked = e.checked;
        quiet = all_action_reasons-IsQuiet e.actions policy e.checked harmless.no_finding;
        harmless = subst (λ x. IsClear x e.found policy) same harmless;
      }

  -- The answer of a hook gives permission only if it is a Claude Code hook, which blocks; the event is a
  -- PreToolUse event with a tool name and an input object; every field of the input is known for that
  -- tool; the evaluated call has that tool name and the arguments taken from that input; no rule on the name
  -- speaks against the call; and no rule speaks against any of the shell, file and network actions that its
  -- arguments imply.
  pub hook_response-Permitted :
      (runtime : String) (event : Fields) (policy : Policy) {a : AdapterDecision} {reason : String}
      → adapter_decision runtime event policy ≡ ok a
      → hook_response a.runtime a.result.evaluation ≡ permission "allow" reason
      → (a.runtime ≡ claude_code) × (a.mode ≡ blocking) × Permitted event policy a.result
  unfolding adapter_decision mode_of
  hook_response-Permitted runtime event policy {a} h answer =
      let (selected, _, h1) = >>=-eq-ok (runtime_name runtime) _ h in
      let (request, normalized, h2) =
        >>=-eq-ok (normalize_hook_event (runtime_text selected) event) _ h1 in
      let (result, evaluated, h3) = >>=-eq-ok (evaluate_mcp_request request policy) _ h2 in
      let (is_claude, allowed_now) = hook_response-allow a.runtime a.result.evaluation answer in
      let chosen : selected ≡ a.runtime =
        ap (λ (d : AdapterDecision). d.runtime) (ok-injective h3) in
      let mode : mode_of selected ≡ a.mode =
        ap (λ (d : AdapterDecision). d.mode) (ok-injective h3) in
      let same : result ≡ a.result = ap (λ (d : AdapterDecision). d.result) (ok-injective h3) in
      (
        is_claude,
        sym mode ∙ ap mode_of (chosen ∙ is_claude),
        evaluate_mcp_request-Permitted (runtime_text selected) event request policy a.result
            (normalize_hook_event-IsNormalized (runtime_text selected) event normalized)
            (evaluated ∙ ap ok same) allowed_now,
      )
