-- ===== src/Gateway/Gate.antt =====
-- What the decision of `evaluate_mcp_request` in policylatch/gateway.py depends on.
use mcp_guard.Base.{
  String, ◌≡◌, refl, ◌⊎◌, Bool, true, false, List, [], ◌∷◌, ◌++◌, arith, any, Unicode, ◌↔◌,
  is_empty, sym, ap, ◌∙◌,
}
use mcp_guard.Base.Dict.{get_or}
use mcp_guard.Evaluator.Laws.{is_empty-matching}
use mcp_guard.Gateway.{
  parse_mcp_tool_call, capability_actions, has_unclassified_arguments, task_reasons,
  unclassified_reasons, all_action_reasons, gateway_reasons, gateway_result, evaluate_mcp_request,
  McpToolCall, GatewayResult, CapabilityAction, base_decision,
}
use mcp_guard.Json.{Fields}
use mcp_guard.Matching.{text_matches, name_matches}
use mcp_guard.Models.{Reason, Effect, allow, warns, denies, Decision}
use mcp_guard.Policy.{patterns, Policy, Rules}
use mcp_guard.Result.{>>=-eq-ok, ok-injective, ok}
use mcp_guard.ToolPolicy.{
  matching_reasons, outside_allow_list, tool_name_reasons, tool_name_is_allowed,
}
use mcp_guard.Models.Order.{decision_for-allow_iff}

pub append-eq-nil {ℓ} : {A : Type ℓ} (xs ys : List A) → xs ++ ys ≡ [] → (xs ≡ []) × (ys ≡ [])
append-eq-nil [] ys h = (refl, h)
append-eq-nil (x ∷ xs) ys h = cc

-- No pattern of the list matches, if the loop over it finds no reason.
pub matching_reasons-eq-nil :
    (test : String → Bool) (rule message : String) (e : Effect) (ps : List String)
    → matching_reasons test rule e message ps ≡ []
    → any test ps ≡ false
matching_reasons-eq-nil test rule message e ps h =
    ground (arith, is_empty-matching test rule message e ps)

pub nil_of_is_empty {ℓ} : {A : Type ℓ} (xs : List A) → is_empty xs ≡ true → xs ≡ []
nil_of_is_empty [] h = refl
nil_of_is_empty (x ∷ xs) h = cc

pub matching_reasons-nil :
    (test : String → Bool) (rule message : String) (e : Effect) (ps : List String)
    → any test ps ≡ false
    → matching_reasons test rule e message ps ≡ []
matching_reasons-nil test rule message e ps h =
    nil_of_is_empty _ (ground (arith, is_empty-matching test rule message e ps))

module _ (call : McpToolCall) where
  task_reasons-eq-nil : (task_reasons call ≡ []) ↔ (call.task_augmented ≡ false)
  unfolding task_reasons
  task_reasons-eq-nil = ground arith

  unclassified_reasons-eq-nil :
      (unclassified_reasons call ≡ []) ↔ (has_unclassified_arguments call ≡ false)
  unfolding unclassified_reasons
  unclassified_reasons-eq-nil = ground arith

module _ ⦃u : Unicode⦄ where
  -- The steps of an evaluation that returned.
  pub record Evaluated (request : Fields) (policy : Policy) (r : GatewayResult) : Type 0 where
    pub call : McpToolCall
    pub actions : List CapabilityAction
    pub found : List Reason
    pub parsed : parse_mcp_tool_call request ≡ ok call
    pub projected : capability_actions call ≡ ok actions
    pub checked : all_action_reasons actions policy ≡ ok found
    pub result : gateway_result call actions found policy ≡ r

  pub evaluate_mcp_request-Evaluated :
      (request : Fields) (policy : Policy) (r : GatewayResult)
      → evaluate_mcp_request request policy ≡ ok r
      → Evaluated request policy r
  unfolding evaluate_mcp_request
  evaluate_mcp_request-Evaluated request policy r h =
      let (call, parsed, h1) = >>=-eq-ok (parse_mcp_tool_call request) _ h in
      let (actions, projected, h2) = >>=-eq-ok (capability_actions call) _ h1 in
      let (found, checked, h3) = >>=-eq-ok (all_action_reasons actions policy) _ h2 in
      record {
        call = call;
        actions = actions;
        found = found;
        parsed = parsed;
        projected = projected;
        checked = checked;
        result = ok-injective h3;
      }

  -- Nothing speaks against the call: no rule on its name, no task, no argument that is not
  -- classified, and no finding on a projected action.
  pub record IsClear (call : McpToolCall) (found : List Reason) (policy : Policy) : Type 0 where
    pub not_denied : any (name_matches call.name) (patterns "mcp_tools" "deny_names" policy) ≡ false
    pub listed :
        (patterns "mcp_tools" "allow_names" policy ≡ [])
        ⊎ (any (name_matches call.name) (patterns "mcp_tools" "allow_names" policy) ≡ true)
    pub not_warned :
        any (text_matches call.name) (patterns "mcp_tools" "warn_if_name_contains" policy) ≡ false
    pub no_task : call.task_augmented ≡ false
    pub classified : has_unclassified_arguments call ≡ false
    pub no_finding : found ≡ []

  abbrev pub IsListed : String → List String → Type 0
  IsListed name allowed = (allowed ≡ []) ⊎ (any (name_matches name) allowed ≡ true)

  pub outside_allow_list-eq-nil :
      (name : String) (rules : Rules)
      → outside_allow_list name rules ≡ []
      → IsListed name (get_or [] "allow_names" rules)
  unfolding outside_allow_list tool_name_is_allowed
  outside_allow_list-eq-nil name rules h = ground arith

  pub outside_allow_list-nil :
      (name : String) (rules : Rules)
      → IsListed name (get_or [] "allow_names" rules)
      → outside_allow_list name rules ≡ []
  unfolding outside_allow_list tool_name_is_allowed
  outside_allow_list-nil name rules h = ground arith

  pub gateway_reasons-IsClear :
      (call : McpToolCall) (found : List Reason) (policy : Policy)
      → gateway_reasons call found policy ≡ []
      → IsClear call found policy
  unfolding gateway_reasons tool_name_reasons patterns
  gateway_reasons-IsClear call found policy h =
      let (names, h1) =
        append-eq-nil (tool_name_reasons call.name (get_or [] "mcp_tools" policy.rules)) _ h in
      let (denied, h2) =
        append-eq-nil (matching_reasons (name_matches call.name) _ _ _ _) _ names in
      let (outside, warned) = append-eq-nil (outside_allow_list call.name _) _ h2 in
      let (task, h3) = append-eq-nil (task_reasons call) _ h1 in
      let (unclassified, nothing) = append-eq-nil (unclassified_reasons call) _ h3 in
      record {
        not_denied = matching_reasons-eq-nil _ _ _ _ _ denied;
        listed = outside_allow_list-eq-nil _ _ outside;
        not_warned = matching_reasons-eq-nil _ _ _ _ _ warned;
        no_task = (task_reasons-eq-nil call).0 task;
        classified = (unclassified_reasons-eq-nil call).0 unclassified;
        no_finding = nothing;
      }

  pub IsClear-gateway_reasons :
      (call : McpToolCall) (found : List Reason) (policy : Policy)
      → IsClear call found policy
      → gateway_reasons call found policy ≡ []
  unfolding gateway_reasons tool_name_reasons patterns
  IsClear-gateway_reasons call found policy c =
      rw
        (
          matching_reasons-nil _ _ _ denies _ c.not_denied,
          outside_allow_list-nil _ _ c.listed,
          matching_reasons-nil _ _ _ warns _ c.not_warned,
          (task_reasons-eq-nil call).1 c.no_task,
          (unclassified_reasons-eq-nil call).1 c.classified,
        )
        c.no_finding

  pub gateway_result-allow_iff :
      (call : McpToolCall) (actions : List CapabilityAction) (found : List Reason) (policy : Policy)
      → ((gateway_result call actions found policy).evaluation.decision ≡ allow)
        ↔ (IsClear call found policy × (base_decision call policy ≡ allow))
  unfolding gateway_result
  gateway_result-allow_iff call actions found policy = (
    λ h.
        let (none_found, base) = (decision_for-allow_iff _ _).0 h in
        (gateway_reasons-IsClear call found policy none_found, base),
    λ (clear, base).
        (decision_for-allow_iff _ _).1 (IsClear-gateway_reasons call found policy clear, base),
  )

  base_decision-allow_iff :
      (call : McpToolCall) (policy : Policy)
      → (base_decision call policy ≡ allow) ↔ (
          (tool_name_is_allowed call.name (get_or [] "mcp_tools" policy.rules) ≡ true)
          ⊎ (policy.default_decision ≡ allow))
  unfolding base_decision
  base_decision-allow_iff call policy = ground arith

  abbrev pub decision_of : GatewayResult → Decision
  decision_of r = r.evaluation.decision

  -- An evaluation that returns allows the call exactly if nothing speaks against the call, and the
  -- name is allowed by the list of the policy or the default decision of the policy allows.
  pub evaluate_mcp_request-allow_iff :
      (request : Fields) (policy : Policy) (r : GatewayResult)
      → evaluate_mcp_request request policy ≡ ok r
      → (e : Evaluated request policy r) × ((r.evaluation.decision ≡ allow) ↔ (
          IsClear e.call e.found policy
          × ((tool_name_is_allowed e.call.name (get_or [] "mcp_tools" policy.rules) ≡ true)
              ⊎ (policy.default_decision ≡ allow))))
  evaluate_mcp_request-allow_iff request policy r h =
      let e = evaluate_mcp_request-Evaluated request policy r h in
      (
        e,
        (
          λ d.
              let (clear, base) =
                (gateway_result-allow_iff e.call e.actions e.found policy).0
                  (ap decision_of e.result ∙ d) in
              (clear, (base_decision-allow_iff e.call policy).0 base),
          λ (clear, allowed).
              sym (ap decision_of e.result)
              ∙ (gateway_result-allow_iff e.call e.actions e.found policy).1
                  (clear, (base_decision-allow_iff e.call policy).1 allowed),
        ),
      )
