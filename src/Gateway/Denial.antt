-- ===== src/Gateway/Denial.antt =====
-- When `evaluate_mcp_request` of policylatch/gateway.py denies.
use mcp_guard.Base.{
  String, ◌≡◌, ◌↔◌, ◌⊎◌, Bool, true, false, not, ◌&&◌, ◌||◌, List, [], ◌++◌, arith, any-append, any,
  is_empty, Unicode, sym, ap, ◌∙◌, inl, inr,
}
use mcp_guard.Base.Dict.{get_or}
use mcp_guard.Evaluator.Laws.{any-denies-matching, any-warns-matching}
use mcp_guard.Gateway.{
  task_reasons, unclassified_reasons, gateway_reasons, McpToolCall, base_decision, gateway_result,
  evaluate_mcp_request, GatewayResult, CapabilityAction,
}
use mcp_guard.Matching.{name_matches}
use mcp_guard.Models.{is_denial, Reason, deny}
use mcp_guard.Policy.{Rules, patterns, Policy}
use mcp_guard.ToolPolicy.{tool_name_is_allowed, outside_allow_list, tool_name_reasons}
use mcp_guard.Gateway.Gate.{
  evaluate_mcp_request-Evaluated, gateway_reasons-IsClear, IsClear-gateway_reasons, decision_of,
  Evaluated, IsClear,
}
use mcp_guard.Json.{Fields}
use mcp_guard.Models.Order.{decision_for-deny_iff}
use mcp_guard.Result.{ok}

module _ ⦃u : Unicode⦄ where
  -- Something denies the call: a deny pattern on its name, an allow list that it is not on, or a
  -- denying finding on a projected action.
  abbrev pub IsRejected : McpToolCall → List Reason → Policy → Type 0
  IsRejected call found policy =
      let allowed = patterns "mcp_tools" "allow_names" policy in
      (any (name_matches call.name) (patterns "mcp_tools" "deny_names" policy) ≡ true)
      ⊎ ((is_empty allowed ≡ false) × (any (name_matches call.name) allowed ≡ false))
      ⊎ (any is_denial found ≡ true)

  -- The same as a test.
  rejects : McpToolCall → List Reason → Policy → Bool
  rejects call found policy =
      let allowed = patterns "mcp_tools" "allow_names" policy in
      any (name_matches call.name) (patterns "mcp_tools" "deny_names" policy)
      || (not (is_empty allowed) && not (any (name_matches call.name) allowed))
      || any is_denial found

  rejects_iff :
      (call : McpToolCall) (found : List Reason) (policy : Policy)
      → (rejects call found policy ≡ true) ↔ IsRejected call found policy
  unfolding rejects
  rejects_iff call found policy = ground arith

  any-is_denial-outside :
      (name : String) (rules : Rules)
      → any is_denial (outside_allow_list name rules) ≡ (
          not (is_empty (get_or [] "allow_names" rules))
          && not (any (name_matches name) (get_or [] "allow_names" rules)))
  unfolding outside_allow_list tool_name_is_allowed
  any-is_denial-outside name rules = ground arith

  any-is_denial-flags :
      (call : McpToolCall) (found : List Reason)
      → any is_denial (task_reasons call ++ (unclassified_reasons call ++ found))
        ≡ any is_denial found
  unfolding task_reasons unclassified_reasons
  any-is_denial-flags call found = ground arith

  any-is_denial-gateway_reasons :
      (call : McpToolCall) (found : List Reason) (policy : Policy)
      → any is_denial (gateway_reasons call found policy) ≡ rejects call found policy
  unfolding gateway_reasons tool_name_reasons patterns rejects
  any-is_denial-gateway_reasons call found policy =
      rw
        (
          any-append, any-append, any-append, any-denies-matching, any-is_denial-outside,
          any-warns-matching, any-is_denial-flags,
        )
        (ground arith)

  gateway_result-deny_iff :
      (call : McpToolCall) (actions : List CapabilityAction) (found : List Reason) (policy : Policy)
      → ((gateway_result call actions found policy).evaluation.decision ≡ deny) ↔ (
          IsRejected call found policy
          ⊎ (IsClear call found policy × (base_decision call policy ≡ deny)))
  unfolding gateway_result
  gateway_result-deny_iff call actions found policy = (
    λ h. elim ((decision_for-deny_iff _ _).0 h) [
      | inl some_denial ↦ inl (
          (rejects_iff call found policy).0
            (sym (any-is_denial-gateway_reasons call found policy) ∙ some_denial))
      | inr (nothing, base) ↦ inr (gateway_reasons-IsClear call found policy nothing, base)
    ],
    λ h. (decision_for-deny_iff _ _).1 (elim h [
      | inl rejected ↦ inl (
          any-is_denial-gateway_reasons call found policy
          ∙ (rejects_iff call found policy).1 rejected)
      | inr (clear, base) ↦ inr (IsClear-gateway_reasons call found policy clear, base)
    ]),
  )

  -- An evaluation that returns denies the call exactly if a deny pattern matches the name, there is
  -- an allow list that the name is not on, a projected action has a denying finding, or nothing
  -- speaks against the call and the default for it is to deny.
  pub evaluate_mcp_request-deny_iff :
      (request : Fields) (policy : Policy) (r : GatewayResult)
      → evaluate_mcp_request request policy ≡ ok r
      → (e : Evaluated request policy r) × ((r.evaluation.decision ≡ deny) ↔ (
          IsRejected e.call e.found policy
          ⊎ (IsClear e.call e.found policy × (base_decision e.call policy ≡ deny))))
  evaluate_mcp_request-deny_iff request policy r h =
      let e = evaluate_mcp_request-Evaluated request policy r h in
      let iff = gateway_result-deny_iff e.call e.actions e.found policy in
      (e, (λ d. iff.0 (ap decision_of e.result ∙ d), λ c. sym (ap decision_of e.result) ∙ iff.1 c))
