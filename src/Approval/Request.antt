-- ===== src/Approval/Request.antt =====
-- Approval requests of policylatch/approval.py: the documents that are shown, and their fingerprints.
use mcp_guard.Base.{
  ◌*◌, ◌^◌, String, ◌<>◌, Bool, true, false, not, ◌&&◌, ◌||◌, none, some, List, [], ◌∷◌, map, leb,
  ◌==◌, if◌then◌else◌, any, text_lt,
}
use mcp_guard.Base.Int.{int_between, pos}
use mcp_guard.Fingerprint.{is_hash, Hashing}
use mcp_guard.Gateway.{object_field, GatewayResult}
use mcp_guard.Json.{Value, bool, int, float, str, arr, obj, Items, nil, cons, Fields, end, field}
use mcp_guard.Models.{decision_eq, Reason, Decision, allow, warn, deny}
use mcp_guard.Result.{◌>>=◌, ◌>>◌, raise_if, input_error, Result, ok, err}

pub record ApprovalRequest : Type 0 where
  pub document : Fields
  pub request_fingerprint : String
  pub scope_fingerprint : String
  pub grant_allowed : Bool

-- The scan of a tool response, as far as approvals and the gateway read it.
pub data Outcome : Type 0 where
  clean review block_next_step : Outcome

pub record ScanReport : Type 0 where
  pub outcome : Outcome
  pub decision : Decision
  pub reasons : List Reason
  pub result_fingerprint : String
  pub tool_fingerprint : String
  pub receipt_fingerprint : String

-- sorted(set(texts))
insert_sorted : String → List String → List String
insert_sorted s [] = s ∷ []
insert_sorted s (t ∷ ts) =
    let rest = t ∷ insert_sorted s ts in
    if s == t then t ∷ ts else if text_lt s t then s ∷ t ∷ ts else rest

unfoldable pub sorted_set : List String → List String
unfolding insert_sorted
sorted_set [] = []
sorted_set (s ∷ ss) = insert_sorted s (sorted_set ss)

unfoldable pub texts : List String → Items
texts [] = nil
texts (s ∷ ss) = cons (str s) (texts ss)

-- "+".join(texts)
join_plus : List String → String
join_plus [] = ""
join_plus (s ∷ []) = s
join_plus (s ∷ t ∷ ss) = s <> ("+" <> join_plus (t ∷ ss))

-- 0.05 <= timeout <= 300. The float 0.05 is 3602879701896397 / 2^56.
unfoldable pub timeout_in_bounds : Value → Bool
timeout_in_bounds (int n) = int_between 1 n 300
timeout_in_bounds (float (pos z) k) =
    leb (3602879701896397 * 2 ^ k) (z * 2 ^ 56) && leb z (300 * 2 ^ k)
timeout_in_bounds _ = false

unfoldable pub decision_text : Decision → String
decision_text allow = "allow"
decision_text warn = "warn"
decision_text deny = "deny"

abbrev pub task_rule : String
task_rule = "gateway.tasks.unsupported"

-- A reason whose rule is in _NON_APPROVABLE_RULES.
abbrev pub non_approvable : Reason → Bool
non_approvable r = r.rule == task_rule

-- {"method": "tools/call", "params": params if isinstance(params, dict) else {}}
semantic_request : Fields → Value
semantic_request request = obj (
    field "method" (str "tools/call") (
      field "params"
        (elim (object_field "params" request) [ some params ↦ obj params | none ↦ obj end ]) end))

module _ (h : Hashing) where
  fingerprint : String → Value → Result String
  fingerprint label value = elim (h.fingerprint label value) [
    | some digest ↦ ok digest
    | none ↦ err (input_error "Approval value cannot be safely fingerprinted.")
  ]

  -- The document around a scope, and the two fingerprints.
  request_for :
      String → String → Fields → String → List Reason → Value → Bool → Result ApprovalRequest
  unfolding texts
  request_for scope_label request_label scope decision reasons timeout grant_allowed = do
    scope_fingerprint ← fingerprint scope_label (obj scope)
    let core = field "schema_version" (int (pos 1)) (
        field "kind" (str "approval_request") (
          field "decision" (str decision) (
            field "scope" (obj (field "scope_fingerprint" (str scope_fingerprint) scope)) (
              field "rules" (arr (texts (sorted_set (map (λ (r : Reason). r.rule) reasons)))) (
                field "timeout_seconds" timeout
                  (field "grant_allowed" (bool grant_allowed) end))))))
    request_fingerprint ← fingerprint request_label (obj core)
    ok (record {
      document = field "request_fingerprint" (str request_fingerprint) core;
      request_fingerprint = request_fingerprint;
      scope_fingerprint = scope_fingerprint;
      grant_allowed = grant_allowed;
    })

  unfoldable pub build_approval_request :
      Fields → GatewayResult → String → String → Value → Result ApprovalRequest
  unfolding fingerprint request_for decision_text join_plus texts semantic_request
  build_approval_request request result upstream_fingerprint policy_hash timeout = do
    raise_if (not (decision_eq result.evaluation.decision warn))
        (input_error "Approval requests are valid only for warn decisions.")
    raise_if (any non_approvable result.evaluation.reasons)
        (input_error "This warning category is not eligible for approval.")
    raise_if (not (timeout_in_bounds timeout))
        (input_error "Approval request timeout is outside the bounded contract.")
    raise_if (not (is_hash upstream_fingerprint) || not (is_hash policy_hash))
        (input_error "Approval request provenance fingerprints are invalid.")
    semantic ← fingerprint "approval-semantic-request-v1" (semantic_request request)
    tool ← fingerprint "approval-tool-v1" (str result.call.name)
    let names = sorted_set result.capabilities
    let scope = field "upstream_fingerprint" (str upstream_fingerprint) (
        field "policy_hash" (str policy_hash) (
          field "tool_fingerprint" (str tool) (
            field "capabilities" (arr (texts names)) (
              field "target_class" (str (join_plus names))
                (field "semantic_request_fingerprint" (str semantic) end)))))
    request_for "approval-scope-v1" "approval-request-v1" scope "warn" result.evaluation.reasons
        timeout true

  unfoldable pub build_result_approval_request :
      Fields → ScanReport → String → String → Value → Result ApprovalRequest
  unfolding fingerprint request_for decision_text texts semantic_request
  build_result_approval_request request report upstream_fingerprint policy_hash timeout = do
    raise_if (elim report.outcome [ clean ↦ true | _ ↦ false ])
        (input_error "Result approval requires a review or block-next-step outcome.")
    raise_if (not (timeout_in_bounds timeout))
        (input_error "Approval request timeout is outside the bounded contract.")
    raise_if (not (is_hash upstream_fingerprint) || not (is_hash policy_hash))
        (input_error "Approval request provenance fingerprints are invalid.")
    raise_if
        (not (
          is_hash report.result_fingerprint
          && (is_hash report.tool_fingerprint && is_hash report.receipt_fingerprint)))
        (input_error "Result approval fingerprints are invalid.")
    semantic ← fingerprint "approval-semantic-request-v1" (semantic_request request)
    let scope = field "upstream_fingerprint" (str upstream_fingerprint) (
        field "policy_hash" (str policy_hash) (
          field "tool_fingerprint" (str report.tool_fingerprint) (
            field "capabilities" (arr (cons (str "tool-result") nil)) (
              field "target_class" (str "tool-result") (
                field "semantic_request_fingerprint" (str semantic) (
                  field "result_fingerprint" (str report.result_fingerprint)
                    (field "result_receipt_fingerprint" (str report.receipt_fingerprint) end)))))))
    request_for "result-approval-scope-v1" "result-approval-request-v1" scope
        (decision_text report.decision) report.reasons timeout
        (elim report.outcome [ review ↦ true | _ ↦ false ])
