-- ===== src/Tests/Approvals.antt =====
-- Examples for the approvals of policylatch/approval.py.
use mcp_guard.Tests.{plain_text}
use mcp_guard.Approval.Grants.{GrantStore, consume, add, consume_all}
use mcp_guard.Approval.Grants.Bounds.{IsBounded}
use mcp_guard.Approval.Grants.Laws.{
  uses_left, consume-uses_left, lookup-consume_other, count_before, consume_all-add,
}
use mcp_guard.Approval.Provider.{authorize, Provider, Terminal, readline, settle, prompt}
use mcp_guard.Approval.Provider.Laws.{authorize-IsBounded, authorize-Grounds, Grounds}
use mcp_guard.Approval.Request.{ApprovalRequest}
use mcp_guard.Approval.Response.{
  max_grant_uses, ApprovalResponse, parse_approval_response, response_from_line,
}
use mcp_guard.Approval.Response.Laws.{
  parse_approval_response-IsAccepted, response_from_line-approved, IsAccepted, WordsApprove,
}
use mcp_guard.Base.{◌-◌, String, ◌≡◌, refl, true, false, some, [], ◌∷◌, ltb, strip, arith}
use mcp_guard.Base.Dict.{lookup}
use mcp_guard.Base.Int.{pos}
use mcp_guard.Json.{
  int, str, obj, Fields, end, field, exactly_fields, equals_one, equals_text, in_set,
}
use Prim.Native.Nat.{min}
use mcp_guard.Fingerprint.{is_hash}
use mcp_guard.Result.{raise_if}

abbrev scope : String
scope = "sha256:0000000000000000000000000000000000000000000000000000000000000000"

abbrev store : GrantStore
store = ("other", record { expires_at = 50; remaining_uses = 1 }) ∷ []

consume-uses_left_example :
    ((consume "other" 3 store).0 ≡ ltb 0 (uses_left "other" 3 store))
    × (uses_left "other" 3 (consume "other" 3 store).1 ≡ uses_left "other" 3 store - 1)
consume-uses_left_example = consume-uses_left "other" 3 store

lookup-consume_other_example : lookup "other" (consume scope 3 store).1 ≡ lookup "other" store
lookup-consume_other_example = lookup-consume_other scope "other" 3 store refl

consume_all-add_example :
    (consume_all scope (2 ∷ 4 ∷ 30 ∷ []) (add scope 1 10 5 store)).0
    ≡ min 5 (count_before 11 (2 ∷ 4 ∷ 30 ∷ []))
consume_all-add_example =
    consume_all-add scope 1 10 5 (2 ∷ 4 ∷ 30 ∷ []) store
      (omega arith, (omega arith, (omega arith, tt)))

abbrev response : Fields
response = field "schema_version" (int (pos 1)) (
    field "kind" (str "approval_response") (
      field "request_fingerprint" (str scope) (
        field "decision" (str "approve") (
          field "grant"
            (obj (field "ttl_seconds" (int (pos 60)) (field "max_uses" (int (pos 2)) end))) end))))

abbrev parsed : ApprovalResponse
parsed = record { approved = true; grant_ttl_seconds = 60; grant_max_uses = 2 }

parse_approval_response-IsAccepted_example : IsAccepted response scope parsed
unfolding parse_approval_response raise_if exactly_fields equals_one equals_text is_hash in_set
parse_approval_response-IsAccepted_example =
    parse_approval_response-IsAccepted response scope parsed refl

response_from_line-approved_example : WordsApprove ("grant" ∷ "60" ∷ "2" ∷ []) parsed
unfolding is_hash parse_approval_response raise_if exactly_fields response_from_line equals_one
    equals_text in_set
response_from_line-approved_example =
    response_from_line-approved "grant 60 2" scope parsed refl refl refl

abbrev provider : Provider
provider = record { has_input = true; closed = false; timeout_seconds = int (pos 30); grants = [] }

abbrev approval : ApprovalRequest
approval = record {
  document = end;
  request_fingerprint = scope;
  scope_fingerprint = scope;
  grant_allowed = true;
}

abbrev terminal : Terminal
terminal = record { now = 1; raw_line = some "grant 60 2\n"; later = 2 }

authorize-IsBounded_example :
    IsBounded max_grant_uses (authorize 1000 provider approval terminal).1.grants
unfolding lookup
authorize-IsBounded_example =
    authorize-IsBounded 1000 provider approval terminal (record { at_scope = λ other. tt })

authorize-Grounds_example : Grounds 1000 provider approval terminal
unfolding is_hash authorize consume lookup prompt readline settle parse_approval_response raise_if
    exactly_fields response_from_line equals_one equals_text in_set strip
authorize-Grounds_example = authorize-Grounds 1000 provider approval terminal refl refl
