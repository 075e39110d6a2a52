-- ===== src/Approval/Provider.antt =====
-- `TerminalApprovalProvider` of policylatch/approval.py. What the terminal and the clock give during
-- one call is an argument of the model.
pub mod Laws
use mcp_guard.Approval.Grants.{GrantStore, consume, add}
use mcp_guard.Approval.Request.{timeout_in_bounds, ApprovalRequest}
use mcp_guard.Approval.Response.{parse_approval_response, response_from_line, ApprovalResponse}
use mcp_guard.Base.{
  ℕ, ◌*◌, String, Bool, true, false, not, ◌&&◌, ◌||◌, Option, none, some, [], ltb, ◌==◌,
  if◌then◌else◌, str_len, strip, Unicode,
}
use mcp_guard.Json.{Value}
use mcp_guard.Result.{input_error, Result, ok, err}

abbrev pub max_approval_line_chars : ℕ
max_approval_line_chars = 128

pub record Provider : Type 0 where
  pub has_input : Bool
  pub closed : Bool
  pub timeout_seconds : Value
  pub grants : GrantStore

-- The clock before and after the prompt, in ticks, and the line that was read: `none` if the time
-- ran out, the reader failed or the input was at its end.
pub record Terminal : Type 0 where
  pub now : ℕ
  pub raw_line : Option String
  pub later : ℕ

pub record ApprovalOutcome : Type 0 where
  pub approved : Bool
  pub source : String

-- __init__
unfoldable pub new_provider : Bool → Value → Result Provider
new_provider has_input timeout =
    if timeout_in_bounds timeout
    then ok (record {
      has_input = has_input;
      closed = not has_input;
      timeout_seconds = timeout;
      grants = [];
    })
    else err (input_error "Approval timeout must be between 0.05 and 300 seconds.")

-- close()
unfoldable pub close : Provider → Provider
close p = record p { closed = true }

abbrev pub outcome : Bool → String → ApprovalOutcome
outcome approved source = record { approved = approved; source = source }

module _ ⦃u : Unicode⦄ (ticks_per_second : ℕ) where
  -- _readline_with_timeout
  unfoldable pub readline : Option String → Option String
  readline none = none
  readline (some line) =
      if line == ""
      then none
      else if ltb max_approval_line_chars (str_len line)
      then some ""
      else some (u.casefold (strip line))

  -- What follows the parsed response. `parse_approval_response` raises only InputError here.
  unfoldable pub settle :
      Provider → ApprovalRequest → ℕ → Result ApprovalResponse → ApprovalOutcome × Provider
  settle p approval later (err e) = (outcome false "invalid-response", p)
  settle p approval later (ok parsed) =
      let grants =
        add approval.scope_fingerprint later (parsed.grant_ttl_seconds * ticks_per_second)
          parsed.grant_max_uses p.grants in
      if parsed.approved && ltb 0 parsed.grant_max_uses
      then (if approval.grant_allowed
          then (outcome true "explicit-approval", record p { grants = grants })
          else (outcome false "grant-not-allowed", p))
      else (outcome parsed.approved (if parsed.approved then "explicit-approval" else "deny"), p)

  unfoldable pub prompt :
      Provider → ApprovalRequest → ℕ → Option String → ApprovalOutcome × Provider
  prompt p approval later none = (outcome false "timeout-or-closed", record p { closed = true })
  prompt p approval later (some line) = settle p approval later (
      parse_approval_response (response_from_line line approval.request_fingerprint)
        approval.request_fingerprint)

  unfoldable pub authorize : Provider → ApprovalRequest → Terminal → ApprovalOutcome × Provider
  authorize p approval terminal =
      let (reused, store) = consume approval.scope_fingerprint terminal.now p.grants in
      let left = record p { grants = store } in
      if reused
      then (outcome true "session-grant", left)
      else if p.closed || not p.has_input
      then (outcome false "closed-input", left)
      else prompt left approval terminal.later (readline terminal.raw_line)
