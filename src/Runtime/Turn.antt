-- ===== src/Runtime/Turn.antt =====
-- What one pass of the loop of `run_stdio_gateway` in policylatch/runtime_gateway.py is given, and its small parts.
use mcp_guard.Approval.Provider.{authorize, Provider, Terminal, ApprovalOutcome}
use mcp_guard.Approval.Request.{
  ApprovalRequest, ScanReport, Outcome, clean, review, block_next_step,
}
use mcp_guard.Base.{
  ℕ, suc, String, Bool, not, ◌&&◌, Option, none, some, List, ◌∷◌, map, length, ltb, ◌==◌,
  if◌then◌else◌, is_empty, Unicode,
}
use mcp_guard.Fingerprint.{Hashing}
use mcp_guard.Gateway.{RequestId, no_id}
use mcp_guard.Json.{Value, Fields}
use mcp_guard.Models.{Reason}
use mcp_guard.Policy.{Policy}
use mcp_guard.Runtime.Session.{
  ◌>>◌, Run, lift, stop_if, send, Summary, Phase, to_client, value, raised,
}
use mcp_guard.Result.{Error, runtime_error, value_error, Result, ok, err}
use mcp_guard.Runtime.Wire.{max_message_bytes, ends_newline, has_seen, Codec}

-- What a session is given once. `scan` is `scan_mcp_tool_response`.
pub record Gateway : Type 0 where
  pub codec : Codec
  pub hashing : Hashing
  pub ticks_per_second : ℕ
  pub policy : Policy
  pub upstream_fingerprint : String
  pub policy_hash : String
  pub scan : Fields → Fields → Result ScanReport

-- What one pass of the loop meets: the line of the client, whether the writes succeed in time, the
-- next line of the server (`none` if there is none in time or the reader failed), and the terminal.
pub record Turn : Type 0 where
  pub line : List ℕ
  pub upstream_writable : Bool
  pub upstream_line : Option (List ℕ)
  pub client_writable : Bool
  pub error_writable : Bool
  pub call_terminal : Terminal
  pub result_terminal : Terminal

pub data Permit : Type 0 where
  refused : Permit
  forward_call : Permit
  forward_control : String → Bool → Permit

-- How a pass of the loop ends, and how the loop ends.
pub data End : Type 0 where
  continues : End
  stops : End
  escapes : Error → End

unfoldable pub rules_of : List Reason → List String
rules_of rs = map (λ (r : Reason). r.rule) rs

unfoldable pub current_phase : Run Phase
current_phase s = value s.phase s

unfoldable pub current_id : Run RequestId
current_id s = value s.request_id s

unfoldable pub set_request_id : RequestId → Run (Unit {0})
set_request_id i s = value tt (record s { request_id = i })

-- The test on `seen_ids`, and `seen_ids.add`.
unfoldable pub remember : RequestId → Run (Unit {0})
remember no_id s = value tt s
remember i s =
    if has_seen s.seen_ids i
    then raised (runtime_error "Runtime request id was already used in this session.") s
    else value tt (record s { seen_ids = i ∷ s.seen_ids })

unfoldable pub count_approval : ApprovalOutcome → Summary → Summary
count_approval decided c =
    if decided.approved
    then record c {
      approved = suc c.approved;
      grant_reuses =
          if decided.source == "session-grant" then suc c.grant_reuses else c.grant_reuses;
    }
    else c

unfoldable pub count_outcome : Outcome → Summary → Summary
count_outcome clean c = record c { response_clean = suc c.response_clean }
count_outcome review c = record c { response_review = suc c.response_review }
count_outcome block_next_step c = record c { response_blocked = suc c.response_blocked }

-- _LineReader.next
unfoldable pub read_next : Option (List ℕ) → Result (List ℕ)
read_next none = err (runtime_error "Upstream response timed out.")
read_next (some raw) =
    if ltb max_message_bytes (length raw)
    then err (runtime_error "Upstream response exceeds the message byte limit.")
    else if not (is_empty raw) && not (ends_newline raw)
    then err (runtime_error "Upstream response is not newline-delimited.")
    else ok raw

module _ ⦃u : Unicode⦄ (g : Gateway) where
  unfoldable pub write_encoded : Value → Bool → Option (List ℕ) → Run (Unit {0})
  write_encoded message writable none = lift (err (value_error "surrogates not allowed"))
  write_encoded message writable (some bytes) = do
    stop_if (ltb max_message_bytes (suc (length bytes)))
        "Gateway output exceeds the message byte limit."
    send (to_client message)
    stop_if (not writable) "Could not write client output."

  -- _write_message
  unfoldable pub write_message : Value → Bool → Run (Unit {0})
  unfolding write_encoded
  write_message message writable = write_encoded message writable (g.codec.encode message)

  -- `approval_provider.authorize(approval)`
  unfoldable pub ask : Provider → ApprovalRequest → Terminal → Run ApprovalOutcome
  ask p approval terminal s =
      let (decided, left) = authorize g.ticks_per_second p approval terminal in
      value decided (record s { provider = some left })
