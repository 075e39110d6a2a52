-- ===== src/Approval/Provider/Laws.antt =====
-- When the terminal provider of policylatch/approval.py approves, and what it keeps of its grants.
use mcp_guard.Approval.Grants.Bounds.{IsBounded, consume-IsBounded, add-InBounds}
use mcp_guard.Approval.Provider.{settle, Provider, readline, prompt, authorize, Terminal}
use mcp_guard.Approval.Request.{ApprovalRequest}
use mcp_guard.Approval.Response.{max_grant_uses, ApprovalResponse}
use mcp_guard.Base.{
  ℕ, ◌≤◌, ◌≡◌, Unicode, ◌*◌, ◌<◌, String, refl, true, false, Option, none, some, arith, split, inl,
  inr, not, ◌||◌, Bool-cases,
}
use mcp_guard.Result.{Result, ok, err}
use mcp_guard.Approval.Response.Laws.{
  parse_approval_response-IsAccepted, WordsApprove, response_from_line-approved,
}
use mcp_guard.Fingerprint.{is_hash}
use mcp_guard.Approval.Grants.{consume}
use mcp_guard.Approval.Grants.Laws.{uses_left, consume-uses_left}
use mathlib.Core.Bool.{false≢true}

abbrev Bounded : Provider → Type 0
Bounded p = IsBounded max_grant_uses p.grants

module _ ⦃u : Unicode⦄ (ticks : ℕ) where
  settle-IsBounded :
      (p : Provider) (a : ApprovalRequest) (later : ℕ) (r : Result ApprovalResponse)
      → ((response : ApprovalResponse) → r ≡ ok response → response.grant_max_uses ≤ max_grant_uses)
      → Bounded p
      → Bounded (settle ticks p a later r).1
  unfolding settle
  settle-IsBounded p a later (err e) h b = b
  settle-IsBounded p a later (ok parsed) h b = record {
    at_scope = λ other. ground (
      arith,
      h parsed refl,
      b.at_scope other,
      add-InBounds max_grant_uses a.scope_fingerprint other later (parsed.grant_ttl_seconds * ticks)
          parsed.grant_max_uses p.grants,
    );
  }

  prompt-Bounded :
      (p : Provider) (a : ApprovalRequest) (later : ℕ) (line : Option String)
      → Bounded p
      → Bounded (prompt ticks p a later line).1
  unfolding prompt
  prompt-Bounded p a later none b = record { at_scope = b.at_scope }
  prompt-Bounded p a later (some line) b =
      settle-IsBounded p a later _
        (λ response e. (parse_approval_response-IsAccepted _ _ response e).uses_bound) b

  -- If each stored grant has at least one use left and at most 20, that holds after a call of
  -- `authorize` too, whatever the terminal gives.
  pub authorize-IsBounded :
      (p : Provider) (a : ApprovalRequest) (terminal : Terminal)
      → IsBounded max_grant_uses p.grants
      → IsBounded max_grant_uses (authorize ticks p a terminal).1.grants
  unfolding authorize
  authorize-IsBounded p a terminal b =
      let left : IsBounded max_grant_uses (consume a.scope_fingerprint terminal.now p.grants).1 =
        consume-IsBounded max_grant_uses a.scope_fingerprint terminal.now b in
      record {
        at_scope = λ other. ground (
          arith,
          left.at_scope other,
          (prompt-Bounded
                (record p { grants = (consume a.scope_fingerprint terminal.now p.grants).1 }) a
                terminal.later (readline ticks terminal.raw_line) left).at_scope
              other,
        );
      }

  -- What an approval of this call rests on: a grant for the scope that has uses left, or a line that
  -- approves, which was read from an open terminal.
  pub data Grounds (p : Provider) (a : ApprovalRequest) (terminal : Terminal) : Type 0 where
    reuse : 0 < uses_left a.scope_fingerprint terminal.now p.grants → Grounds p a terminal
    explicit :
        (line : String) (r : ApprovalResponse)
        → p.closed ≡ false
        → p.has_input ≡ true
        → readline ticks terminal.raw_line ≡ some line
        → WordsApprove (split line) r
        → (0 < r.grant_max_uses → a.grant_allowed ≡ true)
        → Grounds p a terminal

  settle-approved :
      (p : Provider) (a : ApprovalRequest) (later : ℕ) (r : Result ApprovalResponse)
      → (settle ticks p a later r).0.approved ≡ true
      → (response : ApprovalResponse) × (r ≡ ok response)
        × (response.approved ≡ true)
        × (0 < response.grant_max_uses → a.grant_allowed ≡ true)
  unfolding settle
  settle-approved p a later (err e) h = cc
  settle-approved p a later (ok parsed) h = (parsed, refl, ground arith, λ some_use. ground arith)

  prompt-approved :
      (p : Provider) (a : ApprovalRequest) (later : ℕ) (line : Option String)
      → is_hash a.request_fingerprint ≡ true
      → (prompt ticks p a later line).0.approved ≡ true
      → (text : String) × (r : ApprovalResponse) × (line ≡ some text)
        × WordsApprove (split text) r
        × (0 < r.grant_max_uses → a.grant_allowed ≡ true)
  unfolding prompt
  prompt-approved p a later none hashed h = cc
  prompt-approved p a later (some text) hashed h =
      let (r, parsed, approved, allowed) = settle-approved p a later _ h in
      (
        text,
        r,
        refl,
        response_from_line-approved text a.request_fingerprint r hashed parsed approved,
        allowed,
      )

  -- For a request whose fingerprint is a SHA-256 one, `authorize` approves only on a grant of the
  -- scope with uses left, or on a line that approves, read from an open terminal; a line that
  -- asks for a grant approves only if the request allows grants.
  pub authorize-Grounds :
      (p : Provider) (a : ApprovalRequest) (terminal : Terminal)
      → is_hash a.request_fingerprint ≡ true
      → (authorize ticks p a terminal).0.approved ≡ true
      → Grounds p a terminal
  unfolding authorize
  authorize-Grounds p a terminal hashed approved =
      let reused = (consume a.scope_fingerprint terminal.now p.grants).0 in
      let left = record p { grants = (consume a.scope_fingerprint terminal.now p.grants).1 } in
      elim (Bool-cases reused) [
        | inl live ↦
            reuse (ground (arith, consume-uses_left a.scope_fingerprint terminal.now p.grants))
        | inr gone ↦ elim (Bool-cases (p.closed || not p.has_input)) [
          | inl shut ↦ absurd (false≢true (rw (gone, shut) at approved))
          | inr open_input ↦
              let (text, r, read, words, allowed) =
                prompt-approved left a terminal.later (readline ticks terminal.raw_line) hashed
                  (rw (gone, open_input) at approved) in
              explicit text r (ground arith) (ground arith) read words allowed
        ]
      ]
