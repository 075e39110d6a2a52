-- ===== src/Approval/Response/Laws.antt =====
-- Which responses and which lines of terminal input policylatch/approval.py takes as an approval.
use mcp_guard.Approval.Response.{
  max_grant_ttl_seconds, max_grant_uses, grant_of, is_null, ApprovalResponse,
  parse_approval_response, int_of_text, response_document, line_decision, response_from_line,
  grant_decision,
}
use mcp_guard.Base.{
  ℕ, ◌≤◌, ◌<◌, String, ◌≡◌, ◌↔◌, true, Option, none, some, arith, ◌⊎◌, Bool, [], ◌∷◌, eq_iff, refl,
  not, ◌&&◌, List, Unicode, sym, ap, ◌∙◌, inl, inr, ◌==◌, Bool-cases, split,
}
use mcp_guard.Fingerprint.{is_hash}
use mcp_guard.Json.{
  get, equals_text, Value, null, obj, Fields, in_set, str, only_fields, exactly_fields, equals_one,
  int, end, field,
}
use mcp_guard.Result.{
  ok, >>=-eq-ok, raise_if-eq-ok, ok-injective, ◌>>=◌, ◌>>◌, raise_if, input_error, Result,
}
use mcp_guard.Base.Int.{pos, ℤ, negsuc}
use text.Mathlib.TextPositions.{eq_refl}

-- The parts of a response that was accepted.
pub record IsAccepted (fields : Fields) (expected : String) (r : ApprovalResponse) : Type 0 where
  pub correlated : equals_text expected (get "request_fingerprint" fields) ≡ true
  pub hash : is_hash expected ≡ true
  pub ttl_bound : r.grant_ttl_seconds ≤ max_grant_ttl_seconds
  pub uses_bound : r.grant_max_uses ≤ max_grant_uses
  pub both_or_none : (r.grant_ttl_seconds ≡ 0) ↔ (r.grant_max_uses ≡ 0)
  pub approved : r.approved ≡ equals_text "approve" (get "decision" fields)
  pub grant_approved : 0 < r.grant_max_uses → r.approved ≡ true

grant_of-bounds :
    (v : Option Value) (limits : ℕ × ℕ)
    → grant_of v ≡ ok limits
    → (limits.0 ≤ max_grant_ttl_seconds)
      × (limits.1 ≤ max_grant_uses)
      × ((limits.0 ≡ 0) ↔ (limits.1 ≡ 0))
      × (is_null v ≡ true → limits.1 ≡ 0)
unfolding grant_of is_null
grant_of-bounds none limits h = ground arith
grant_of-bounds (some null) limits h = ground arith
grant_of-bounds (some (obj g)) limits h = ground arith
grant_of-bounds (some _) limits h = cc

in_set-cases :
    (v : Option Value) (known : Bool)
    → in_set ("approve" ∷ "deny" ∷ []) v ≡ ok known
    → known ≡ true
    → (equals_text "approve" v ≡ true) ⊎ (equals_text "deny" v ≡ true)
unfolding in_set equals_text
in_set-cases (some (str s)) known h k =
    ground (arith, eq_iff "approve" s, eq_iff s "approve", eq_iff "deny" s, eq_iff s "deny")
in_set-cases _ known h k = ground arith

-- An accepted response names the fingerprint that is expected, which is a SHA-256 one. Its grant is
-- in bounds, its TTL is 0 exactly if its uses are, and only an approval has a grant.
pub parse_approval_response-IsAccepted :
    (fields : Fields) (expected : String) (r : ApprovalResponse)
    → parse_approval_response fields expected ≡ ok r
    → IsAccepted fields expected r
unfolding parse_approval_response
parse_approval_response-IsAccepted fields expected r h =
    let (a, h1) = raise_if-eq-ok _ _ _ h in
    let (b, h2) = raise_if-eq-ok _ _ _ h1 in
    let (c, h3) = raise_if-eq-ok _ _ _ h2 in
    let (d, h4) = raise_if-eq-ok _ _ _ h3 in
    let (known, e, h5) =
      >>=-eq-ok (in_set ("approve" ∷ "deny" ∷ []) (get "decision" fields)) _ h4 in
    let (f, h6) = raise_if-eq-ok _ _ _ h5 in
    let (limits, g, h7) = >>=-eq-ok (grant_of (get "grant" fields)) _ h6 in
    let (i, h8) = raise_if-eq-ok _ _ _ h7 in
    let bounds = grant_of-bounds (get "grant" fields) limits g in
    let result = ok-injective h8 in
    record {
      correlated = ground arith;
      hash = ground arith;
      ttl_bound = ground arith;
      uses_bound = ground arith;
      both_or_none = ground arith;
      approved = ground arith;
      grant_approved = λ some_use. ground (arith, in_set-cases (get "decision" fields) known e);
    }

-- What is left of the parsing of a document that is built for the fingerprint that is expected.
document_verdict : String → Value → Result ApprovalResponse
unfolding grant_of is_null in_set raise_if
document_verdict decision grant = do
  known ← in_set ("approve" ∷ "deny" ∷ []) (some (str decision))
  raise_if (not known) (input_error "Approval response decision must be approve or deny.")
  limits ← grant_of (some grant)
  raise_if (equals_text "deny" (some (str decision)) && not (is_null (some grant)))
      (input_error "A denied approval response cannot create a grant.")
  ok (record {
    approved = equals_text "approve" (some (str decision));
    grant_ttl_seconds = limits.0;
    grant_max_uses = limits.1;
  })

parse-response_document :
    (fingerprint decision : String) (grant : Value)
    → is_hash fingerprint ≡ true
    → parse_approval_response (response_document fingerprint decision grant) fingerprint
      ≡ document_verdict decision grant
unfolding parse_approval_response document_verdict exactly_fields only_fields get equals_one
    equals_text
parse-response_document fingerprint decision grant h = rw (eq_refl fingerprint, h) refl

module _ ⦃u : Unicode⦄ where
  -- The words `approve`, or `grant` with a TTL and a number of uses in bounds.
  pub data WordsApprove (words : List String) (r : ApprovalResponse) : Type 0 where
    once : words ≡ "approve" ∷ [] → r.grant_max_uses ≡ 0 → WordsApprove words r
    with_grant :
        (ttl uses : String)
        → words ≡ "grant" ∷ ttl ∷ uses ∷ []
        → int_of_text ttl ≡ some (pos r.grant_ttl_seconds)
        → int_of_text uses ≡ some (pos r.grant_max_uses)
        → WordsApprove words r

  deny_verdict :
      (r : ApprovalResponse) → document_verdict "deny" null ≡ ok r → r.approved ≡ true → ⊥
  unfolding document_verdict equals_text
  deny_verdict r h a = ground arith

  approve_verdict :
      (r : ApprovalResponse) → document_verdict "approve" null ≡ ok r → r.grant_max_uses ≡ 0
  unfolding document_verdict equals_text
  approve_verdict r h = ground arith

  grant_verdict :
      (ttl uses : ℤ) (r : ApprovalResponse)
      → document_verdict "approve"
          (obj (field "ttl_seconds" (int ttl) (field "max_uses" (int uses) end)))
        ≡ ok r
      → (ttl ≡ pos r.grant_ttl_seconds) × (uses ≡ pos r.grant_max_uses)
  unfolding document_verdict equals_text get exactly_fields
  grant_verdict (pos t) (pos m) r h = ground arith
  grant_verdict (pos t) (negsuc m) r h = ground arith
  grant_verdict (negsuc t) m r h = ground arith

  grant_words :
      (ttl uses : Option ℤ) (r : ApprovalResponse)
      → document_verdict (grant_decision ttl uses).0 (grant_decision ttl uses).1 ≡ ok r
      → r.approved ≡ true
      → (ttl ≡ some (pos r.grant_ttl_seconds)) × (uses ≡ some (pos r.grant_max_uses))
  unfolding line_decision
  grant_words none uses r h a = absurd (deny_verdict r h a)
  grant_words (some t) none r h a = absurd (deny_verdict r h a)
  grant_words (some t) (some m) r h a =
      let (same_ttl, same_uses) = grant_verdict t m r h in (ap some same_ttl, ap some same_uses)

  verdict_words :
      (words : List String) (r : ApprovalResponse)
      → document_verdict (line_decision words).0 (line_decision words).1 ≡ ok r
      → r.approved ≡ true
      → WordsApprove words r
  unfolding line_decision
  verdict_words [] r h a = absurd (deny_verdict r h a)
  verdict_words (verb ∷ []) r h a = elim (Bool-cases (verb == "approve")) [
    | inl e ↦ once (ground (arith, eq_iff verb "approve")) (approve_verdict r (rw e at h))
    | inr e ↦ absurd (deny_verdict r (rw e at h) a)
  ]
  verdict_words (verb ∷ x ∷ []) r h a = absurd (deny_verdict r h a)
  verdict_words (verb ∷ ttl ∷ uses ∷ []) r h a = elim (Bool-cases (verb == "grant")) [
    | inl e ↦
        let (t, m) = grant_words (int_of_text ttl) (int_of_text uses) r (rw e at h) a in
        with_grant ttl uses (ground (arith, eq_iff verb "grant")) t m
    | inr e ↦ absurd (deny_verdict r (rw e at h) a)
  ]
  verdict_words (verb ∷ x ∷ y ∷ z ∷ ws) r h a = absurd (deny_verdict r h a)

  -- For a line of terminal input and a SHA-256 fingerprint, the parsed response approves only if
  -- the line is the word `approve`, with no grant, or `grant` with a TTL and uses that the response
  -- then has.
  pub response_from_line-approved :
      (line fingerprint : String) (r : ApprovalResponse)
      → is_hash fingerprint ≡ true
      → parse_approval_response (response_from_line line fingerprint) fingerprint ≡ ok r
      → r.approved ≡ true
      → WordsApprove (split line) r
  unfolding response_from_line
  response_from_line-approved line fingerprint r hashed h approved =
      verdict_words (split line) r (sym (parse-response_document fingerprint _ _ hashed) ∙ h)
        approved
