-- ===== src/Approval/Response.antt =====
-- Responses to an approval request in policylatch/approval.py: their parsing, and the response that a
-- line of terminal input stands for.
pub mod Laws
use mcp_guard.Base.{
  ℕ, zero, suc, ◌+◌, ◌*◌, String, Bool, true, false, not, ◌&&◌, ◌||◌, Option, none, some, List, [],
  ◌∷◌, map, leb, nat_eq, ◌==◌, if◌then◌else◌, split, Unicode,
}
use mcp_guard.Base.Int.{ℤ, pos, negsuc}
use mcp_guard.Fingerprint.{is_hash}
use mcp_guard.Json.{
  get, exactly_fields, equals_one, equals_text, in_set, Value, null, int, str, obj, Fields, end,
  field,
}
use mcp_guard.Result.{◌>>=◌, ◌>>◌, raise_if, input_error, Result, ok, err}
use Prim.Native.Char.{code, Char}

abbrev pub max_grant_ttl_seconds : ℕ
max_grant_ttl_seconds = 300

abbrev pub max_grant_uses : ℕ
max_grant_uses = 20

pub record ApprovalResponse : Type 0 where
  pub approved : Bool
  pub grant_ttl_seconds : ℕ
  pub grant_max_uses : ℕ

-- An `int` that is no `bool`, between 1 and the limit.
bounded_int : ℕ → Option Value → Option ℕ
bounded_int limit (some (int (pos n))) = if leb 1 n && leb n limit then some n else none
bounded_int limit _ = none

grant_pair : Option ℕ → Option ℕ → Option (ℕ × ℕ)
grant_pair (some ttl) (some uses) = some (ttl, uses)
grant_pair _ _ = none

-- The TTL and the uses of a grant object, if both are in bounds.
grant_fields : Fields → Option (ℕ × ℕ)
unfolding bounded_int grant_pair
grant_fields grant =
    if exactly_fields ("ttl_seconds" ∷ "max_uses" ∷ []) grant
    then grant_pair (bounded_int max_grant_ttl_seconds (get "ttl_seconds" grant))
        (bounded_int max_grant_uses (get "max_uses" grant))
    else none

grant_of : Option Value → Result (ℕ × ℕ)
unfolding grant_fields
grant_of none = ok (0, 0)
grant_of (some null) = ok (0, 0)
grant_of (some (obj grant)) = elim (grant_fields grant) [
  | some limits ↦ ok limits
  | none ↦ err (input_error "Approval grant TTL or use count is outside the bounded contract.")
]
grant_of (some _) =
    err (input_error "Approval grant TTL or use count is outside the bounded contract.")

is_null : Option Value → Bool
is_null none = true
is_null (some null) = true
is_null (some _) = false

abbrev response_fields : List String
response_fields = "schema_version" ∷ "kind" ∷ "request_fingerprint" ∷ "decision" ∷ "grant" ∷ []

unfoldable pub parse_approval_response : Fields → String → Result ApprovalResponse
unfolding grant_of is_null
parse_approval_response fields expected = do
  raise_if (not (exactly_fields response_fields fields))
      (input_error "Approval response fields do not match schema version 1.")
  raise_if
      (not (equals_one (get "schema_version" fields))
        || not (equals_text "approval_response" (get "kind" fields)))
      (input_error "Approval response contract is invalid.")
  raise_if (not (equals_text expected (get "request_fingerprint" fields)))
      (input_error "Approval response does not match the pending request fingerprint.")
  raise_if (not (is_hash expected))
      (input_error "Approval response request fingerprint is invalid.")
  known ← in_set ("approve" ∷ "deny" ∷ []) (get "decision" fields)
  raise_if (not known) (input_error "Approval response decision must be approve or deny.")
  limits ← grant_of (get "grant" fields)
  raise_if (equals_text "deny" (get "decision" fields) && not (is_null (get "grant" fields)))
      (input_error "A denied approval response cannot create a grant.")
  ok (record {
    approved = equals_text "approve" (get "decision" fields);
    grant_ttl_seconds = limits.0;
    grant_max_uses = limits.1;
  })

-- The document that `_response_from_line` builds.
abbrev pub response_document : String → String → Value → Fields
response_document request_fingerprint decision grant = field "schema_version" (int (pos 1)) (
    field "kind" (str "approval_response") (
      field "request_fingerprint" (str request_fingerprint)
        (field "decision" (str decision) (field "grant" grant end))))

-- Python's int(text): an optional sign, then digits with single underscores between them.
module _ ⦃u : Unicode⦄ where
  -- The flag tells whether the last character was a digit.
  digits_value : Bool → ℕ → String → Option ℕ
  digits_value ended acc String.[] = if ended then some acc else none
  digits_value ended acc (String.◌∷◌ c s) = elim (u.decimal (code c)) [
    | some d ↦ digits_value true (acc * 10 + d) s
    | none ↦
        let rest = digits_value false acc s in if ended && nat_eq (code c) b'_' then rest else none
  ]

  as_int : Option ℕ → Option ℤ
  as_int none = none
  as_int (some n) = some (pos n)

  negated : Option ℕ → Option ℤ
  negated none = none
  negated (some zero) = some (pos 0)
  negated (some (suc n)) = some (negsuc n)

  signed : Char → String → Option ℤ
  unfolding digits_value as_int negated
  signed c s =
      if nat_eq (code c) b'-'
      then negated (digits_value false 0 s)
      else if nat_eq (code c) b'+'
      then as_int (digits_value false 0 s)
      else as_int (digits_value false 0 (String.◌∷◌ c s))

  unfoldable pub int_of_text : String → Option ℤ
  unfolding signed
  int_of_text String.[] = none
  int_of_text (String.◌∷◌ c s) = signed c s

  grant_decision : Option ℤ → Option ℤ → String × Value
  grant_decision (some ttl) (some uses) =
      ("approve", obj (field "ttl_seconds" (int ttl) (field "max_uses" (int uses) end)))
  grant_decision _ _ = ("deny", null)

  -- The decision, and the TTL and uses of a grant.
  line_decision : List String → String × Value
  unfolding int_of_text grant_decision
  line_decision (verb ∷ []) = (if verb == "approve" then "approve" else "deny", null)
  line_decision (verb ∷ ttl ∷ uses ∷ []) =
      if verb == "grant"
      then grant_decision (int_of_text ttl) (int_of_text uses)
      else ("deny", null)
  line_decision _ = ("deny", null)

  unfoldable pub response_from_line : String → String → Fields
  unfolding line_decision split
  response_from_line line request_fingerprint =
      let (decision, grant) = line_decision (split line) in
      response_document request_fingerprint decision grant
