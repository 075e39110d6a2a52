-- ===== src/Validation.antt =====
-- policylatch/validation.py
use mcp_guard.Base.{
  ℕ, suc, ◌*◌, ◌^◌, ◌-◌, String, ◌<>◌, Bool, true, false, not, ◌&&◌, Option, none, some, List, [],
  ◌∷◌, length, filter, leb, nat_eq, ◌==◌, if◌then◌else◌, is_some, str_len, is_blank, Unicode,
}
use mcp_guard.Base.Int.{int_between, pos, negsuc}
use mcp_guard.Json.{
  get, has, only_fields, is_text, is_object, nonblank_text, Value, null, int, float, str, obj,
  Fields, in_set,
}
use mcp_guard.Result.{◌>>=◌, ◌>>◌, raise_if, input_error, overflow_error, Result, ok, err}

unfoldable pub required_text : Fields → String → String → Result String
required_text fields name location = elim (nonblank_text (get name fields)) [
  | some value ↦ ok value
  | none ↦ err (input_error (location <> ("." <> (name <> " must be a non-empty string."))))
]

-- `field in data and not isinstance(data[field], str)`
unfoldable pub present_not_text : String → Fields → Bool
present_not_text name fields = has name fields && not (is_text (get name fields))

-- The fields that hold a text that is not blank.
unfoldable pub network_fields : Fields → List String
unfolding nonblank_text
network_fields fields =
    filter (λ name. is_some (nonblank_text (get name fields))) ("url" ∷ "domain" ∷ [])

pub data Required : Type 0 where
  needs_command needs_path needs_url_or_domain : Required

-- The dict from an action type to its required field.
unfoldable pub required_field : String → Option Required
required_field action_type =
    if action_type == "shell"
    then some needs_command
    else if action_type == "file"
    then some needs_path
    else if action_type == "filesystem"
    then some needs_path
    else if action_type == "network"
    then some needs_url_or_domain
    else none

validate_required : Required → Fields → Result (Unit {0})
unfolding required_text present_not_text network_fields
validate_required needs_command action = do _ ← required_text action "command" "action"; ok tt
validate_required needs_path action = do _ ← required_text action "path" "action"; ok tt
validate_required needs_url_or_domain action = do
  raise_if (present_not_text "url" action)
      (input_error "action.url must be a string when provided.")
  raise_if (present_not_text "domain" action)
      (input_error "action.domain must be a string when provided.")
  raise_if (not (nat_eq (length (network_fields action)) 1))
      (input_error "Network actions must provide exactly one of action.url or action.domain.")

abbrev max_amount : ℕ
max_amount = 1000000000000

-- `math.isfinite` raises OverflowError at an int that rounds to no float.
unfoldable pub is_huge : Option Value → Bool
is_huge (some (int (pos n))) = leb (2 ^ 1024 - 2 ^ 970) n
is_huge (some (int (negsuc n))) = leb (2 ^ 1024 - 2 ^ 970) (suc n)
is_huge _ = false

-- None, or a number that is finite and between 0 and the bound.
valid_impact : Option Value → Bool
valid_impact none = true
valid_impact (some null) = true
valid_impact (some (int n)) = int_between 0 n max_amount
valid_impact (some (float (pos z) k)) = leb z (max_amount * 2 ^ k)
valid_impact (some _) = false

valid_payload_bytes : Option Value → Bool
valid_payload_bytes none = true
valid_payload_bytes (some null) = true
valid_payload_bytes (some (int n)) = int_between 0 n max_amount
valid_payload_bytes (some _) = false

valid_target_id : Option Value → Bool
valid_target_id none = true
valid_target_id (some null) = true
valid_target_id (some (str s)) = not (is_blank s) && leb (str_len s) 256
valid_target_id (some _) = false

validate_budget : Option Value → Result (Unit {0})
unfolding valid_impact valid_payload_bytes valid_target_id
validate_budget none = ok tt
validate_budget (some (obj budget)) = do
  raise_if
      (not (only_fields ("confirmation" ∷ "impact" ∷ "payload_bytes" ∷ "target_id" ∷ []) budget))
      (input_error "action.budget must contain only supported budget fields.")
  known ← in_set ("confirmed" ∷ "estimated" ∷ "unknown" ∷ []) (get "confirmation" budget)
  raise_if (not known) (input_error "action.budget.confirmation is invalid.")
  raise_if (is_huge (get "impact" budget)) (overflow_error "int too large to convert to float")
  raise_if (not (valid_impact (get "impact" budget)))
      (input_error "action.budget.impact must be a finite non-negative number.")
  raise_if (not (valid_payload_bytes (get "payload_bytes" budget)))
      (input_error "action.budget.payload_bytes must be a non-negative integer.")
  raise_if (not (valid_target_id (get "target_id" budget)))
      (input_error "action.budget.target_id must be a non-empty string up to 256 chars.")
validate_budget (some _) =
    err (input_error "action.budget must contain only supported budget fields.")

module _ ⦃u : Unicode⦄ where
  -- Returns the required field of the action, beside the check.
  unfoldable pub validate_action : Fields → Result (Unit {0})
  unfolding validate_required validate_budget required_field required_text present_not_text
  validate_action action = do
    action_type ← required_text action "action_type" "action"
    required ← (elim (required_field (u.lower action_type)) [
      | some r ↦ ok r
      | none ↦ err (
          input_error (
            "Unsupported action.action_type '"
            <> (u.lower action_type <> "'. Supported: file, filesystem, network, shell.")))
    ])
    validate_required required action
    raise_if (present_not_text "actor" action)
        (input_error "action.actor must be a string when provided.")
    raise_if (present_not_text "tool" action)
        (input_error "action.tool must be a string when provided.")
    raise_if (has "metadata" action && not (is_object (get "metadata" action)))
        (input_error "action.metadata must be an object when provided.")
    validate_budget (get "budget" action)
