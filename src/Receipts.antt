-- ===== src/Receipts.antt =====
-- policylatch/receipts.py: the check of a decision receipt.
pub mod Issue
use mcp_guard.Base.{
  String, ◌<>◌, Bool, true, false, not, ◌&&◌, ◌||◌, Option, some, [], ◌∷◌, nat_eq, ◌==◌,
  if◌then◌else◌,
}
use mcp_guard.Base.Int.{pos}
use mcp_guard.Fingerprint.{is_hash}
use mcp_guard.Json.{
  get, exactly_fields, equals_one, equals_text, is_text, is_object, in_set, Fields, field, end,
  Value, obj, arr, str, int, float, bool, Items, cons, nil,
}
use mcp_guard.Jsonl.{hash, Coding}
use mcp_guard.Result.{◌>>=◌, ◌>>◌, raise_if, for_each, input_error, Result, ok}

-- The object under a name that is known to hold one.
unfoldable pub object_in : Option Value → Fields
object_in (some (obj inner)) = inner
object_in _ = end

unfoldable pub object_at : String → Fields → Fields
unfolding object_in
object_at name fields = object_in (get name fields)

unfoldable pub all_items : (Value → Bool) → Items → Bool
all_items p nil = true
all_items p (cons x xs) = p x && all_items p xs

-- isinstance(v, list) and all(p(item) for item in v)
unfoldable pub is_list_of : (Value → Bool) → Option Value → Bool
unfolding all_items
is_list_of p (some (arr xs)) = all_items p xs
is_list_of p _ = false

abbrev pub text_value : Value → Bool
text_value v = is_text (some v)

-- isinstance(v, str) and _HASH.fullmatch(v)
unfoldable pub is_fingerprint : Option Value → Bool
is_fingerprint (some (str s)) = is_hash s
is_fingerprint _ = false

-- value == False, which holds of 0 and 0.0 too
equals_false : Option Value → Bool
equals_false (some (bool b)) = not b
equals_false (some (int (pos n))) = nat_eq n 0
equals_false (some (float (pos z) k)) = nat_eq z 0
equals_false _ = false

abbrev values : Fields → Items
values end = nil
values (field k v fs) = cons v (values fs)

-- One element of the rules.
valid_rule : Value → Bool
unfolding all_items
valid_rule (obj rule) =
    exactly_fields ("id" ∷ "effect" ∷ "source" ∷ []) rule
    && (all_items text_value (values rule)
        && (equals_text "warn" (get "effect" rule) || equals_text "deny" (get "effect" rule)))
valid_rule _ = false

-- core.pop(name)
unfoldable pub without : String → Fields → Fields
without name end = end
without name (field k v fs) =
    let rest = without name fs in if k == name then rest else field k v rest

check_shape : Fields → Result (Unit {0})
check_shape receipt = do
  raise_if
      (not (
        exactly_fields
          ("schema_version" ∷ "kind" ∷ "evaluator" ∷ "policy" ∷ "request" ∷ "decision" ∷ "rules"
            ∷ "execution" ∷ "extensions" ∷ "receipt_fingerprint" ∷ [])
          receipt))
      (input_error "Decision receipt fields do not match schema version 1.")
  raise_if (not (equals_one (get "schema_version" receipt)))
      (input_error "Only decision receipt schema version 1 is supported.")
  raise_if (not (equals_text "decision_receipt" (get "kind" receipt)))
      (input_error "Decision receipt kind must be decision_receipt.")
  decided ← in_set ("allow" ∷ "warn" ∷ "deny" ∷ []) (get "decision" receipt)
  raise_if (not decided) (input_error "Decision receipt decision is invalid.")
  for_each
      (λ name.
        raise_if (not (is_object (get name receipt)))
          (input_error ("Decision receipt " <> (name <> " must be an object."))))
      ("evaluator" ∷ "policy" ∷ "request" ∷ "execution" ∷ "extensions" ∷ [])

check_parts : Fields → Result (Unit {0})
unfolding object_at is_list_of equals_false valid_rule
check_parts receipt = do
  let evaluator = object_at "evaluator" receipt
  raise_if
      (not (
        exactly_fields ("name" ∷ "version" ∷ []) evaluator
        && (equals_text "policylatch" (get "name" evaluator) && is_text (get "version" evaluator))))
      (input_error "Decision receipt evaluator is invalid.")
  let policy = object_at "policy" receipt
  raise_if
      (not (
        exactly_fields ("hash" ∷ "profiles" ∷ "sources" ∷ []) policy
        && (is_list_of text_value (get "profiles" policy)
            && is_list_of text_value (get "sources" policy))))
      (input_error "Decision receipt policy provenance is invalid.")
  let request = object_at "request" receipt
  raise_if
      (not (
        exactly_fields ("projection" ∷ "fingerprint" ∷ []) request
        && is_text (get "projection" request)))
      (input_error "Decision receipt request projection is invalid.")
  let execution = object_at "execution" receipt
  raise_if
      (not (exactly_fields ("claimed" ∷ []) execution && equals_false (get "claimed" execution)))
      (input_error "Decision receipt cannot claim tool execution.")
  raise_if (not (is_list_of valid_rule (get "rules" receipt)))
      (input_error "Decision receipt rules are invalid.")
  raise_if
      (not (
        is_fingerprint (get "receipt_fingerprint" receipt)
        && (is_fingerprint (get "hash" policy) && is_fingerprint (get "fingerprint" request))))
      (input_error "Decision receipt contains an invalid SHA-256 fingerprint.")

unfoldable pub validate_receipt : Coding → Fields → Result Fields
unfolding check_shape check_parts without
validate_receipt c receipt = do
  check_shape receipt
  check_parts receipt
  fingerprint ← hash c (obj (without "receipt_fingerprint" receipt))
  raise_if (not (equals_text fingerprint (get "receipt_fingerprint" receipt)))
      (input_error "Decision receipt fingerprint does not match its canonical content.")
  ok receipt
