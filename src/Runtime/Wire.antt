-- ===== src/Runtime/Wire.antt =====
-- The messages of policylatch/runtime_gateway.py: lines of JSON, request ids, control messages.
use mcp_guard.Approval.Request.{sorted_set, texts}
use mcp_guard.Base.{
  ℕ, suc, ◌*◌, ◌^◌, String, ◌<>◌, Bool, true, false, not, ◌&&◌, ◌||◌, Option, none, some, List, [],
  ◌∷◌, length, ltb, nat_eq, ◌==◌, if◌then◌else◌, is_empty,
}
use mcp_guard.Base.Int.{int_eq, ℤ, pos, negsuc}
use mcp_guard.Evaluator.{text_of}
use mcp_guard.Gateway.{typed_id, object_field, RequestId, no_id, text_id, int_id}
use mcp_guard.Json.{
  get, has, equals_text, is_object, in_set, Value, null, bool, int, float, str, arr, obj, Items,
  nil, cons, Fields, end, field,
}
use mcp_guard.Result.{◌>>=◌, ◌>>◌, raise_if, runtime_error, Result, ok, err}
use mcp_guard.Runtime.Session.{phase_eq, Phase, new, initialized, ready}

abbrev pub max_message_bytes : ℕ
max_message_bytes = 1048576

-- The JSON text of a value and back, by the json module and the UTF-8 codec. `decode` keeps every
-- pair of an object, and fails on the constants NaN and Infinity; `encode` fails where the text of
-- the value has no UTF-8 encoding.
pub record Codec : Type 0 where
  pub decode : List ℕ → Option Value
  pub encode : Value → Option (List ℕ)

-- _unique_object, at every object of the value
unfoldable mutual
  pub has_unique_keys : Value → Bool
  has_unique_keys (arr xs) = items_unique xs
  has_unique_keys (obj fs) = fields_unique fs
  has_unique_keys _ = true

  items_unique : Items → Bool
  items_unique nil = true
  items_unique (cons v vs) = has_unique_keys v && items_unique vs

  fields_unique : Fields → Bool
  fields_unique end = true
  fields_unique (field k v fs) = not (has k fs) && (has_unique_keys v && fields_unique fs)

unfoldable pub ends_newline : List ℕ → Bool
ends_newline [] = false
ends_newline (b ∷ []) = nat_eq b 10
ends_newline (b ∷ c ∷ bs) = ends_newline (c ∷ bs)

-- What json.loads returns with the two hooks.
loads : Codec → List ℕ → Option Value
loads codec raw = elim (codec.decode raw) [
  | some v ↦ if has_unique_keys v then some v else none
  | none ↦ none
]

as_object : String → Option Value → Result Fields
as_object label none = err (runtime_error (label <> " is not a valid bounded UTF-8 JSON object."))
as_object label (some (obj fs)) = ok fs
as_object label (some _) = err (runtime_error (label <> " must be a JSON object."))

unfoldable pub parse_json_line : Codec → List ℕ → String → Result Fields
unfolding ends_newline loads as_object
parse_json_line codec raw label = do
  raise_if (ltb max_message_bytes (length raw))
      (runtime_error (label <> " exceeds the message byte limit."))
  raise_if (not (ends_newline raw)) (runtime_error (label <> " is not newline-delimited."))
  as_object label (loads codec raw)

unfoldable pub request_id_of : Fields → Result RequestId
request_id_of message = elim (typed_id (get "id" message)) [
  | some i ↦ ok i
  | none ↦ err (runtime_error "JSON-RPC request id must be a string, integer, or null.")
]

unfoldable pub id_eq : RequestId → RequestId → Bool
id_eq no_id no_id = true
id_eq (text_id s) (text_id t) = s == t
id_eq (int_id m) (int_id n) = int_eq m n
id_eq _ _ = false

unfoldable pub has_seen : List RequestId → RequestId → Bool
has_seen [] i = false
has_seen (j ∷ js) i = id_eq j i || has_seen js i

-- response.get("id") == request_id, where True == 1 and 1.0 == 1
unfoldable pub answers : Option Value → RequestId → Bool
answers none no_id = true
answers (some null) no_id = true
answers (some (str s)) (text_id t) = s == t
answers (some (int m)) (int_id n) = int_eq m n
answers (some (bool true)) (int_id n) = int_eq (pos 1) n
answers (some (bool false)) (int_id n) = int_eq (pos 0) n
answers (some (float (pos z) k)) (int_id (pos n)) = nat_eq z (n * 2 ^ k)
answers (some (float (negsuc z) k)) (int_id (negsuc n)) = nat_eq (suc z) (suc n * 2 ^ k)
answers _ _ = false

abbrev pub control_methods : List String
control_methods = "initialize" ∷ "notifications/initialized" ∷ "ping" ∷ "tools/list" ∷ []

abbrev pub protocol_version : String
protocol_version = "2025-11-25"

-- message.get("params", {}), if that is an object
unfoldable pub control_params : Fields → Result Fields
control_params message =
    if has "params" message
    then elim (object_field "params" message) [
      | some params ↦ ok params
      | none ↦ err (runtime_error "Runtime control params must be an object when provided.")
    ]
    else ok end

-- Returns the method and whether the message is a notification.
unfoldable pub validate_control_message : Fields → Phase → Result (String × Bool)
unfolding control_params
validate_control_message message phase = do
  raise_if (not (equals_text "2.0" (get "jsonrpc" message)))
      (runtime_error "Runtime messages must use JSON-RPC 2.0.")
  known ← in_set control_methods (get "method" message)
  raise_if (not known) (runtime_error "Runtime gateway received an unsupported MCP method.")
  params ← control_params message
  let method = text_of "method" message
  let notification = not (has "id" message)
  let initialize = method == "initialize"
  raise_if (initialize && (not (phase_eq phase new) || notification))
      (runtime_error "MCP initialize must be one request at session start.")
  raise_if (initialize && not (equals_text protocol_version (get "protocolVersion" params)))
      (runtime_error "Runtime gateway requires MCP protocol revision 2025-11-25.")
  raise_if (initialize && not (is_object (get "capabilities" params)))
      (runtime_error "MCP initialize capabilities must be an object.")
  raise_if (initialize && not (is_object (get "clientInfo" params)))
      (runtime_error "MCP initialize clientInfo must be an object.")
  raise_if
      (method == "notifications/initialized"
        && (not (phase_eq phase initialized) || not notification))
      (runtime_error "MCP initialized notification is out of sequence.")
  raise_if (method == "tools/list" && not (phase_eq phase ready))
      (runtime_error "MCP tools/list requires an initialized session.")
  ok (method, notification)

-- What `_LineReader.next` gives: the bytes of a line, or the error that it raises. The loop of
-- `_read_correlated_response` returns or raises in its first pass.
unfoldable pub read_correlated_response : Codec → Result (List ℕ) → RequestId → Result Fields
read_correlated_response codec next request_id = do
  raw ← next
  raise_if (is_empty raw) (runtime_error "Upstream closed stdout before responding.")
  response ← parse_json_line codec raw "Upstream response"
  raise_if (not (equals_text "2.0" (get "jsonrpc" response)))
      (runtime_error "Upstream response must use JSON-RPC 2.0.")
  raise_if (has "method" response && not (has "id" response))
      (runtime_error "Upstream notifications are unsupported by the sequential gateway.")
  raise_if (not (answers (get "id" response) request_id))
      (runtime_error "Upstream response id does not match the request.")
  raise_if (if has "result" response then has "error" response else not (has "error" response))
      (runtime_error "Upstream response must contain exactly one result or error.")
  ok response

unfoldable pub validate_initialize_response : Fields → Result (Unit {0})
validate_initialize_response response = do
  result ← (elim (object_field "result" response) [
    | some r ↦ ok r
    | none ↦ err (runtime_error "Upstream did not negotiate MCP protocol revision 2025-11-25.")
  ])
  raise_if (not (equals_text protocol_version (get "protocolVersion" result)))
      (runtime_error "Upstream did not negotiate MCP protocol revision 2025-11-25.")
  raise_if (not (is_object (get "capabilities" result)))
      (runtime_error "Upstream initialize capabilities must be an object.")

id_value : RequestId → Value
id_value no_id = null
id_value (text_id s) = str s
id_value (int_id n) = int n

unfoldable pub local_error : RequestId → ℤ → String → String → List String → Value
unfolding id_value
local_error request_id error_code message decision rules = obj (
    field "jsonrpc" (str "2.0") (
      field "id" (id_value request_id) (
        field "error"
          (obj (
            field "code" (int error_code) (
              field "message" (str message) (
                field "data"
                  (obj (
                    field "decision" (str decision) (
                      field "forwarded" (bool false)
                        (field "rules" (arr (texts (sorted_set rules))) end))))
                  end))))
          end)))
