-- ===== src/Gateway/Parsing.antt =====
-- Which requests policylatch/gateway.py reads as tool calls.
use mcp_guard.Base.{
  ◌≤◌, ◌≡◌, refl, ap, ◌∙◌, true, Option, none, some, arith, str_len, String, sym, false, not, leb,
}
use mcp_guard.Gateway.{
  max_tool_name_chars, typed_id, object_field, call_arguments, parse_mcp_tool_call, from_option,
  McpToolCall,
}
use mcp_guard.Json.{get, has, equals_text, nonblank_text, Fields}
use mcp_guard.Result.{◌>>=◌, raise_if-eq-ok, ok-injective, Error, Result, ok}

from_option-eq-ok {ℓ κ} :
    {A : Type ℓ} {B : Type κ} (e : Error) (o : Option A) (f : A → Result B) {b : B}
    → (from_option e o >>= f) ≡ ok b
    → (a : A) × (o ≡ some a) × (f a ≡ ok b)
unfolding from_option
from_option-eq-ok e none f h = cc
from_option-eq-ok e (some a) f h = (a, refl, h)

name-fits :
    (found name : String)
    → not (leb (str_len found) max_tool_name_chars) ≡ false
    → found ≡ name
    → str_len name ≤ max_tool_name_chars
name-fits found name short e = rw (sym e) (ground arith)

-- The fields of the call are those of the request, within the bounds.
pub record IsParsed (request : Fields) (call : McpToolCall) : Type 0 where
  pub params : Fields
  pub version : equals_text "2.0" (get "jsonrpc" request) ≡ true
  pub method : equals_text "tools/call" (get "method" request) ≡ true
  pub has_id : typed_id (get "id" request) ≡ some call.request_id
  pub has_params : object_field "params" request ≡ some params
  pub has_name : nonblank_text (get "name" params) ≡ some call.name
  pub name_fits : str_len call.name ≤ max_tool_name_chars
  pub has_arguments : call_arguments params ≡ some call.arguments
  pub task : has "task" params ≡ call.task_augmented

-- A request that is read is JSON-RPC 2.0 with the method tools/call, and the id, the name, the
-- arguments and the task flag of the call are those of the request; the name is not blank and has
-- at most 256 characters.
pub parse_mcp_tool_call-IsParsed :
    (request : Fields) (call : McpToolCall)
    → parse_mcp_tool_call request ≡ ok call
    → IsParsed request call
unfolding parse_mcp_tool_call
parse_mcp_tool_call-IsParsed request call h =
    let (version, h1) = raise_if-eq-ok _ _ _ h in
    let (method, h2) = raise_if-eq-ok _ _ _ h1 in
    let (id, has_id, h3) = from_option-eq-ok _ _ _ h2 in
    let (id_ok, h4) = raise_if-eq-ok _ _ _ h3 in
    let (params, has_params, h5) = from_option-eq-ok _ _ _ h4 in
    let (name, has_name, h6) = from_option-eq-ok _ _ _ h5 in
    let (short, h7) = raise_if-eq-ok _ _ _ h6 in
    let (arguments, has_arguments, h8) = from_option-eq-ok _ _ _ h7 in
    let (task_ok, h9) = raise_if-eq-ok _ _ _ h8 in
    let e = ok-injective h9 in
    record {
      params = params;
      version = ground arith;
      method = ground arith;
      has_id = has_id ∙ ap (λ (c : McpToolCall). some c.request_id) e;
      has_params = has_params;
      has_name = has_name ∙ ap (λ (c : McpToolCall). some c.name) e;
      name_fits = name-fits name call.name short (ap (λ (c : McpToolCall). c.name) e);
      has_arguments = has_arguments ∙ ap (λ (c : McpToolCall). some c.arguments) e;
      task = ap (λ (c : McpToolCall). c.task_augmented) e;
    }
