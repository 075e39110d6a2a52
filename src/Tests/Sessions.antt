-- ===== src/Tests/Sessions.antt =====
-- Examples for the stdio gateway of policylatch/runtime_gateway.py.
use mcp_guard.Tests.{plain_text}
use mcp_guard.Approval.Provider.{Terminal}
use mcp_guard.Approval.Request.{ScanReport, clean}
use mcp_guard.Base.{◌≡◌, refl, ◌⊎◌, true, false, none, some, [], ◌∷◌, strip}
use mcp_guard.Base.Int.{pos}
use mcp_guard.Gateway.{no_id, object_field}
use mcp_guard.Json.{
  int, str, obj, Fields, end, field, get, has, equals_text, is_object, as_text, in_set, arr, null,
  cons, nil, exactly_fields, equals_one, nonblank_text,
}
use mcp_guard.Models.{allow}
use mcp_guard.Result.{ok, raise_if}
use mcp_guard.Runtime.Forwarding.{upstream}
use mcp_guard.Runtime.Forwarding.Step.{step-Forwards, Forwards}
use mcp_guard.Runtime.Ids.{run_session-OnceEach}
use mcp_guard.Runtime.Ids.Lines.{OnceEach}
use mcp_guard.Runtime.Lifecycle.{validate_control_message-InOrder, InOrder, Advances}
use mcp_guard.Runtime.Lifecycle.Step.{step-Advances}
use mcp_guard.Runtime.Loop.{step, run_session}
use mcp_guard.Runtime.Session.{Session, new, return, lift, count}
use mcp_guard.Runtime.Turn.{Gateway, Turn}
use mcp_guard.Evaluator.{text_of}
use mcp_guard.Runtime.Wire.{validate_control_message}
use mcp_guard.Runtime.Relay.{screen}
use mcp_guard.Runtime.Release.{screen-Screened, Screened}
use mcp_guard.Runtime.Config.{
  parse_upstream_config, UpstreamConfig, Host, is_argument, read_argv, read_server_id, read_cwd,
}
use mcp_guard.Runtime.Config.Bounds.{IsConfig, parse_upstream_config-IsConfig}
use mcp_guard.Policy.Validate.{text_items, text_list}

abbrev initialize : Fields
initialize = field "jsonrpc" (str "2.0") (
    field "id" (int (pos 1)) (
      field "method" (str "initialize") (
        field "params"
          (obj (
            field "protocolVersion" (str "2025-11-25")
              (field "capabilities" (obj end) (field "clientInfo" (obj end) end))))
          end)))

abbrev report : ScanReport
report = record {
  outcome = clean;
  decision = allow;
  reasons = [];
  result_fingerprint = "";
  tool_fingerprint = "";
  receipt_fingerprint = "";
}

-- Every line of the client is the initialize request.
abbrev gateway : Gateway
gateway = record {
  codec = record { decode = λ raw. some (obj initialize); encode = λ v. some (123 ∷ 125 ∷ []) };
  hashing = record { fingerprint = λ label v. none };
  ticks_per_second = 1000;
  policy = record { default_decision = allow; rules = []; budgets = [] };
  upstream_fingerprint = "";
  policy_hash = "";
  scan = λ request response. ok report;
}

abbrev terminal : Terminal
terminal = record { now = 0; raw_line = none; later = 0 }

abbrev turn : Turn
turn = record {
  line = 123 ∷ 125 ∷ 10 ∷ [];
  upstream_writable = true;
  upstream_line = none;
  client_writable = true;
  error_writable = true;
  call_terminal = terminal;
  result_terminal = terminal;
}

abbrev start : Session
start = record {
  phase = new;
  request_id = no_id;
  seen_ids = [];
  summary = record {
    forwarded = 0;
    blocked = 0;
    approved = 0;
    grant_reuses = 0;
    response_clean = 0;
    response_review = 0;
    response_blocked = 0;
    response_approved = 0;
    control_messages = 0;
    protocol_errors = 0;
  };
  provider = none;
  sent = [];
}

step-Forwards_example :
    (upstream (step gateway turn start).1.sent ≡ [])
    ⊎ ((upstream (step gateway turn start).1.sent ≡ (123 ∷ 125 ∷ 10 ∷ []) ∷ [])
        × Forwards gateway turn start)
step-Forwards_example = step-Forwards gateway turn start

run_session-OnceEach_example :
    OnceEach gateway (upstream (run_session gateway 10 (turn ∷ turn ∷ []) start).1.sent)
run_session-OnceEach_example = run_session-OnceEach gateway 10 (turn ∷ turn ∷ []) start refl

step-Advances_example : Advances new (step gateway turn start).1.phase
step-Advances_example = step-Advances gateway turn start

validate_control_message-InOrder_example : InOrder new "initialize" false
unfolding validate_control_message raise_if equals_text get in_set has object_field text_of as_text
    is_object
validate_control_message-InOrder_example =
    validate_control_message-InOrder initialize new "initialize" false refl

screen-Screened_example : Screened gateway start initialize initialize terminal
unfolding screen lift count return
screen-Screened_example = screen-Screened gateway initialize initialize turn start _ refl

abbrev host : Host
host = record { encodes = λ s. true; resolve = λ path. none }

abbrev upstream_document : Fields
upstream_document = field "schema_version" (int (pos 1)) (
    field "server_id" (str "demo")
      (field "argv" (arr (cons (str "python") nil)) (field "cwd" null end)))

abbrev config : UpstreamConfig
config = record { server_id = "demo"; argv = "python" ∷ []; cwd = none }

parse_upstream_config-IsConfig_example : IsConfig host upstream_document config
unfolding parse_upstream_config raise_if exactly_fields equals_one read_server_id nonblank_text
    read_argv text_list text_items is_argument read_cwd strip
parse_upstream_config-IsConfig_example =
    parse_upstream_config-IsConfig host upstream_document config refl
