-- ===== src/Gateway/Trace.antt =====
-- policylatch/gateway_trace.py: the replay of a file of recorded requests. The detail of a decoding error
-- is left out of the message.
pub mod Laws
pub mod Replay
use mcp_guard.Base.{
  ℕ, suc, ◌+◌, String, ◌<>◌, Bool, ◌&&◌, ◌||◌, Option, none, some, List, [], ◌∷◌, ◌++◌, map, length,
  filter, ltb, leb, nat_eq, if◌then◌else◌, all, is_empty, decimal_text, Unicode,
}
use mcp_guard.Base.Int.{pos}
use mcp_guard.Evaluator.Laws.{verdict}
use mcp_guard.Gateway.{evaluate_mcp_request, GatewayResult}
use mcp_guard.Json.{Value, obj, int}
use mcp_guard.Jsonl.{Coding}
use mcp_guard.Jsonl.Loop.{each_line}
use mcp_guard.Models.{decision_eq, aggregate, Decision, allow, warn, deny, RiskLevel}
use mcp_guard.Policy.{Policy}
use mcp_guard.Result.{
  ◌>>=◌, ◌>>◌, raise_if, Error, input_error, runtime_error, trace_error, Result, err, ok,
}

abbrev pub max_trace_line_bytes : ℕ
max_trace_line_bytes = 1048576

abbrev pub max_trace_total_bytes : ℕ
max_trace_total_bytes = 8388608

abbrev pub max_trace_records : ℕ
max_trace_records = 1000

-- The bytes of the file, or what the operating system says instead.
pub data TraceFile : Type 0 where
  not_read : String → TraceFile
  bytes_read : List ℕ → TraceFile

pub record TraceState : Type 0 where
  pub line_number : ℕ
  pub total_bytes : ℕ
  pub results : List GatewayResult

-- max_records, if it is a positive integer
unfoldable pub record_limit : Value → Result ℕ
record_limit (int (pos (suc n))) = ok (suc n)
record_limit _ = err (trace_error "max_records must be a positive integer.")

-- not raw.strip()
unfoldable pub is_blank_line : List ℕ → Bool
is_blank_line raw = all (λ b. nat_eq b 32 || (leb 9 b && leb b 13)) raw

unfoldable pub line_error : ℕ → String → Error
line_error n detail =
    trace_error ("Invalid gateway trace record at line " <> (decimal_text n <> (": " <> detail)))

-- The errors that the handler turns into a GatewayTraceError; others leave the loop as they are.
unfoldable pub rewrap {ℓ} : {A : Type ℓ} → ℕ → Result A → Result A
unfolding line_error
rewrap n (ok a) = ok a
rewrap n (err (input_error m)) = err (line_error n m)
rewrap n (err (runtime_error m)) = err (line_error n m)
rewrap n (err e) = err e

unfoldable pub first_state : TraceState
first_state = record { line_number = 0; total_bytes = 0; results = [] }

-- What follows the loop. The fuel is never used up (Jsonl/Loop).
unfoldable pub trace_results : Option (Result TraceState) → Result (List GatewayResult)
trace_results none = err (runtime_error "unreachable")
trace_results (some (err e)) = err e
trace_results (some (ok s)) =
    if is_empty s.results
    then err (trace_error "Gateway trace must contain at least one tools/call request.")
    else ok s.results

module _ ⦃u : Unicode⦄ (c : Coding) (policy : Policy) where
  unfoldable pub trace_result : ℕ → Option Value → Result GatewayResult
  unfolding rewrap line_error
  trace_result n none = err (line_error n "not a JSON text in UTF-8")
  trace_result n (some (obj payload)) = rewrap n (evaluate_mcp_request payload policy)
  trace_result n (some _) = err (line_error n "MCP trace record must be a JSON object.")

  -- The part of the body on a line that is not blank.
  unfoldable pub trace_record : ℕ → List ℕ → TraceState → Result TraceState
  unfolding trace_result
  trace_record max_records raw s = do
    raise_if (leb max_records (length s.results))
        (trace_error ("Gateway trace exceeds " <> (decimal_text max_records <> " records.")))
    result ← trace_result s.line_number (c.loads raw)
    ok (record {
      line_number = s.line_number;
      total_bytes = s.total_bytes;
      results = s.results ++ result ∷ [];
    })

  -- The body, from the counters on.
  unfoldable pub trace_counted : ℕ → List ℕ → TraceState → Result TraceState
  unfolding trace_record
  trace_counted max_records raw s = do
    raise_if (ltb max_trace_line_bytes (length raw))
        (trace_error ("Gateway trace line " <> (decimal_text s.line_number <> " is too large.")))
    raise_if (ltb max_trace_total_bytes s.total_bytes)
        (trace_error "Gateway trace exceeds the 8388608-byte total limit.")
    if is_blank_line raw then ok s else trace_record max_records raw s

  unfoldable pub trace_line : ℕ → List ℕ → TraceState → Result TraceState
  unfolding trace_counted
  trace_line max_records raw s = trace_counted max_records raw (record {
    line_number = suc s.line_number;
    total_bytes = s.total_bytes + length raw;
    results = s.results;
  })

  unfoldable pub load_gateway_trace : TraceFile → Value → Result (List GatewayResult)
  load_gateway_trace file limit = do
    max_records ← record_limit limit
    elim file [
      | not_read m ↦ err (trace_error ("Could not read gateway trace: " <> m))
      | bytes_read bytes ↦ trace_results (
          each_line (max_trace_line_bytes + 1) (trace_line max_records) (length bytes + 1) bytes
            first_state)
    ]

-- The document of a replay: what varies of it.
pub record TraceDocument : Type 0 where
  pub decision : Decision
  pub risk_level : RiskLevel
  pub total : ℕ
  pub allowed : ℕ
  pub warned : ℕ
  pub denied : ℕ
  pub results : List GatewayResult

-- sum(result.evaluation.decision == name for result in results)
unfoldable pub decision_count : Decision → List GatewayResult → ℕ
decision_count d results =
    length (filter (λ (r : GatewayResult). decision_eq r.evaluation.decision d) results)

unfoldable pub gateway_trace_document : List GatewayResult → Result TraceDocument
unfolding decision_count
gateway_trace_document results = do
  raise_if (is_empty results) (trace_error "Gateway trace results cannot be empty.")
  verdict ← aggregate (map (λ (r : GatewayResult). r.evaluation) results)
  ok (record {
    decision = verdict.0;
    risk_level = verdict.1;
    total = length results;
    allowed = decision_count allow results;
    warned = decision_count warn results;
    denied = decision_count deny results;
    results = results;
  })
