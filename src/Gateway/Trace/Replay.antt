-- ===== src/Gateway/Trace/Replay.antt =====
-- The replay of policylatch/gateway_trace.py as a whole: the file, its results and the document.
use mcp_guard.Base.{
  ℕ, zero, suc, ◌+◌, ◌≤◌, ◌≡◌, refl, sym, inl, inr, false, some, List, [], ◌∷◌, map, arith, length,
  All, Bool-cases, is_empty, Unicode, ap,
}
use mcp_guard.Base.Int.{pos}
use mcp_guard.Gateway.{GatewayResult}
use mcp_guard.Gateway.Trace.{
  max_trace_line_bytes, max_trace_total_bytes, record_limit, first_state, trace_results, trace_line,
  load_gateway_trace, decision_count, gateway_trace_document, bytes_read, TraceState, TraceDocument,
}
use mcp_guard.Gateway.Trace.Laws.{IsEvaluation, trace_line-TraceInvariant, TraceInvariant}
use mcp_guard.Json.{int}
use mcp_guard.Jsonl.{Coding, read_line}
use mcp_guard.Jsonl.Loop.{each_line, each_line_total, each_line-keeps}
use mcp_guard.Models.{rank, risk_for, aggregate, Evaluation, Decision, allow, warn, deny, highest}
use mcp_guard.Models.Order.{highest_lem}
use mcp_guard.Policy.{Policy}
use mcp_guard.Result.{raise_if, ok-injective, Result, ok, err}
use mcp_guard.Gateway.Gate.{nil_of_is_empty}
use mcp_guard.Jsonl.Lines.{read_line_end}
use mathlib.Core.Path.{subst}

count_total :
    (rs : List GatewayResult)
    → decision_count allow rs + decision_count warn rs + decision_count deny rs ≡ length rs
unfolding decision_count
count_total [] = refl
count_total (r ∷ rs) = counted (count_total rs) r.evaluation.decision refl
  where
    counted :
        decision_count allow rs + decision_count warn rs + decision_count deny rs ≡ length rs
        → (d : Decision) → r.evaluation.decision ≡ d
        → decision_count allow (r ∷ rs)
            + decision_count warn (r ∷ rs)
            + decision_count deny (r ∷ rs)
          ≡ suc (length rs)
    counted sum allow e = rw e (omega (arith, sum))
    counted sum warn e = rw e (omega (arith, sum))
    counted sum deny e = rw e (omega (arith, sum))

-- Every result counts, and none outranks the decision of the document.
pub record IsSummary (results : List GatewayResult) (doc : TraceDocument) : Type 0 where
  pub same : doc.results ≡ results
  pub total : doc.total ≡ length results
  pub parts : doc.allowed + doc.warned + doc.denied ≡ doc.total
  pub top : All (λ (r : GatewayResult). rank r.evaluation.decision ≤ rank doc.decision) results
  pub rated : doc.risk_level ≡ risk_for doc.decision

highest_of_results :
    (d : Decision) (rs : List GatewayResult)
    → All
        (λ e. rank e ≤ rank d)
        (map (λ (e : Evaluation). e.decision) (map (λ (r : GatewayResult). r.evaluation) rs))
    → All (λ (r : GatewayResult). rank r.evaluation.decision ≤ rank d) rs
highest_of_results d [] h = tt
highest_of_results d (r ∷ rs) h = (h.0, highest_of_results d rs h.1)

gateway_trace_document-IsSummary :
    (results : List GatewayResult)
    → is_empty results ≡ false
    → (doc : TraceDocument) × (gateway_trace_document results ≡ ok doc) × IsSummary results doc
unfolding gateway_trace_document raise_if aggregate highest
gateway_trace_document-IsSummary [] h = cc
gateway_trace_document-IsSummary (r ∷ rs) h =
    let (top, found, _, above) =
      highest_lem r.evaluation.decision
        (map (λ (e : Evaluation). e.decision) (map (λ (r : GatewayResult). r.evaluation) rs)) in
    (
      record {
        decision = top;
        risk_level = risk_for top;
        total = length (r ∷ rs);
        allowed = decision_count allow (r ∷ rs);
        warned = decision_count warn (r ∷ rs);
        denied = decision_count deny (r ∷ rs);
        results = r ∷ rs;
      },
      rw (ok-injective found),
      record {
        same = refl;
        total = refl;
        parts = count_total (r ∷ rs);
        top = highest_of_results top (r ∷ rs) above;
        rated = refl;
      },
    )

module _ ⦃u : Unicode⦄ (c : Coding) (policy : Policy) where
  trace_results-eq-ok :
      (s : TraceState) {results : List GatewayResult}
      → trace_results (some (ok s)) ≡ ok results
      → (is_empty results ≡ false) × (s.results ≡ results)
  unfolding trace_results
  trace_results-eq-ok s h = elim (Bool-cases (is_empty s.results)) [
    | inl none_found ↦ cc (rw none_found at h)
    | inr one_found ↦ let same = ok-injective (rw one_found at h) in (rw (sym same) one_found, same)
  ]

  -- A replay that returns has read the whole of a file of at most 8388608 bytes; its results are at least
  -- one and at most max_records, each is the evaluation of a request under the policy; and its document is
  -- made, with counts that add up and a decision that no result outranks.
  pub load_gateway_trace-document :
      (bytes : List ℕ) (max_records : ℕ) {results : List GatewayResult}
      → load_gateway_trace c policy (bytes_read bytes) (int (pos max_records)) ≡ ok results
      → (length bytes ≤ max_trace_total_bytes)
        × (length results ≤ max_records)
        × All (IsEvaluation policy) results
        × ((doc : TraceDocument) × (gateway_trace_document results ≡ ok doc)
            × IsSummary results doc)
  unfolding load_gateway_trace record_limit first_state trace_results
  load_gateway_trace-document bytes zero h = cc
  load_gateway_trace-document bytes (suc n) {results} h =
      let (r, loop) =
        each_line_total (max_trace_line_bytes + 1) (trace_line c policy (suc n)) (length bytes + 1)
          bytes first_state (omega arith) in
      ends r loop (rw loop at h)
    where
      start : TraceInvariant c policy (length bytes) (suc n) bytes first_state
      start = record { sum = omega arith; within = omega arith; few = omega arith; evaluated = tt }

      ends :
          (r : Result TraceState)
          → each_line
              (max_trace_line_bytes + 1)
              (trace_line c policy (suc n))
              (length bytes + 1)
              bytes
              first_state
            ≡ some r
          → trace_results (some r) ≡ ok results
          → (length bytes ≤ max_trace_total_bytes)
            × (length results ≤ suc n)
            × All (IsEvaluation policy) results
            × ((doc : TraceDocument) × (gateway_trace_document results ≡ ok doc)
                × IsSummary results doc)
      ends (err e) loop k = cc
      ends (ok s) loop k =
          let (some_results, same) = trace_results-eq-ok s k in
          let (left, x, nothing) =
            each_line-keeps (max_trace_line_bytes + 1) (trace_line c policy (suc n))
              (TraceInvariant c policy (length bytes) (suc n))
              (λ bs st next full.
                trace_line-TraceInvariant c policy (length bytes) (suc n) bs st next)
              (length bytes + 1) bytes first_state start loop in
          let all_read : left ≡ [] =
            read_line_end (max_trace_line_bytes + 1) left (omega arith)
              (nil_of_is_empty (read_line (max_trace_line_bytes + 1) left).raw nothing) in
          (
            omega (arith, x.sum, x.within, ap (λ (bs : List ℕ). length bs) all_read),
            subst (λ rs. length rs ≤ suc n) same x.few,
            subst (All (IsEvaluation policy)) same x.evaluated,
            gateway_trace_document-IsSummary results some_results,
          )
