-- ===== src/Gateway/Trace/Laws.antt =====
-- What a replay of policylatch/gateway_trace.py returns.
use mcp_guard.Base.{
  ℕ, ◌+◌, ◌≤◌, ◌<◌, ◌≡◌, refl, ◌⊎◌, inl, inr, Option, none, some, List, [], ◌∷◌, ◌++◌, arith,
  length, length-append, All, All-append, Bool-cases, Unicode,
}
use mcp_guard.Gateway.{evaluate_mcp_request, GatewayResult}
use mcp_guard.Gateway.Trace.{
  max_trace_line_bytes, max_trace_total_bytes, is_blank_line, line_error, rewrap, trace_result,
  trace_record, trace_counted, trace_line, TraceState,
}
use mcp_guard.Json.{Fields, Value, obj}
use mcp_guard.Jsonl.{read_line, Coding}
use mcp_guard.Jsonl.Lines.{length-read_line}
use mcp_guard.Policy.{Policy}
use mcp_guard.Result.{
  >>=-eq-ok, raise_if-eq-ok, ok-injective, input_error, runtime_error, Result, err, ok,
}
use mathlib.Core.Path.{subst}

rewrap-eq-ok {ℓ} : {A : Type ℓ} (n : ℕ) (r : Result A) {a : A} → rewrap n r ≡ ok a → r ≡ ok a
unfolding rewrap line_error
rewrap-eq-ok n (ok a) h = h
rewrap-eq-ok n (err (input_error m)) h = cc
rewrap-eq-ok n (err (runtime_error m)) h = cc
rewrap-eq-ok n (err _) h = cc

module _ ⦃u : Unicode⦄ (policy : Policy) where
  -- The result is the evaluation of a request.
  abbrev pub IsEvaluation : GatewayResult → Type 0
  IsEvaluation r = (request : Fields) × (evaluate_mcp_request request policy ≡ ok r)

module _ ⦃u : Unicode⦄ (c : Coding) (policy : Policy) where
  trace_result-IsEvaluation :
      (n : ℕ) (o : Option Value) {r : GatewayResult}
      → trace_result c policy n o ≡ ok r
      → IsEvaluation policy r
  unfolding trace_result line_error
  trace_result-IsEvaluation n none h = cc
  trace_result-IsEvaluation n (some (obj payload)) h = (payload, rewrap-eq-ok n _ h)
  trace_result-IsEvaluation n (some _) h = cc

  -- What one pass of the loop does to the state.
  record Passed (max_records : ℕ) (s next : TraceState) : Type 0 where
    total : next.total_bytes ≡ s.total_bytes
    fits : next.total_bytes ≤ max_trace_total_bytes
    grown :
        (next.results ≡ s.results)
        ⊎ ((r : GatewayResult) × (next.results ≡ s.results ++ r ∷ [])
            × (length s.results < max_records)
            × IsEvaluation policy r)

  trace_counted-Passed :
      (max_records : ℕ) (raw : List ℕ) (s : TraceState) {next : TraceState}
      → trace_counted c policy max_records raw s ≡ ok next
      → Passed max_records s next
  unfolding trace_counted trace_record
  trace_counted-Passed max_records raw s {next} h =
      let (_, h1) = raise_if-eq-ok _ _ _ h in
      let (small, h2) = raise_if-eq-ok _ _ _ h1 in
      elim (Bool-cases (is_blank_line raw)) [
        | inl blank ↦
            let same : s ≡ next = ok-injective (rw blank at h2) in
            subst (Passed max_records s) same
              (record { total = refl; fits = ground arith; grown = inl refl })
        | inr full ↦
            let (room, h3) = raise_if-eq-ok _ _ _ (rw full at h2) in
            let (r, found, h4) =
              >>=-eq-ok (trace_result c policy s.line_number (c.loads raw)) _ h3 in
            subst (Passed max_records s) (ok-injective h4) (record {
              total = refl;
              fits = ground arith;
              grown = inr (r, refl, ground arith, trace_result-IsEvaluation s.line_number _ found);
            })
      ]

  -- What is true of the state before and after a pass, while `bytes` are left of `size`.
  pub record TraceInvariant (size max_records : ℕ) (bytes : List ℕ) (s : TraceState) : Type 0 where
    pub sum : s.total_bytes + length bytes ≡ size
    pub within : s.total_bytes ≤ max_trace_total_bytes
    pub few : length s.results ≤ max_records
    pub evaluated : All (IsEvaluation policy) s.results

  grown-few :
      (max_records : ℕ) (s next : TraceState)
      → Passed max_records s next
      → length s.results ≤ max_records
      → All (IsEvaluation policy) s.results
      → (length next.results ≤ max_records) × All (IsEvaluation policy) next.results
  grown-few max_records s next p few evaluated = elim p.grown [
    | inl same ↦ (rw same few, rw same evaluated)
    | inr (r, more, room, found) ↦ (
      rw more (omega (arith, length-append s.results (r ∷ []))),
      rw more (All-append (IsEvaluation policy) s.results (r ∷ []) evaluated (found, tt)),
    )
  ]

  pub trace_line-TraceInvariant :
      (size max_records : ℕ) (bytes : List ℕ) (s next : TraceState)
      → TraceInvariant size max_records bytes s
      → trace_line c policy max_records (read_line (max_trace_line_bytes + 1) bytes).raw s ≡ ok next
      → TraceInvariant size max_records (read_line (max_trace_line_bytes + 1) bytes).rest next
  unfolding trace_line
  trace_line-TraceInvariant size max_records bytes s next x h =
      let passed = trace_counted-Passed max_records _ _ h in
      let (few, evaluated) = grown-few max_records _ next passed x.few x.evaluated in
      record {
        sum = omega (arith, passed.total, x.sum, length-read_line (max_trace_line_bytes + 1) bytes);
        within = passed.fits;
        few = few;
        evaluated = evaluated;
      }
