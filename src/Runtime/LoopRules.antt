-- ===== src/Runtime/LoopRules.antt =====
-- Predicates on the state that a pass of the loop of policylatch/runtime_gateway.py keeps at its end.
use mcp_guard.Base.{
  String, Unicode, ℕ, zero, suc, Bool, true, false, List, [], ◌∷◌, if◌then◌else◌, is_empty,
}
use mcp_guard.Result.{
  input_error, runtime_error, policy_error, trace_error, value_error, type_error, attribute_error,
  overflow_error, comparison_error,
}
use mcp_guard.Runtime.Loop.{report_error, report, finish, step, go_on, run_session}
use mcp_guard.Runtime.Rules.{current_id-Keeps, count-Keeps, write_message-Keeps, Stable}
use mcp_guard.Runtime.Session.{after, >>=-Keeps, Session, Keeps, Ran, value, raised}
use mcp_guard.Runtime.Turn.{Gateway, Turn, End, continues, stops, escapes}

report_error-Keeps :
    (P : Session → Type 0) ⦃u : Unicode⦄ (g : Gateway) (r : Ran (Unit {0}))
    → P (after r)
    → P (report_error g r).1
unfolding report_error
report_error-Keeps P g (value _ s) h = h
report_error-Keeps P g (raised (runtime_error m) s) h = h
report_error-Keeps P g (raised (input_error m) s) h = h
report_error-Keeps P g (raised (policy_error m) s) h = h
report_error-Keeps P g (raised (trace_error m) s) h = h
report_error-Keeps P g (raised (comparison_error m) s) h = h
report_error-Keeps P g (raised (value_error m) s) h = h
report_error-Keeps P g (raised (type_error m) s) h = h
report_error-Keeps P g (raised (attribute_error m) s) h = h
report_error-Keeps P g (raised (overflow_error m) s) h = h

module _ {P : Session → Type 0} (st : Stable P) ⦃u : Unicode⦄ (g : Gateway) (turn : Turn) where
  report-Keeps : (m : String) → Keeps P (report g turn m)
  unfolding report
  report-Keeps m =
      >>=-Keeps (count-Keeps st _)
        (λ _. >>=-Keeps current_id-Keeps (λ i. write_message-Keeps st g _ _))

  pub finish-Keeps : (r : Ran (Unit {0})) → P (after r) → P (finish g turn r).1
  unfolding finish
  finish-Keeps (value _ s) h = h
  finish-Keeps (raised (runtime_error m) s) h =
      report_error-Keeps P g (report g turn m s) ((report-Keeps m).at_state s h)
  finish-Keeps (raised (input_error m) s) h = h
  finish-Keeps (raised (policy_error m) s) h = h
  finish-Keeps (raised (trace_error m) s) h = h
  finish-Keeps (raised (comparison_error m) s) h = h
  finish-Keeps (raised (value_error m) s) h = h
  finish-Keeps (raised (type_error m) s) h = h
  finish-Keeps (raised (attribute_error m) s) h = h
  finish-Keeps (raised (overflow_error m) s) h = h

module _ (P : Session → Type 0) ⦃u : Unicode⦄ (g : Gateway) where
  go_on-Keeps :
      (e : End) (rest final : End × Session) → P rest.1 → P final.1 → P (go_on g e rest final).1
  unfolding go_on
  go_on-Keeps continues rest final h k = h
  go_on-Keeps stops rest final h k = k
  go_on-Keeps (escapes e) rest final h k = k

  if-Keeps_session :
      (b : Bool) (s : Session) (x : End × Session) → P s → P x.1 → P (if b then (stops, s) else x).1
  if-Keeps_session true s x h k = h
  if-Keeps_session false s x h k = k

  -- What every pass keeps, the session keeps.
  pub run_session-Keeps :
      ((turn : Turn) (s : Session) → P s → P (step g turn s).1)
      → (n : ℕ) (turns : List Turn) (s : Session) → P s
      → P (run_session g n turns s).1
  unfolding run_session
  run_session-Keeps k zero turns s h = h
  run_session-Keeps k (suc n) [] s h = h
  run_session-Keeps k (suc n) (turn ∷ turns) s h = if-Keeps_session (is_empty turn.line) s _ h (
      go_on-Keeps (step g turn s).0 _ _ (run_session-Keeps k n turns (step g turn s).1 (k turn s h))
        (k turn s h))
