-- ===== src/Reports.antt =====
-- policylatch/reports.py: the checks of a report before it is rendered, recorded or given a receipt.
use mcp_guard.Base.{String, Bool, true, false, not, Option, none, some, List, [], ◌∷◌, is_some, any}
use mcp_guard.Json.{get, is_text, in_set, Fields, Value, obj, arr, Items, cons, nil}
use mcp_guard.Result.{◌>>=◌, ◌>>◌, raise_if, value_error, Result, err, ok}

abbrev pub decisions : List String
decisions = "allow" ∷ "warn" ∷ "deny" ∷ []

abbrev pub risks : List String
risks = "low" ∷ "medium" ∷ "high" ∷ []

-- isinstance(data.get(key, []), list), and its elements; `none` where it is no list
unfoldable pub list_or_empty : Option Value → Option Items
list_or_empty none = some nil
list_or_empty (some (arr xs)) = some xs
list_or_empty (some _) = none

-- One pass of the loop of _rows. The model leaves the index of the row out of the messages.
check_row : Value → Result (Unit {0})
unfolding list_or_empty
check_row (obj row) = do
  decided ← in_set decisions (get "decision" row)
  raise_if (not decided) (value_error "Report result has an invalid decision.")
  rated ← in_set risks (get "risk_level" row)
  raise_if (not rated) (value_error "Report result has an invalid risk_level.")
  raise_if (not (is_some (list_or_empty (get "reasons" row))))
      (value_error "Report result reasons must be an array.")
check_row _ = err (value_error "Report result must be an object.")

check_reason : Value → Result (Unit {0})
check_reason (obj reason) = do
  raise_if
      (any (λ name. not (is_text (get name reason)))
        ("rule" ∷ "effect" ∷ "matched" ∷ "message" ∷ []))
      (value_error "Each report reason requires rule, effect, matched, and message.")
  known ← in_set ("warn" ∷ "deny" ∷ []) (get "effect" reason)
  raise_if (not known) (value_error "Each report reason effect must be warn or deny.")
check_reason _ = err (value_error "Each report reason must be an object.")

-- `for x in xs: f(x)` over a list of values
unfoldable pub each_item : (Value → Result (Unit {0})) → Items → Result (Unit {0})
each_item f nil = ok tt
each_item f (cons x xs) = f x >> each_item f xs

rows_of : Fields → Result Items
rows_of report = elim (get "results" report) [
  | none ↦ ok (cons (obj report) nil)
  | some found ↦ elim found [
    | arr xs ↦ ok xs
    | _ ↦ err (value_error "Report input must contain at least one result.")
  ]
]

unfoldable pub is_nil : Items → Bool
is_nil nil = true
is_nil (cons x xs) = false

-- _rows
report_rows : Fields → Result Items
unfolding check_row each_item rows_of is_nil
report_rows report = do
  rows ← rows_of report
  raise_if (is_nil rows) (value_error "Report input must contain at least one result.")
  each_item check_row rows
  ok rows

-- item.get("reasons", []) of a row that is checked
unfoldable pub reasons_of : Value → Items
unfolding list_or_empty
reasons_of (obj row) = elim (list_or_empty (get "reasons" row)) [ some xs ↦ xs | none ↦ nil ]
reasons_of _ = nil

unfoldable pub validate_report : Fields → Result Items
unfolding report_rows check_reason each_item reasons_of
validate_report report = do
  decided ← in_set decisions (get "decision" report)
  raise_if (not decided) (value_error "Report input does not contain a valid top-level decision.")
  rated ← in_set risks (get "risk_level" report)
  raise_if (not rated) (value_error "Report input does not contain a valid top-level risk_level.")
  rows ← report_rows report
  each_item (λ row. each_item check_reason (reasons_of row)) rows
  ok rows
