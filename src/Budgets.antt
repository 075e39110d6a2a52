-- ===== src/Budgets.antt =====
-- policylatch/budgets.py: the check of the budgets of a policy against the records of the journal. Time
-- is in microseconds.
pub mod Check
pub mod Laws
pub mod Facts
pub mod Document
pub mod Rows
pub mod Reserved
use mcp_guard.Base.{
  ℕ, suc, ◌+◌, String, ◌<>◌, ◌⊎◌, inl, inr, Bool, true, false, not, ◌&&◌, Option, none, some, List,
  [], ◌∷◌, map, length, leb, ◌==◌, if◌then◌else◌, contains, is_empty,
}
use mcp_guard.Base.Dict.{Dict}
use mcp_guard.Base.Int.{pos}
use mcp_guard.Json.{Value, int}
use mcp_guard.Models.{
  risk_for, highest, Reason, Decision, allow, warn, deny, RiskLevel, Effect, warns, denies,
}
use mcp_guard.Policy.{Budget, Metric, calls, unique_targets, Window, hour, day}
use mcp_guard.Result.{Result, ok}

pub record BudgetFacts : Type 0 where
  pub action_type : String
  pub confirmation : String
  pub impact : Option Value
  pub payload_size_class : String
  pub target_fingerprint : Option String
  pub tool_fingerprint : Option String
  pub action_fingerprint : Option String

pub record JournalRecord : Type 0 where
  pub stage : String
  pub recorded_at : ℕ
  pub facts : BudgetFacts

-- What the loop over the records does with one: `continue`, `break`, or append.
pub data Step : Type 0 where
  passes : Step
  halts : String → Step
  counts : List String → Step

pub data Gathered : Type 0 where
  unknown_state : String → Gathered
  gathered : List JournalRecord → Gathered

pub data Status : Type 0 where
  in_budget exceeded unknown : Status

-- None, or the number that is used.
pub data Usage : Type 0 where
  no_usage : Usage
  calls_used : ℕ → Usage
  impact_used : Value → Usage

pub record BudgetResult : Type 0 where
  pub subject : String
  pub decision : Decision
  pub risk_level : RiskLevel
  pub status : Status
  pub usage : Usage
  pub reasons : List Reason

-- _WINDOW_SECONDS, in microseconds
unfoldable pub window_length : Window → ℕ
window_length hour = 3600000000
window_length day = 86400000000

unfoldable pub flag : Bool → Option Bool → Bool
flag default none = default
flag default (some b) = b

-- earliest <= recorded_at <= current_time, where `earliest` is in the calendar (`too_early` of
-- Budgets/Document)
unfoldable pub in_window : Budget → ℕ → JournalRecord → Bool
in_window budget current r =
    leb current (r.recorded_at + window_length budget.window) && leb r.recorded_at current

-- The stage, the window and the action type of a record.
unfoldable pub applies : Budget → ℕ → JournalRecord → Bool
applies budget current r =
    r.stage == "proposed"
    && (in_window budget current r && contains budget.action_types r.facts.action_type)

-- The part on `count_duplicates`.
unfoldable pub duplicate_step : Budget → List String → BudgetFacts → Step
duplicate_step budget seen facts =
    if flag true budget.count_duplicates then counts seen else elim facts.action_fingerprint [
      | none ↦ halts "Duplicate-exclusion budget state is missing a value-aware action fingerprint."
      | some print ↦ if contains seen print then passes else counts (print ∷ seen)
    ]

-- The part on `payload_classes`.
unfoldable pub payload_step : Budget → List String → BudgetFacts → Step
unfolding duplicate_step
payload_step budget seen facts =
    if is_empty budget.payload_classes
    then duplicate_step budget seen facts
    else if facts.payload_size_class == "unknown"
    then halts "Payload-class budget state is unknown."
    else if contains budget.payload_classes facts.payload_size_class
    then duplicate_step budget seen facts
    else passes

-- The test on two tool fingerprints, and what follows.
unfoldable pub tool_step : Option String → Option String → Step → Step
tool_step (some mine) (some other) rest = if mine == other then rest else passes
tool_step _ _ rest = halts "Per-tool budget state is missing a tool fingerprint."

unfoldable pub consider : Budget → BudgetFacts → ℕ → List String → JournalRecord → Step
unfolding payload_step tool_step
consider budget current_facts current seen r =
    if not (applies budget current r)
    then passes
    else if not (r.facts.confirmation == "confirmed")
    then halts "A matching reservation has non-confirmed budget state."
    else if flag false budget.per_tool
    then tool_step current_facts.tool_fingerprint r.facts.tool_fingerprint
        (payload_step budget seen r.facts)
    else payload_step budget seen r.facts

unfoldable pub add_candidate : JournalRecord → Gathered → Gathered
add_candidate r (unknown_state m) = unknown_state m
add_candidate r (gathered rs) = gathered (r ∷ rs)

unfoldable pub proceed : Step → JournalRecord → List String → (List String → Gathered) → Gathered
unfolding add_candidate
proceed passes r seen rest = rest seen
proceed (halts message) r seen rest = unknown_state message
proceed (counts more) r seen rest = add_candidate r (rest more)

-- The loop over the records.
unfoldable pub gather : Budget → BudgetFacts → ℕ → List String → List JournalRecord → Gathered
gather budget facts current seen [] = gathered []
gather budget facts current seen (r ∷ rs) =
    proceed (consider budget facts current seen r) r seen (λ s. gather budget facts current s rs)
