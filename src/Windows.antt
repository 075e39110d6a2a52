-- ===== src/Windows.antt =====
-- policylatch/windows_compare.py, with the records of policylatch/windows_audit.py and
-- policylatch/windows_providers.py that it uses; their constant fields are left out.
pub mod Laws
use mcp_guard.Base.{
  ℕ, String, ◌<>◌, Bool, true, false, not, ◌&&◌, ◌||◌, Option, none, some, List, [], ◌∷◌, ltb,
  nat_eq, ◌==◌, if◌then◌else◌, is_some, all, replace,
}
use mcp_guard.Journal.{Parsed, malformed, naive, out_of_range, utc}
use mcp_guard.Result.{◌>>=◌, ◌>>◌, raise_if, comparison_error, overflow_error, Result, err, ok}
use Prim.Native.Char.{code}

pub data ChangeKind : Type 0 where
  created updated deleted unchanged unknown_change : ChangeKind

-- The facts are pairs of a name and a value.
pub record StateSummary : Type 0 where
  pub present : Option Bool
  pub facts : List (String × String)
  pub redacted : Bool

pub record WindowsAuditRecord : Type 0 where
  pub timestamp : String
  pub verification_state : String
  pub source : String
  pub category : String
  pub target : String
  pub operation : String
  pub change : ChangeKind
  pub before : StateSummary
  pub after : StateSummary
  pub actor : Option String
  pub tool : Option String

pub record ObservedWindowsSnapshot : Type 0 where
  pub collected_at : String
  pub source : String
  pub category : String
  pub target : String
  pub state : StateSummary

-- dict(facts).get(name): the last pair of the name counts
unfoldable pub fact : String → List (String × String) → Option String
fact name [] = none
fact name (p ∷ facts) =
    let rest = fact name facts in
    if is_some rest then rest else if p.0 == name then some p.1 else none

-- set(dict(a)) <= set(dict(b))
unfoldable pub names_within : List (String × String) → List (String × String) → Bool
names_within a b = all (λ (p : String × String). is_some (fact p.0 b)) a

unfoldable pub same_fact : Option String → Option String → Bool
same_fact (some s) (some t) = s == t
same_fact none none = true
same_fact _ _ = false

-- dict(a) == dict(b), for dicts with the same names
unfoldable pub same_facts : List (String × String) → List (String × String) → Bool
unfolding same_fact
same_facts a b = all (λ (p : String × String). same_fact (fact p.0 a) (fact p.0 b)) a

-- The part on two states that are present.
unfoldable pub facts_change : List (String × String) → List (String × String) → ChangeKind
facts_change a b =
    if not (names_within a b && names_within b a)
    then unknown_change
    else if not (same_facts a b)
    then updated
    else unchanged

-- _summary_change, on `present` and the facts
unfoldable pub presence_change : Option Bool → Option Bool → ChangeKind → ChangeKind
presence_change (some false) (some true) both = created
presence_change (some true) (some false) both = deleted
presence_change (some false) (some false) both = unchanged
presence_change (some true) (some true) both = both
presence_change _ _ both = unknown_change

unfoldable pub summary_change : StateSummary → StateSummary → ChangeKind
unfolding presence_change
summary_change before after =
    presence_change before.present after.present (facts_change before.facts after.facts)

unfoldable pub is_known : ChangeKind → Bool
is_known unknown_change = false
is_known _ = true

-- value[:-1] + "+00:00" if value.endswith(("Z", "z")) else value
unfoldable pub with_offset : String → String
with_offset String.[] = String.[]
with_offset (String.◌∷◌ ch String.[]) =
    if nat_eq (code ch) b'Z' || nat_eq (code ch) b'z' then "+00:00" else String.◌∷◌ ch String.[]
with_offset (String.◌∷◌ ch (String.◌∷◌ next s)) = String.◌∷◌ ch (with_offset (String.◌∷◌ next s))

unfoldable pub check_proposed :
    Option WindowsAuditRecord → ObservedWindowsSnapshot → Result (Unit {0})
check_proposed none after = ok tt
check_proposed (some proposed) after = do
  raise_if (not (proposed.verification_state == "proposed"))
      (comparison_error "The optional intent record must have proposed state.")
  raise_if (not (proposed.category == after.category) || not (proposed.target == after.target))
      (comparison_error "The proposed intent must match snapshot category and target.")

actor_of : Option WindowsAuditRecord → Option String
actor_of none = none
actor_of (some proposed) = proposed.actor

tool_of : Option WindowsAuditRecord → Option String
tool_of none = none
tool_of (some proposed) = proposed.tool

operation_of : Option WindowsAuditRecord → String
operation_of none = "compare_presence"
operation_of (some proposed) = proposed.operation

-- datetime.fromisoformat with astimezone(timezone.utc), and isoformat()
module _ (fromisoformat : String → Parsed) (isoformat : ℕ → String) where
  -- _instant
  unfoldable pub instant : String → String → Result ℕ
  unfolding with_offset
  instant value name = elim (fromisoformat (with_offset value)) [
    | malformed ↦ err (comparison_error (name <> " must be a valid ISO-8601 datetime."))
    | naive ↦ err (comparison_error (name <> " must include a UTC offset or Z suffix."))
    | out_of_range ↦ err (overflow_error "date value out of range")
    | utc t ↦ ok t
  ]

  unfoldable pub compare_windows_snapshots :
      ObservedWindowsSnapshot
      → ObservedWindowsSnapshot
      → Option WindowsAuditRecord
      → Result WindowsAuditRecord
  unfolding check_proposed actor_of tool_of operation_of
  compare_windows_snapshots before after proposed = do
    raise_if (not (before.category == after.category))
        (comparison_error "Snapshots must have the same category.")
    raise_if (not (before.target == after.target))
        (comparison_error "Snapshots must have the same target.")
    raise_if (not before.state.redacted || not after.state.redacted)
        (comparison_error "Snapshots must contain redacted summaries only.")
    before_time ← instant before.collected_at "before.collected_at"
    after_time ← instant after.collected_at "after.collected_at"
    raise_if (ltb after_time before_time)
        (comparison_error "The after snapshot cannot be older than the before snapshot.")
    check_proposed proposed after
    let change = summary_change before.state after.state
    ok (record {
      timestamp = replace "+00:00" "Z" (isoformat after_time);
      verification_state = if is_known change then "verified" else "observed";
      source = "snapshot_comparison:" <> (before.source <> ("->" <> after.source));
      category = after.category;
      target = after.target;
      operation = operation_of proposed;
      change = change;
      before = record {
        present = before.state.present;
        facts = before.state.facts;
        redacted = true;
      };
      after = record { present = after.state.present; facts = after.state.facts; redacted = true };
      actor = actor_of proposed;
      tool = tool_of proposed;
    })
