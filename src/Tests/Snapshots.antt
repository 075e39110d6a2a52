-- ===== src/Tests/Snapshots.antt =====
-- Examples for policylatch/windows_compare.py: a service that was started between two snapshots.
use mcp_guard.Base.{ℕ, String, ◌≡◌, refl, true, none, some, [], ◌∷◌, replace}
use mcp_guard.Journal.{Parsed, utc}
use mcp_guard.Result.{ok, raise_if}
use mcp_guard.Windows.{
  compare_windows_snapshots, WindowsAuditRecord, ObservedWindowsSnapshot, updated, fact,
  names_within, same_fact, same_facts, facts_change, presence_change, summary_change, is_known,
  with_offset, check_proposed, instant,
}
use mcp_guard.Windows.Laws.{compare_windows_snapshots-IsComparison, IsComparison}

abbrev stopped : ObservedWindowsSnapshot
stopped = record {
  collected_at = "0001-01-02T00:00:00Z";
  source = "windows_service";
  category = "service";
  target = "Spooler";
  state = record {
    present = some true;
    facts = ("runtime_state", "stopped") ∷ [];
    redacted = true;
  };
}

abbrev running : ObservedWindowsSnapshot
running = record {
  collected_at = "0001-01-02T00:00:00Z";
  source = "windows_service";
  category = "service";
  target = "Spooler";
  state = record {
    present = some true;
    facts = ("runtime_state", "running") ∷ [];
    redacted = true;
  };
}

abbrev started : WindowsAuditRecord
started = record {
  timestamp = "0001-01-02T00:00:00Z";
  verification_state = "verified";
  source = "snapshot_comparison:windows_service->windows_service";
  category = "service";
  target = "Spooler";
  operation = "compare_presence";
  change = updated;
  before = stopped.state;
  after = running.state;
  actor = none;
  tool = none;
}

abbrev parse_day : String → Parsed
parse_day s = utc 86400000000

abbrev day_text : ℕ → String
day_text t = "0001-01-02T00:00:00+00:00"

compared : compare_windows_snapshots parse_day day_text stopped running none ≡ ok started
unfolding compare_windows_snapshots raise_if instant with_offset check_proposed summary_change
    presence_change facts_change names_within same_facts same_fact fact is_known replace
compared = refl

compare_windows_snapshots-IsComparison_example :
    IsComparison parse_day day_text stopped running started
compare_windows_snapshots-IsComparison_example =
    compare_windows_snapshots-IsComparison parse_day day_text stopped running none compared
