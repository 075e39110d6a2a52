-- ===== src/Tests/Manifests.antt =====
-- Examples for policylatch/scanners.py: a manifest of two tools, one of which a rule on names denies.
use mcp_guard.Tests.{plain_text}
use mcp_guard.Base.{◌≡◌, refl, none, some, List, [], ◌∷◌}
use mcp_guard.Json.{Fields, field, end, obj, arr, str, cons, nil, get, nonblank_text}
use mcp_guard.Jsonl.{Coding}
use mcp_guard.Manifest.{
  manifest_entries, ManifestEntry, tools_of, description_of, schema_of, tool_entry, tool_entries,
  listed_tools, entries_in,
}
use mcp_guard.Models.{
  risk_for, aggregate, Evaluation, Decision, allow, deny, low, high, denies, decision_for,
}
use mcp_guard.Policy.{Policy, patterns}
use mcp_guard.Result.{ok}
use mcp_guard.Scanner.{scan_manifest, scan_entry, scan_entries}
use mcp_guard.Scanner.Complete.{scan_manifest-Scanned}
use mcp_guard.Scanner.Laws.{Pairs, Scanned}
use mcp_guard.Matching.{name_matches}
use mcp_guard.Matching.Glob.{fnmatch}
use mcp_guard.ToolPolicy.{
  matching_reasons, tool_name_is_allowed, outside_allow_list, tool_name_reasons,
}
use mcp_guard.Validation.{required_text}

abbrev manifest : Fields
manifest =
    field "tools"
      (arr (
        cons (obj (field "name" (str "read") (field "description" (str "Reads a file.") end)))
          (cons (obj (field "name" (str "drop_table") end)) nil)))
      end

abbrev no_drops : Policy
no_drops = record {
  default_decision = allow;
  rules = ("mcp_tools", ("deny_names", "drop*" ∷ []) ∷ []) ∷ [];
  budgets = [];
}

-- Every schema has the text of the empty one.
abbrev empty_schema : Coding
empty_schema = record {
  dumps = λ v. ok "{}";
  utf8 = λ s. ok [];
  loads = λ bytes. none;
  sha256 = λ bytes. "";
}

abbrev evaluations : List Evaluation
evaluations =
    record { decision = allow; risk_level = low; reasons = []; subject = some "read" }
    ∷ record {
      decision = deny;
      risk_level = high;
      reasons =
          record {
            rule = "mcp_tools.deny_names";
            effect = denies;
            matched = "drop*";
            message = "MCP tool name is blocked by policy.";
          }
          ∷ [];
      subject = some "drop_table";
    }
    ∷ []

scanned : scan_manifest empty_schema manifest no_drops ≡ ok evaluations
unfolding scan_manifest manifest_entries scan_entries scan_entry entries_in tools_of get
    listed_tools tool_entries tool_entry required_text nonblank_text description_of schema_of
    decision_for risk_for tool_name_reasons matching_reasons name_matches fnmatch outside_allow_list
    patterns tool_name_is_allowed
scanned = refl

scan_manifest-Scanned_example :
    (entries : List ManifestEntry) × (manifest_entries manifest ≡ ok entries)
    × Pairs (Scanned empty_schema no_drops) entries evaluations
    × ((d : Decision) × (aggregate evaluations ≡ ok (d, risk_for d)))
scan_manifest-Scanned_example = scan_manifest-Scanned empty_schema no_drops manifest scanned
