-- ===== src/Scanner.antt =====
-- policylatch/scanners.py: the decision on every tool and server of a manifest.
pub mod Laws
pub mod Complete
use mcp_guard.Base.{String, none, some, List, [], ◌∷◌, ◌++◌, if◌then◌else◌, Unicode}
use mcp_guard.Base.Dict.{get_or}
use mcp_guard.Json.{Fields, obj}
use mcp_guard.Jsonl.{Coding}
use mcp_guard.Manifest.{manifest_entries, ManifestEntry}
use mcp_guard.Matching.{text_matches}
use mcp_guard.Models.{decision_for, risk_for, Reason, Evaluation, Decision, allow, warns, denies}
use mcp_guard.Policy.{patterns, Policy}
use mcp_guard.Result.{◌>>=◌, ◌>>◌, Result, ok}
use mcp_guard.ToolPolicy.{matching_reasons, tool_name_is_allowed, tool_name_reasons}

-- flatten_schema of policylatch/matching.py
unfoldable pub flatten_schema : Coding → Fields → Result String
flatten_schema c schema = c.dumps (obj schema)

unfoldable pub command_of : ManifestEntry → String
command_of entry = elim entry.command [ some command ↦ command | none ↦ "" ]

module _ ⦃u : Unicode⦄ where
  -- The reasons of one pass of the loop, in their order.
  unfoldable pub entry_reasons : ManifestEntry → String → Policy → List Reason
  entry_reasons entry schema_text policy =
      let mcp_rules = get_or [] "mcp_tools" policy.rules in
      tool_name_reasons entry.name mcp_rules
      ++ (matching_reasons (text_matches (command_of entry)) "shell.deny_patterns" denies
            "MCP server command matched a deny rule." (patterns "shell" "deny_patterns" policy)
          ++ (matching_reasons (text_matches (command_of entry)) "shell.warn_patterns" warns
                "MCP server command matched a warn rule." (patterns "shell" "warn_patterns" policy)
              ++ (matching_reasons (text_matches entry.description)
                    "mcp_tools.deny_if_description_contains" denies
                    "Tool description contains a blocked phrase."
                    (patterns "mcp_tools" "deny_if_description_contains" policy)
                  ++ matching_reasons (text_matches schema_text) "mcp_tools.warn_if_schema_contains"
                      warns "Tool input schema exposes a sensitive capability."
                      (patterns "mcp_tools" "warn_if_schema_contains" policy))))

  unfoldable pub entry_base : ManifestEntry → Policy → Decision
  entry_base entry policy =
      if tool_name_is_allowed entry.name (get_or [] "mcp_tools" policy.rules)
      then allow
      else policy.default_decision

module _ ⦃u : Unicode⦄ (c : Coding) where
  unfoldable pub scan_entry : ManifestEntry → Policy → Result Evaluation
  unfolding flatten_schema entry_reasons entry_base
  scan_entry entry policy = do
    schema_text ← flatten_schema c entry.input_schema
    let reasons = entry_reasons entry schema_text policy
    let decision = decision_for reasons (entry_base entry policy)
    ok (record {
      decision = decision;
      risk_level = risk_for decision;
      reasons = reasons;
      subject = some entry.name;
    })

  -- The loop over the entries.
  unfoldable pub scan_entries : List ManifestEntry → Policy → Result (List Evaluation)
  scan_entries [] policy = ok []
  scan_entries (entry ∷ rest) policy = do
    e ← scan_entry entry policy
    more ← scan_entries rest policy
    ok (e ∷ more)

  unfoldable pub scan_manifest : Fields → Policy → Result (List Evaluation)
  scan_manifest manifest policy = do
    entries ← manifest_entries manifest
    scan_entries entries policy
