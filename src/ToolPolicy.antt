-- ===== src/ToolPolicy.antt =====
-- policylatch/tool_policy.py: the rules on the name of an MCP tool.
use mcp_guard.Base.{
  String, Bool, not, ◌&&◌, List, [], ◌∷◌, ◌++◌, if◌then◌else◌, any, is_empty, Unicode,
}
use mcp_guard.Base.Dict.{get_or}
use mcp_guard.Matching.{text_matches, name_matches}
use mcp_guard.Models.{Reason, Effect, warns, denies}
use mcp_guard.Policy.{Rules}

-- The loop over one rule list: a reason for each pattern that matches.
unfoldable pub matching_reasons :
    (String → Bool) → String → Effect → String → List String → List Reason
matching_reasons test rule effect message [] = []
matching_reasons test rule effect message (pattern ∷ rest) =
    let more = matching_reasons test rule effect message rest in
    if test pattern
    then record { rule = rule; effect = effect; matched = pattern; message = message } ∷ more
    else more

module _ ⦃u : Unicode⦄ where
  unfoldable pub tool_name_is_allowed : String → Rules → Bool
  unfolding get_or
  tool_name_is_allowed name rules =
      let allowed = get_or [] "allow_names" rules in
      not (is_empty allowed) && any (λ pattern. name_matches name pattern) allowed

  unfoldable pub outside_allow_list : String → Rules → List Reason
  unfolding get_or
  outside_allow_list name rules =
      if not (is_empty (get_or [] "allow_names" rules)) && not (tool_name_is_allowed name rules)
      then record {
        rule = "mcp_tools.allow_names";
        effect = denies;
        matched = "outside-allowlist";
        message = "MCP tool name is not on the allow list.";
      }
        ∷ []
      else []

  unfoldable pub tool_name_reasons : String → Rules → List Reason
  unfolding get_or
  tool_name_reasons name rules =
      matching_reasons (name_matches name) "mcp_tools.deny_names" denies
        "MCP tool name is blocked by policy." (get_or [] "deny_names" rules)
      ++ (outside_allow_list name rules
          ++ matching_reasons (text_matches name) "mcp_tools.warn_if_name_contains" warns
              "Tool name indicates a powerful capability."
              (get_or [] "warn_if_name_contains" rules))
