-- ===== src/ToolResult/Findings.antt =====
-- The list of findings of scan_tool_result in policylatch/result_scanner.py, with its `add`.
use mcp_guard.Base.{
  String, ℕ, suc, ◌<>◌, Bool, true, false, not, ◌&&◌, ◌||◌, List, [], ◌∷◌, ◌++◌, ◌==◌,
  if◌then◌else◌, decimal_text, Unicode,
}
use mcp_guard.Json.{field, end, obj, str}
use mcp_guard.Jsonl.{hash, Coding}
use mcp_guard.Models.{Reason, Effect, warns, denies}
use mcp_guard.Result.{◌>>=◌, Result, ok}
use mcp_guard.ToolResult.Patterns.{
  urls, has_secret, has_prompt_marker, has_exfiltration_marker, is_pii_name, is_expected,
}
use mcp_guard.Base.Dict.{keys}

pub record Findings : Type 0 where
  pub found : List Reason
  pub seen : List (String × String)

pub record Finding : Type 0 where
  pub rule : String
  pub effect : Effect
  pub category : String
  pub message : String

unfoldable pub was_seen : String → String → List (String × String) → Bool
was_seen rule location [] = false
was_seen rule location ((r, l) ∷ keys) = (r == rule && l == location) || was_seen rule location keys

-- _fingerprint(label, text)
unfoldable pub text_fingerprint : Coding → String → String → Result String
text_fingerprint c label text = hash c (obj (field label (str text) end))

-- add, for a request with this fingerprint
unfoldable pub add_finding : Coding → String → Finding → String → Findings → Result Findings
unfolding was_seen
add_finding c request f location st = if was_seen f.rule location st.seen then ok st else (do
  key ← c.dumps (
      obj (
        field "category" (str f.category)
          (field "location" (str location) (field "request" (str request) end))))
  occurrence ← text_fingerprint c "finding" key
  ok (record {
    found =
        st.found
        ++ record {
          rule = f.rule;
          effect = f.effect;
          matched = "redacted:" <> occurrence;
          message = f.message;
        }
          ∷ [];
    seen = (f.rule, location) ∷ st.seen;
  }))

unfoldable pub add_if : Bool → Coding → String → Finding → String → Findings → Result Findings
unfolding add_finding
add_if true c request f location st = add_finding c request f location st
add_if false c request f location st = ok st

abbrev pub pii_name : Finding
pii_name = record {
  rule = "tool-result.pii-field-name";
  effect = warns;
  category = "pii-field-name";
  message = "Result field name indicates possible personal data.";
}

abbrev pub prompt_injection : Finding
prompt_injection = record {
  rule = "tool-result.prompt-injection";
  effect = denies;
  category = "prompt-injection";
  message = "Untrusted result contains an instruction-smuggling marker.";
}

abbrev pub exfiltration : Finding
exfiltration = record {
  rule = "tool-result.exfiltration-direction";
  effect = denies;
  category = "exfiltration-direction";
  message = "Untrusted result directs a later step to transmit data.";
}

abbrev pub secret_content : Finding
secret_content = record {
  rule = "tool-result.secret-like-content";
  effect = denies;
  category = "secret-like-content";
  message = "Result contains a secret-like value pattern.";
}

abbrev pub external_url : Finding
external_url = record {
  rule = "tool-result.external-url";
  effect = warns;
  category = "unexpected-external-url";
  message = "Result contains a URL outside the declared expected domains.";
}

module _ ⦃u : Unicode⦄ (c : Coding) (request : String) where
  -- The loop over the URLs of a value, from this index.
  unfoldable pub add_urls : List String → String → ℕ → List String → Findings → Result Findings
  add_urls domains location index [] st = ok st
  add_urls domains location index (url ∷ rest) st = do
    expected ← is_expected domains url
    next ←
        add_if (not expected) c request external_url (location <> (":url:" <> decimal_text index))
          st
    add_urls domains location (suc index) rest next

  -- One pass of the loop over the values.
  unfoldable pub scan_value : List String → String × String → Findings → Result Findings
  unfolding add_urls
  scan_value domains (location, text) st = do
    a ← add_if (has_prompt_marker text) c request prompt_injection location st
    b ← add_if (has_exfiltration_marker text) c request exfiltration location a
    d ← add_if (has_secret text) c request secret_content location b
    add_urls domains location 0 (urls text) d

  unfoldable pub scan_values : List String → List (String × String) → Findings → Result Findings
  unfolding scan_value
  scan_values domains [] st = ok st
  scan_values domains (v ∷ vs) st = do next ← scan_value domains v st; scan_values domains vs next

  -- The loop over the sorted fields, from this index: the names.
  unfoldable pub scan_names : ℕ → List (String × String) → Findings → Result Findings
  scan_names index [] st = ok st
  scan_names index ((name, text) ∷ rest) st = do
    next ← add_if (is_pii_name name) c request pii_name ("field-name:" <> decimal_text index) st
    scan_names (suc index) rest next
