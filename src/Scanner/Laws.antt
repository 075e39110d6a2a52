-- ===== src/Scanner/Laws.antt =====
-- What the decisions of scan_manifest in policylatch/scanners.py depend on.
use mcp_guard.Base.{String, ◌≡◌, refl, ◌↔◌, ◌⊎◌, true, false, some, List, [], ◌∷◌, any, Unicode}
use mcp_guard.Base.Dict.{get_or}
use mcp_guard.Gateway.Gate.{
  append-eq-nil, matching_reasons-eq-nil, matching_reasons-nil, IsListed, outside_allow_list-eq-nil,
  outside_allow_list-nil,
}
use mcp_guard.Journal.Append.{first}
use mcp_guard.Jsonl.{Coding}
use mcp_guard.Manifest.{ManifestEntry}
use mcp_guard.Matching.{text_matches, name_matches}
use mcp_guard.Models.{is_denial, risk_for, Evaluation, allow, deny, warns, denies}
use mcp_guard.Models.Order.{decision_for-deny_iff, decision_for-allow_iff}
use mcp_guard.Policy.{Rules, patterns, Policy}
use mcp_guard.Result.{>>=-eq-ok, ok-injective, ok}
use mcp_guard.Scanner.{
  flatten_schema, command_of, entry_reasons, entry_base, scan_entry, scan_entries,
}
use mcp_guard.ToolPolicy.{matching_reasons, outside_allow_list, tool_name_reasons}
use mathlib.Core.Path.{subst}

-- Related elements stand at the same places of two lists, which are as long as each other.
abbrev pub Pairs {ℓ κ} : {A : Type ℓ} {B : Type κ} → (A → B → Type 0) → List A → List B → Type 0
Pairs R [] [] = Unit
Pairs R [] (y ∷ ys) = ⊥
Pairs R (x ∷ xs) [] = ⊥
Pairs R (x ∷ xs) (y ∷ ys) = R x y × Pairs R xs ys

module _ ⦃u : Unicode⦄ where
  -- No rule on the name, the command, the description or the schema speaks against the entry.
  pub record IsHarmless (entry : ManifestEntry) (schema_text : String) (policy : Policy)
      : Type 0 where
    pub not_denied :
        any (name_matches entry.name) (patterns "mcp_tools" "deny_names" policy) ≡ false
    pub allowed : IsListed entry.name (patterns "mcp_tools" "allow_names" policy)
    pub not_warned :
        any (text_matches entry.name) (patterns "mcp_tools" "warn_if_name_contains" policy) ≡ false
    pub command_passes :
        any (text_matches (command_of entry)) (patterns "shell" "deny_patterns" policy) ≡ false
    pub command_unremarkable :
        any (text_matches (command_of entry)) (patterns "shell" "warn_patterns" policy) ≡ false
    pub description_passes :
        any
          (text_matches entry.description)
          (patterns "mcp_tools" "deny_if_description_contains" policy)
        ≡ false
    pub schema_unremarkable :
        any (text_matches schema_text) (patterns "mcp_tools" "warn_if_schema_contains" policy)
        ≡ false

  tool_name_reasons-eq-nil :
      (name : String) (rules : Rules)
      → tool_name_reasons name rules ≡ []
      → (any (name_matches name) (get_or [] "deny_names" rules) ≡ false)
        × IsListed name (get_or [] "allow_names" rules)
        × (any (text_matches name) (get_or [] "warn_if_name_contains" rules) ≡ false)
  unfolding tool_name_reasons
  tool_name_reasons-eq-nil name rules h =
      let (denied, h1) = append-eq-nil (matching_reasons (name_matches name) _ _ _ _) _ h in
      let (outside, warned) = append-eq-nil (outside_allow_list name rules) _ h1 in
      (
        matching_reasons-eq-nil _ _ _ _ _ denied,
        outside_allow_list-eq-nil _ _ outside,
        matching_reasons-eq-nil _ _ _ _ _ warned,
      )

  entry_reasons-IsHarmless :
      (entry : ManifestEntry) (schema_text : String) (policy : Policy)
      → entry_reasons entry schema_text policy ≡ []
      → IsHarmless entry schema_text policy
  unfolding entry_reasons patterns
  entry_reasons-IsHarmless entry schema_text policy h =
      let (names, h1) = append-eq-nil (tool_name_reasons entry.name _) _ h in
      let (refused, h2) =
        append-eq-nil (matching_reasons (text_matches (command_of entry)) _ _ _ _) _ h1 in
      let (reviewed, h3) =
        append-eq-nil (matching_reasons (text_matches (command_of entry)) _ _ _ _) _ h2 in
      let (described, schema) =
        append-eq-nil (matching_reasons (text_matches entry.description) _ _ _ _) _ h3 in
      let (denied, within, warned) = tool_name_reasons-eq-nil entry.name _ names in
      record {
        not_denied = denied;
        allowed = within;
        not_warned = warned;
        command_passes = matching_reasons-eq-nil _ _ _ _ _ refused;
        command_unremarkable = matching_reasons-eq-nil _ _ _ _ _ reviewed;
        description_passes = matching_reasons-eq-nil _ _ _ _ _ described;
        schema_unremarkable = matching_reasons-eq-nil _ _ _ _ _ schema;
      }

  IsHarmless-entry_reasons :
      (entry : ManifestEntry) (schema_text : String) (policy : Policy)
      → IsHarmless entry schema_text policy
      → entry_reasons entry schema_text policy ≡ []
  unfolding entry_reasons tool_name_reasons patterns
  IsHarmless-entry_reasons entry schema_text policy x = rw (
    matching_reasons-nil _ _ _ denies _ x.not_denied,
    outside_allow_list-nil _ _ x.allowed,
    matching_reasons-nil _ _ _ warns _ x.not_warned,
    matching_reasons-nil _ _ _ denies _ x.command_passes,
    matching_reasons-nil _ _ _ warns _ x.command_unremarkable,
    matching_reasons-nil _ _ _ denies _ x.description_passes,
    matching_reasons-nil _ _ _ warns _ x.schema_unremarkable,
  )

module _ ⦃u : Unicode⦄ (c : Coding) (policy : Policy) where
  -- What an evaluation says of an entry.
  pub record Scanned (entry : ManifestEntry) (e : Evaluation) : Type 0 where
    pub schema_text : String
    pub flattened : flatten_schema c entry.input_schema ≡ ok schema_text
    pub named : e.subject ≡ some entry.name
    pub rated : e.risk_level ≡ risk_for e.decision
    pub decided :
        (e.decision ≡ allow)
        ↔ (IsHarmless entry schema_text policy × (entry_base entry policy ≡ allow))
    pub refused : (e.decision ≡ deny) ↔ (
        (any is_denial (entry_reasons entry schema_text policy) ≡ true)
        ⊎ ((entry_reasons entry schema_text policy ≡ []) × (entry_base entry policy ≡ deny)))

  scan_entry-Scanned :
      (entry : ManifestEntry) {e : Evaluation} → scan_entry c entry policy ≡ ok e → Scanned entry e
  unfolding scan_entry
  scan_entry-Scanned entry {e} h =
      let (schema_text, flattened, h1) = >>=-eq-ok (flatten_schema c entry.input_schema) _ h in
      let reasons = entry_reasons entry schema_text policy in
      let (no_reason, clear) = decision_for-allow_iff reasons (entry_base entry policy) in
      subst (Scanned entry) (ok-injective h1) (record {
        schema_text = schema_text;
        flattened = flattened;
        named = refl;
        rated = refl;
        decided = (
          λ d. (entry_reasons-IsHarmless entry schema_text policy (no_reason d).0, (no_reason d).1),
          λ x. clear (IsHarmless-entry_reasons entry schema_text policy x.0, x.1),
        );
        refused = decision_for-deny_iff reasons (entry_base entry policy);
      })

  pub scan_entries-Scanned :
      (entries : List ManifestEntry) {es : List Evaluation}
      → scan_entries c entries policy ≡ ok es
      → Pairs Scanned entries es
  unfolding scan_entries
  scan_entries-Scanned [] h = subst (Pairs Scanned []) (ok-injective h) tt
  scan_entries-Scanned (entry ∷ rest) h =
      let (e, first, h1) = >>=-eq-ok (scan_entry c entry policy) _ h in
      let (more, others, h2) = >>=-eq-ok (scan_entries c rest policy) _ h1 in
      subst (Pairs Scanned (entry ∷ rest)) (ok-injective h2)
        (scan_entry-Scanned entry first, scan_entries-Scanned rest others)
