-- ===== src/ToolResult/Outcomes.antt =====
-- What decides the outcome of scan_tool_result in policylatch/result_scanner.py.
use mcp_guard.Base.{
  String, ℕ, suc, ◌<>◌, ◌≡◌, refl, Bool, true, false, not, ◌&&◌, ◌||◌, List, [], ◌∷◌, arith, any,
  decimal_text, Unicode,
}
use mcp_guard.Jsonl.{Coding}
use mcp_guard.Result.{>>=-eq-ok, ok-injective, Result, err, ok}
use mcp_guard.ToolResult.Adding.{
  denying_rule, Adds-refl, Adds-trans, denies_effect, add_if-Adds, IsBacked, Adds,
}
use mcp_guard.ToolResult.Findings.{
  add_if, pii_name, prompt_injection, exfiltration, secret_content, external_url, add_urls,
  scan_value, scan_values, scan_names, Findings,
}
use mcp_guard.ToolResult.Patterns.{
  urls, has_secret, has_prompt_marker, has_exfiltration_marker, is_pii_name, is_expected,
}
use mathlib.Core.Path.{subst}

module _ ⦃u : Unicode⦄ where
  -- The text holds a marker or a secret.
  unfoldable pub must_block : String → Bool
  must_block text = has_prompt_marker text || (has_exfiltration_marker text || has_secret text)

module _ ⦃u : Unicode⦄ (domains : List String) where
  -- The test of add_urls, on the result of is_expected.
  unexpected_result : Result Bool → Bool
  unexpected_result (ok b) = not b
  unexpected_result (err e) = true

  -- The URL has no host that an expected domain matches.
  unfoldable pub is_unexpected : String → Bool
  unfolding unexpected_result
  is_unexpected url = unexpected_result (is_expected domains url)

  -- The text holds a URL outside the expected domains.
  unfoldable pub must_review : String → Bool
  unfolding is_unexpected
  must_review text = any is_unexpected (urls text)

module _ ⦃u : Unicode⦄ (c : Coding) (request : String) where
  pub add_urls-Adds :
      (domains : List String) (location : String) (index : ℕ) (links : List String) (st : Findings)
      {next : Findings}
      → add_urls c request domains location index links st ≡ ok next
      → IsBacked st
      → Adds st next false (any (is_unexpected domains) links)
  unfolding add_urls denying_rule denies_effect is_unexpected unexpected_result
  add_urls-Adds domains location index [] st {next} h b =
      let same : st ≡ next = ok-injective h in
      subst (λ n. Adds st n false false) same (Adds-refl st b)
  add_urls-Adds domains location index (url ∷ rest) st {next} h b =
      let (expected, e, h1) = >>=-eq-ok (is_expected domains url) _ h in
      let (mid, added, h2) =
        >>=-eq-ok
          (add_if (not expected) c request external_url
            (location <> (":url:" <> decimal_text index)) st)
          _ h1 in
      let first_part = add_if-Adds c request external_url _ (not expected) st refl added b in
      let rest_part = add_urls-Adds domains location (suc index) rest mid h2 first_part.backed in
      let both : Adds st next ((not expected && false) || false)
          (not expected || any (is_unexpected domains) rest) =
        Adds-trans first_part rest_part in
      rw e (
        subst (λ d. Adds st next d (not expected || any (is_unexpected domains) rest))
          (ground arith) both)

  scan_value-Adds :
      (domains : List String) (v : String × String) (st : Findings) {next : Findings}
      → scan_value c request domains v st ≡ ok next
      → IsBacked st
      → Adds st next (must_block v.1) (must_block v.1 || must_review domains v.1)
  unfolding scan_value denying_rule denies_effect must_block must_review
  scan_value-Adds domains (location, text) st {next} h b0 =
      let (s1, e1, h1) =
        >>=-eq-ok (add_if (has_prompt_marker text) c request prompt_injection location st) _ h in
      let a1 = add_if-Adds c request prompt_injection location _ st refl e1 b0 in
      let (s2, e2, h2) =
        >>=-eq-ok (add_if (has_exfiltration_marker text) c request exfiltration location s1) _ h1 in
      let a2 = add_if-Adds c request exfiltration location _ s1 refl e2 a1.backed in
      let (s3, e3, h3) =
        >>=-eq-ok (add_if (has_secret text) c request secret_content location s2) _ h2 in
      let a3 = add_if-Adds c request secret_content location _ s2 refl e3 a2.backed in
      let a4 = add_urls-Adds domains location 0 (urls text) s3 h3 a3.backed in
      let all_parts = Adds-trans a1 (Adds-trans a2 (Adds-trans a3 a4)) in
      record {
        backed = all_parts.backed;
        denies_now = ground (arith, all_parts.denies_now);
        has_now = ground (arith, all_parts.has_now);
      }

  pub scan_values-Adds :
      (domains : List String) (vs : List (String × String)) (st : Findings) {next : Findings}
      → scan_values c request domains vs st ≡ ok next
      → IsBacked st
      → Adds st next
          (any (λ v. must_block v.1) vs)
          (any (λ v. must_block v.1 || must_review domains v.1) vs)
  unfolding scan_values
  scan_values-Adds domains [] st {next} h b =
      let same : st ≡ next = ok-injective h in
      subst (λ n. Adds st n false false) same (Adds-refl st b)
  scan_values-Adds domains (v ∷ vs) st h b =
      let (mid, e, h1) = >>=-eq-ok (scan_value c request domains v st) _ h in
      let first_part = scan_value-Adds domains v st e b in
      Adds-trans first_part (scan_values-Adds domains vs mid h1 first_part.backed)

  pub scan_names-Adds :
      (index : ℕ) (fields : List (String × String)) (st : Findings) {next : Findings}
      → scan_names c request index fields st ≡ ok next
      → IsBacked st
      → Adds st next false (any (λ f. is_pii_name f.0) fields)
  unfolding scan_names denying_rule denies_effect
  scan_names-Adds index [] st {next} h b =
      let same : st ≡ next = ok-injective h in
      subst (λ n. Adds st n false false) same (Adds-refl st b)
  scan_names-Adds index ((name, text) ∷ rest) st h b =
      let (mid, e, h1) =
        >>=-eq-ok
          (add_if (is_pii_name name) c request pii_name ("field-name:" <> decimal_text index) st) _
          h in
      let first_part = add_if-Adds c request pii_name _ (is_pii_name name) st refl e b in
      let all_parts =
        Adds-trans first_part (scan_names-Adds (suc index) rest mid h1 first_part.backed) in
      record {
        backed = all_parts.backed;
        denies_now = ground (arith, all_parts.denies_now);
        has_now = all_parts.has_now;
      }
