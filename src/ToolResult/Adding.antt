-- ===== src/ToolResult/Adding.antt =====
-- How `add` of scan_tool_result in policylatch/result_scanner.py changes the findings.
use mcp_guard.Base.{
  String, ◌≡◌, Bool, true, false, not, ◌||◌, arith, ◌==◌, any, is_empty, ◌<>◌, refl, List, [], ◌∷◌,
  ◌++◌, eq_iff, inl, inr, ◌&&◌, Bool-cases,
}
use mcp_guard.Models.{is_denial, Reason, Effect, warns, denies}
use mcp_guard.ToolResult.Findings.{
  prompt_injection, exfiltration, secret_content, Findings, was_seen, Finding, text_fingerprint,
  add_if, add_finding,
}
use mcp_guard.Jsonl.{Coding}
use mcp_guard.Result.{>>=-eq-ok, ok-injective, ok}
use mathlib.Core.Path.{subst}

abbrev pub has_denial : Findings → Bool
has_denial st = any is_denial st.found

abbrev pub has_any : Findings → Bool
has_any st = not (is_empty st.found)

-- The rules of the findings that deny.
unfoldable pub denying_rule : String → Bool
denying_rule rule =
    rule == prompt_injection.rule || (rule == exfiltration.rule || rule == secret_content.rule)

-- Every key that was seen has its finding.
pub record IsBacked (st : Findings) : Type 0 where
  pub denials :
      (rule location : String)
      → was_seen rule location st.seen ≡ true
      → denying_rule rule ≡ true
      → has_denial st ≡ true
  pub any_found :
      (rule location : String) → was_seen rule location st.seen ≡ true → has_any st ≡ true

-- From one list of findings to the next: a denial was added if `deny`, a finding if `some_found`.
pub record Adds (st next : Findings) (deny some_found : Bool) : Type 0 where
  pub backed : IsBacked next
  pub denies_now : has_denial next ≡ (has_denial st || deny)
  pub has_now : has_any next ≡ (has_any st || some_found)

pub Adds-refl : (st : Findings) → IsBacked st → Adds st st false false
Adds-refl st b = record { backed = b; denies_now = ground arith; has_now = ground arith }

pub Adds-trans :
    {a b c : Findings} {d e x y : Bool} → Adds a b d x → Adds b c e y → Adds a c (d || e) (x || y)
Adds-trans p q = record {
  backed = q.backed;
  denies_now = ground (arith, p.denies_now, q.denies_now);
  has_now = ground (arith, p.has_now, q.has_now);
}

unfoldable pub denies_effect : Effect → Bool
denies_effect denies = true
denies_effect warns = false

any-append_one :
    (rs : List Reason) (r : Reason)
    → any is_denial (rs ++ r ∷ []) ≡ (any is_denial rs || is_denial r)
any-append_one [] r = ground arith
any-append_one (s ∷ rs) r = ground (arith, any-append_one rs r)

is_empty-append_one : (rs : List Reason) (r : Reason) → is_empty (rs ++ r ∷ []) ≡ false
is_empty-append_one [] r = refl
is_empty-append_one (s ∷ rs) r = refl

module _ (c : Coding) (request : String) (f : Finding) (location : String) where
  -- A finding that was seen already changes nothing.
  seen-Adds :
      (st : Findings)
      → denying_rule f.rule ≡ denies_effect f.effect
      → was_seen f.rule location st.seen ≡ true
      → IsBacked st
      → Adds st st (denies_effect f.effect) true
  seen-Adds st agrees seen b = record {
    backed = b;
    denies_now = ground (arith, b.denials f.rule location seen);
    has_now = ground (arith, b.any_found f.rule location seen);
  }

  new_reason : String → Reason
  new_reason occurrence = record {
    rule = f.rule;
    effect = f.effect;
    matched = "redacted:" <> occurrence;
    message = f.message;
  }

  with_finding : String → Findings → Findings
  with_finding occurrence st = record {
    found = st.found ++ new_reason occurrence ∷ [];
    seen = (f.rule, location) ∷ st.seen;
  }

  with_finding-Adds :
      (st : Findings) (occurrence : String)
      → denying_rule f.rule ≡ denies_effect f.effect
      → IsBacked st
      → Adds st (with_finding occurrence st) (denies_effect f.effect) true
  unfolding with_finding new_reason was_seen denies_effect
  with_finding-Adds st occurrence agrees b =
      let denial : has_denial (with_finding occurrence st)
          ≡ (has_denial st || denies_effect f.effect) =
        ground (arith, any-append_one st.found (new_reason occurrence)) in
      let some : has_any (with_finding occurrence st) ≡ true =
        rw (is_empty-append_one st.found (new_reason occurrence)) in
      record {
        backed = record {
          denials = λ rule l seen d. ground (arith, denial, b.denials rule l, eq_iff f.rule rule);
          any_found = λ rule l seen. some;
        };
        denies_now = denial;
        has_now = ground (arith, some);
      }

  add-Adds :
      (st : Findings) {next : Findings}
      → denying_rule f.rule ≡ denies_effect f.effect
      → add_finding c request f location st ≡ ok next
      → IsBacked st
      → Adds st next (denies_effect f.effect) true
  unfolding add_finding with_finding new_reason
  add-Adds st {next} agrees h b = elim (Bool-cases (was_seen f.rule location st.seen)) [
    | inl seen ↦
        let same : st ≡ next = ok-injective (rw seen at h) in
        subst (λ n. Adds st n (denies_effect f.effect) true) same (seen-Adds st agrees seen b)
    | inr fresh ↦
        let h1 = rw fresh at h in
        let (key, _, h2) = >>=-eq-ok (c.dumps _) _ h1 in
        let (occurrence, _, h3) = >>=-eq-ok (text_fingerprint c "finding" key) _ h2 in
        let same : with_finding occurrence st ≡ next = ok-injective h3 in
        subst (λ n. Adds st n (denies_effect f.effect) true) same
          (with_finding-Adds st occurrence agrees b)
  ]

  pub add_if-Adds :
      (test : Bool) (st : Findings) {next : Findings}
      → denying_rule f.rule ≡ denies_effect f.effect
      → add_if test c request f location st ≡ ok next
      → IsBacked st
      → Adds st next (test && denies_effect f.effect) test
  unfolding add_if
  add_if-Adds true st agrees h b = add-Adds st agrees h b
  add_if-Adds false st {next} agrees h b =
      let same : st ≡ next = ok-injective h in
      subst (λ n. Adds st n false false) same (Adds-refl st b)
