-- ===== src/Evaluator/Laws.antt =====
-- The decision of policylatch/evaluator.py, described by which patterns match and nothing else.
use mcp_guard.Base.{
  String, ◌≡◌, refl, Bool, true, false, not, List, [], ◌∷◌, ◌++◌, arith, any-append, if◌then◌else◌,
  any, is_empty, Unicode, ◌&&◌,
}
use mcp_guard.Evaluator.{shell_reasons, file_reasons, domain_reasons}
use mcp_guard.Matching.{text_matches, path_matches, domain_matches}
use mcp_guard.Models.{is_denial, decision_for, Reason, Decision, warn, deny, Effect, warns, denies}
use mcp_guard.Policy.{patterns, Policy}
use mcp_guard.ToolPolicy.{matching_reasons}

-- What a decision is, from whether something denies and something warns.
abbrev pub verdict : Bool → Bool → Decision → Decision
verdict true warned default = deny
verdict false true default = warn
verdict false false default = default

module _ (test : String → Bool) (rule message : String) where
  pub any-denies-matching :
      (ps : List String)
      → any is_denial (matching_reasons test rule denies message ps) ≡ any test ps
  unfolding matching_reasons
  any-denies-matching [] = refl
  any-denies-matching (p ∷ ps) = ground (arith, any-denies-matching ps)

  pub any-warns-matching :
      (ps : List String) → any is_denial (matching_reasons test rule warns message ps) ≡ false
  unfolding matching_reasons
  any-warns-matching [] = refl
  any-warns-matching (p ∷ ps) = ground (arith, any-warns-matching ps)

  pub is_empty-matching :
      (e : Effect) (ps : List String)
      → is_empty (matching_reasons test rule e message ps) ≡ not (any test ps)
  unfolding matching_reasons
  is_empty-matching e [] = refl
  is_empty-matching e (p ∷ ps) = ground (arith, is_empty-matching e ps)

pub is_empty-append {ℓ} :
    {A : Type ℓ} (xs ys : List A)
    → is_empty (xs ++ ys) ≡ (if is_empty xs then is_empty ys else false)
is_empty-append [] ys = refl
is_empty-append (x ∷ xs) ys = refl

pub decision_for-verdict :
    (rs : List Reason) (d : Decision)
    → decision_for rs d ≡ verdict (any is_denial rs) (not (is_empty rs)) d
unfolding decision_for
decision_for-verdict [] d = refl
decision_for-verdict (r ∷ rs) d = ground arith

-- A list of denying reasons followed by a list of warning ones.
deny_then_warn :
    (rs qs : List Reason) (a b : Bool) (d : Decision)
    → any is_denial rs ≡ a
    → is_empty rs ≡ not a
    → any is_denial qs ≡ false
    → is_empty qs ≡ not b
    → decision_for (rs ++ qs) d ≡ verdict a b d
deny_then_warn rs qs a b d h k l m =
    rw decision_for-verdict (ground (arith, any-append is_denial rs qs, is_empty-append rs qs))

module _ ⦃u : Unicode⦄ where
  pub shell_reasons-verdict :
      (command : String) (policy : Policy) (d : Decision)
      → decision_for (shell_reasons command policy) d
        ≡ verdict
            (any (text_matches command) (patterns "shell" "deny_patterns" policy))
            (any (text_matches command) (patterns "shell" "warn_patterns" policy))
            d
  unfolding shell_reasons
  shell_reasons-verdict command policy d =
      deny_then_warn _ _ _ _ d (any-denies-matching _ _ _ _) (is_empty-matching _ _ _ denies _)
        (any-warns-matching _ _ _ _) (is_empty-matching _ _ _ warns _)

  pub file_reasons-verdict :
      (path : String) (policy : Policy) (d : Decision)
      → decision_for (file_reasons path policy) d
        ≡ verdict
            (any (path_matches path) (patterns "files" "deny_paths" policy))
            (any (path_matches path) (patterns "files" "warn_paths" policy))
            d
  unfolding file_reasons
  file_reasons-verdict path policy d =
      deny_then_warn _ _ _ _ d (any-denies-matching _ _ _ _) (is_empty-matching _ _ _ denies _)
        (any-warns-matching _ _ _ _) (is_empty-matching _ _ _ warns _)

  -- The reason for a host outside a list that is not empty.
  pub domain_reasons-verdict :
      (domain : String) (policy : Policy) (d : Decision)
      → let allowed = patterns "network" "allow_domains" policy in
        decision_for (domain_reasons domain policy) d
        ≡ verdict
            (any (domain_matches domain) (patterns "network" "deny_domains" policy))
            (not (is_empty allowed) && not (any (domain_matches domain) allowed))
            d
  unfolding domain_reasons
  domain_reasons-verdict domain policy d =
      deny_then_warn _ _ _ _ d (any-denies-matching _ _ _ _) (is_empty-matching _ _ _ denies _)
        (ground arith) (ground arith)
