-- ===== src/Matching.antt =====
-- policylatch/matching.py: the four ways in which a policy pattern matches a text.
pub mod Glob
use mcp_guard.Base.{
  ℕ, String, Bool, true, false, ◌&&◌, List, [], ◌∷◌, ◌++◌, map, nat_eq, if◌then◌else◌, any, all,
  codes, Unicode, ◌||◌,
}
use mcp_guard.Matching.Glob.{fnmatch}
use Prim.Native.Char.{code}

-- p is a prefix of s, on code points
unfoldable pub starts : List ℕ → List ℕ → Bool
starts [] s = true
starts (a ∷ p) [] = false
starts (a ∷ p) (b ∷ s) = nat_eq a b && starts p s

-- p in s
unfoldable pub is_infix : List ℕ → List ℕ → Bool
unfolding starts
is_infix p [] = starts p []
is_infix p (b ∷ s) = starts p (b ∷ s) || is_infix p s

-- "*" in p or "?" in p
unfoldable pub has_wildcard : List ℕ → Bool
has_wildcard p = any (λ c. nat_eq c b'*') p || any (λ c. nat_eq c b'?') p

-- s.replace("\\", "/")
slashes : String → String
slashes String.[] = String.[]
slashes (String.◌∷◌ c s) = String.◌∷◌ (if nat_eq (code c) 92 then "/" else c) (slashes s)

-- s.rstrip("."): a dot goes if nothing but dots is behind it
strip_dots : List ℕ → List ℕ
strip_dots [] = []
strip_dots (c ∷ s) = if all (nat_eq b'.') (c ∷ s) then [] else c ∷ strip_dots s

drop3 : List ℕ → List ℕ
drop3 (_ ∷ _ ∷ _ ∷ s) = s
drop3 s = []

module _ ⦃u : Unicode⦄ where
  unfoldable pub text_matches : String → String → Bool
  unfolding has_wildcard
  text_matches value pattern =
      let value_lower = codes (u.lower value) in
      let pattern_lower = codes (u.lower pattern) in
      if has_wildcard pattern_lower
      then fnmatch value_lower ((b'*' ∷ pattern_lower) ++ b'*' ∷ [])
      else is_infix pattern_lower value_lower

  unfoldable pub name_matches : String → String → Bool
  name_matches value pattern = fnmatch (codes (u.lower value)) (codes (u.lower pattern))

  unfoldable pub path_matches : String → String → Bool
  unfolding slashes drop3
  path_matches value pattern =
      let normalized = codes (u.lower (slashes value)) in
      let normalized_pattern = codes (u.lower (slashes pattern)) in
      fnmatch normalized normalized_pattern
      || (starts (codes "**/") normalized_pattern && fnmatch normalized (drop3 normalized_pattern))

  unfoldable pub domain_matches : String → String → Bool
  unfolding strip_dots
  domain_matches domain pattern =
      fnmatch (strip_dots (codes (u.lower domain))) (strip_dots (codes (u.lower pattern)))
