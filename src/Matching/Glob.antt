-- ===== src/Matching/Glob.antt =====
-- Python's fnmatch, which policylatch/matching.py calls: a pattern as tokens, and its matcher.
-- A `[` with no `]` behind it is a plain character. Path separators are those of POSIX, where
-- `fnmatch.normcase` changes nothing, so `fnmatch.fnmatch` and `fnmatch.fnmatchcase` agree.
use mcp_guard.Base.{
  ℕ, List, Bool, codes, Option, ◌∷◌, leb, false, none, nat_eq, true, zero, suc, ◌+◌, ◌≡◌, refl, not,
  ◌&&◌, some, [], length, filter, if◌then◌else◌, any,
}

-- The characters from `lo` to `hi`; one character is a span of one.
pub record Span : Type 0 where
  pub lo : ℕ
  pub hi : ℕ

pub data Token : Type 0 where
  star : Token
  any_char : Token
  literal : ℕ → Token
  -- `[...]`, or `[!...]` if the flag is set
  class : Bool → List Span → Token

single : ℕ → Span
single c = record { lo = c; hi = c }

cons_option : ℕ → Option (List ℕ) → Option (List ℕ)
cons_option c none = none
cons_option c (some s) = some (c ∷ s)

-- The text before the next `]`.
upto_close : List ℕ → Option (List ℕ)
unfolding cons_option
upto_close [] = none
upto_close (c ∷ s) =
    let rest = upto_close s in if nat_eq c b']' then some [] else cons_option c rest

-- A `]` that stands first belongs to the class.
class_text : List ℕ → Option (List ℕ)
unfolding upto_close
class_text [] = none
class_text (c ∷ s) = if nat_eq c b']' then cons_option c (upto_close s) else upto_close (c ∷ s)

-- What stands between the brackets, if the class is closed.
class_body : List ℕ → Option (List ℕ)
unfolding class_text
class_body [] = none
class_body (c ∷ s) = if nat_eq c b'!' then cons_option c (class_text s) else class_text (c ∷ s)

spans : List ℕ → List Span
unfolding single
spans [] = []
spans (x ∷ []) = single x ∷ []
spans (x ∷ y ∷ []) = single x ∷ single y ∷ []
spans (x ∷ d ∷ y ∷ s) = elim (nat_eq d b'-') [
  | true ↦ record { lo = x; hi = y } ∷ spans s
  | false ↦ single x ∷ spans (d ∷ y ∷ s)
]

-- Empty ranges are taken out before the `!` is looked for.
nonempty : Span → Bool
nonempty r = leb r.lo r.hi

negate_first : List Span → Token
unfolding single
negate_first [] = class false []
negate_first (r ∷ rs) =
    if nat_eq r.lo b'!'
    then (if nat_eq r.hi b'!' then class true rs else class true (single b'-' ∷ single r.hi ∷ rs))
    else class false (r ∷ rs)

class_token : List ℕ → Token
unfolding spans nonempty negate_first
class_token [] = class false []
class_token (c ∷ s) =
    if nat_eq c b'!'
    then class true (filter nonempty (spans s))
    else negate_first (filter nonempty (spans (c ∷ s)))

-- The characters that the rest of a class takes, its `]` included.
class_size : Option (List ℕ) → ℕ
class_size none = 0
class_size (some text) = length text + 1

bracket_token : Option (List ℕ) → Token
unfolding class_token
bracket_token none = literal b'['
bracket_token (some text) = class_token text

plain_token : ℕ → Token
plain_token c = if nat_eq c b'*' then star else if nat_eq c b'?' then any_char else literal c

-- The number counts the characters of a class that is read already.
tokens_from : ℕ → List ℕ → List Token
unfolding class_body class_size bracket_token plain_token
tokens_from skip [] = []
tokens_from (suc skip) (c ∷ s) = tokens_from skip s
tokens_from zero (c ∷ s) = elim (nat_eq c b'[') [
  | true ↦ bracket_token (class_body s) ∷ tokens_from (class_size (class_body s)) s
  | false ↦ plain_token c ∷ tokens_from 0 s
]

unfoldable pub tokens : List ℕ → List Token
unfolding tokens_from
tokens = tokens_from 0

in_span : ℕ → Span → Bool
in_span c r = leb r.lo c && leb c r.hi

-- One token that is no star against one character.
unfoldable pub accepts : Token → ℕ → Bool
unfolding in_span
accepts star c = false
accepts any_char c = true
accepts (literal d) c = nat_eq d c
accepts (class negated rs) c = if negated then not (any (in_span c) rs) else any (in_span c) rs

unfoldable pub glob : List Token → List ℕ → Bool
glob [] [] = true
glob [] (c ∷ s) = false
glob (star ∷ p) [] = glob p []
glob (star ∷ p) (c ∷ s) = elim (glob p (c ∷ s)) [ true ↦ true | false ↦ glob (star ∷ p) s ]
glob (t ∷ p) [] = false
glob (t ∷ p) (c ∷ s) = elim (accepts t c) [ true ↦ glob p s | false ↦ false ]

-- fnmatch.fnmatch(value, pattern)
unfoldable pub fnmatch : List ℕ → List ℕ → Bool
unfolding tokens glob accepts
fnmatch value pattern = glob (tokens pattern) value

class_reads :
    tokens (codes "a[!b-d]*")
    ≡ literal b'a' ∷ class true (record { lo = b'b'; hi = b'd' } ∷ []) ∷ star ∷ []
unfolding tokens
class_reads = refl

unclosed_reads : fnmatch (codes "x[y") (codes "?[y") ≡ true
unfolding fnmatch
unclosed_reads = refl
