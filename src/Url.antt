-- ===== src/Url.antt =====
-- Python's `urlparse(url).hostname`, as policylatch/evaluator.py uses it (CPython 3.10): `none` is
-- the hostname None, and a network location that urlsplit refuses raises ValueError. `netloc_ok`
-- is the test that no character becomes a delimiter under NFKC.
use mcp_guard.Base.{
  ℕ, String, ◌<>◌, ◌≡◌, refl, Bool, true, false, not, ◌&&◌, ◌||◌, leb, nat_eq, if◌then◌else◌, any,
  all, codes,
}
use mcp_guard.Matching.{starts}
use mcp_guard.Result.{value_error, Result, ok, err}
use mathlib.Core.Bool.{xor}
use Prim.Native.Char.{code}

split_while : (ℕ → Bool) → String → String × String
split_while p String.[] = (String.[], String.[])
split_while p (String.◌∷◌ c s) =
    let (front, rest) = split_while p s in
    if p (code c) then (String.◌∷◌ c front, rest) else (String.[], String.◌∷◌ c s)

remove : (ℕ → Bool) → String → String
remove p String.[] = String.[]
remove p (String.◌∷◌ c s) = let rest = remove p s in if p (code c) then rest else String.◌∷◌ c rest

contains_char : ℕ → String → Bool
contains_char n s = any (nat_eq n) (codes s)

-- s.partition(c): what stands before the first c, and what stands behind it
before_char : ℕ → String → String
unfolding split_while
before_char n s = (split_while (λ c. not (nat_eq c n)) s).0

tail_text : String → String
tail_text String.[] = String.[]
tail_text (String.◌∷◌ c s) = s

after_char : ℕ → String → String
unfolding split_while tail_text
after_char n s = tail_text (split_while (λ c. not (nat_eq c n)) s).1

-- s.rpartition(c)[2]
after_last : ℕ → String → String
unfolding contains_char
after_last n String.[] = String.[]
after_last n (String.◌∷◌ c s) =
    let rest = after_last n s in
    if contains_char n s then rest else if nat_eq (code c) n then s else String.◌∷◌ c s

is_letter : ℕ → Bool
is_letter c = (leb b'a' c && leb c b'z') || (leb b'A' c && leb c b'Z')

is_scheme_char : ℕ → Bool
unfolding is_letter
is_scheme_char c =
    is_letter c || (leb b'0' c && leb c b'9') || nat_eq c b'+' || nat_eq c b'-' || nat_eq c b'.'

is_scheme : String → Bool
unfolding is_letter is_scheme_char
is_scheme String.[] = false
is_scheme (String.◌∷◌ c s) = is_letter (code c) && all is_scheme_char (codes s)

-- The text behind the scheme, if there is one.
without_scheme : String → String
unfolding is_scheme before_char after_char contains_char
without_scheme url =
    if contains_char b':' url && is_scheme (before_char b':' url) then after_char b':' url else url

is_delimiter : ℕ → Bool
is_delimiter c = nat_eq c b'/' || nat_eq c b'?' || nat_eq c b'#'

-- The network location behind `//`, and the empty text if there is none.
netloc_of : String → String
unfolding split_while is_delimiter
netloc_of url =
    if starts (codes "//") (codes url)
    then (split_while (λ c. not (is_delimiter c)) (tail_text (tail_text url))).0
    else ""

-- The properties `_hostinfo` and `hostname` of a split result.
unfoldable pub host_of_netloc : String → String
unfolding after_last contains_char before_char after_char
host_of_netloc netloc =
    let hostinfo = after_last b'@' netloc in
    if contains_char b'[' hostinfo
    then before_char b']' (after_char b'[' hostinfo)
    else before_char b':' hostinfo

brackets_differ : String → Bool
unfolding contains_char
brackets_differ netloc = xor (contains_char b'[' netloc) (contains_char b']' netloc)

cleaned : String → String
unfolding split_while remove
cleaned url =
    remove (λ c. nat_eq c 9 || nat_eq c 10 || nat_eq c 13) (split_while (λ c. leb c 32) url).1

module _ (netloc_ok : String → Bool) (lower : String → String) where
  -- urlparse(url).hostname or "", in which an address keeps the case of its zone
  unfoldable pub hostname : String → Result String
  unfolding host_of_netloc brackets_differ cleaned netloc_of without_scheme contains_char
      before_char after_char
  hostname url =
      let netloc = netloc_of (without_scheme (cleaned url)) in
      let host = host_of_netloc netloc in
      if brackets_differ netloc
      then err (value_error "Invalid IPv6 URL")
      else if not (netloc_ok netloc)
      then err (value_error "netloc contains invalid characters under NFKC normalization")
      else if contains_char b'%' host
      then ok (lower (before_char b'%' host) <> ("%" <> after_char b'%' host))
      else ok (lower host)

host_reads :
    hostname (λ s. true) (λ s. s) "https://user@docs.example.com:8080/a?b" ≡ ok "docs.example.com"
unfolding hostname xor starts
host_reads = refl
