-- ===== src/Base/Text.antt =====
-- What the program uses of Python's `str`: code points, white space, case.
use Prim.Native.Nat.{ℕ, zero, suc, ◌+◌, ◌-◌, ◌/◌, ◌%◌}
use Prim.Native.Char.{Char, code}
use Prim.Native.String.{String, ◌++◌ as ◌<>◌}
use mathlib.Core.Bool.{Bool, true, false, ◌&&◌, ◌||◌}
use mathlib.Core.Option.{Option, none, some}
use mathlib.Core.List.{List, [], ◌∷◌}
use mcp_guard.Base.Tests.{leb, ltb, nat_eq, all, if◌then◌else◌}
use mcp_guard.Base.Lists.{length}

-- The code points of a text.
abbrev pub codes : String → List ℕ
codes String.[] = []
codes (String.◌∷◌ c s) = code c ∷ codes s

-- len(s)
abbrev pub str_len : String → ℕ
str_len s = length (codes s)

-- str.isspace of one character
unfoldable pub is_space : ℕ → Bool
is_space c =
    (leb 9 c && leb c 13)
    || (leb 28 c && leb c 32)
    || nat_eq c 0x85
    || nat_eq c 0xa0
    || nat_eq c 0x1680
    || (leb 0x2000 c && leb c 0x200a)
    || nat_eq c 0x2028
    || nat_eq c 0x2029
    || nat_eq c 0x202f
    || nat_eq c 0x205f
    || nat_eq c 0x3000

-- not s.strip()
unfoldable pub is_blank : String → Bool
unfolding is_space
is_blank s = all is_space (codes s)

-- s.lstrip(), s.rstrip() and s.strip()
lstrip : String → String
unfolding is_space
lstrip String.[] = String.[]
lstrip (String.◌∷◌ c s) = let rest = lstrip s in if is_space (code c) then rest else String.◌∷◌ c s

rstrip : String → String
unfolding is_blank
rstrip String.[] = String.[]
rstrip (String.◌∷◌ c s) = if is_blank (String.◌∷◌ c s) then String.[] else String.◌∷◌ c (rstrip s)

unfoldable pub strip : String → String
unfolding lstrip rstrip
strip s = rstrip (lstrip s)

starts_with_any : (ℕ → Bool) → String → Bool
starts_with_any p String.[] = true
starts_with_any p (String.◌∷◌ c s) = p (code c)

-- The character put in front of the first word, or as a word of its own.
put_char : Bool → Char → List String → List String
put_char true c ws = String.◌∷◌ c String.[] ∷ ws
put_char false c [] = String.◌∷◌ c String.[] ∷ []
put_char false c (w ∷ ws) = String.◌∷◌ c w ∷ ws

-- The words between characters of a class.
unfoldable pub split_on : (ℕ → Bool) → String → List String
unfolding starts_with_any put_char
split_on p String.[] = []
split_on p (String.◌∷◌ c s) =
    let rest = split_on p s in if p (code c) then rest else put_char (starts_with_any p s) c rest

-- s.split()
unfoldable pub split : String → List String
unfolding split_on is_space
split s = split_on is_space s

-- The bytes of a text in UTF-8; the model has no lone surrogates.
unfoldable pub utf8_size : List ℕ → ℕ
utf8_size [] = 0
utf8_size (c ∷ cs) =
    (if ltb c 0x80 then 1 else if ltb c 0x800 then 2 else if ltb c 0x10000 then 3 else 4)
    + utf8_size cs

nth : List String → ℕ → Option String
nth [] n = none
nth (s ∷ ss) zero = some s
nth (s ∷ ss) (suc n) = nth ss n

digit : ℕ → String
unfolding nth
digit n = elim (nth ("0" ∷ "1" ∷ "2" ∷ "3" ∷ "4" ∷ "5" ∷ "6" ∷ "7" ∷ "8" ∷ "9" ∷ []) n) [
  | none ↦ ""
  | some s ↦ s
]

digits : ℕ → ℕ → String
unfolding digit
digits zero n = ""
digits (suc fuel) n =
    let front = digits fuel (n / 10) in if ltb n 10 then digit n else front <> digit (n % 10)

-- str(n): a number has fewer digits than it counts.
unfoldable pub decimal_text : ℕ → String
unfolding digits
decimal_text n = digits (suc n) n

starts_with : String → String → Bool
starts_with String.[] s = true
starts_with (String.◌∷◌ c p) String.[] = false
starts_with (String.◌∷◌ c p) (String.◌∷◌ d s) = nat_eq (code c) (code d) && starts_with p s

-- The replacement of a text of `suc width` characters, with the number of characters still to pass.
replace_from : ℕ → String → String → ℕ → String → String
unfolding starts_with
replace_from width old new passing String.[] = String.[]
replace_from width old new (suc n) (String.◌∷◌ c s) = replace_from width old new n s
replace_from width old new zero (String.◌∷◌ c s) =
    if starts_with old (String.◌∷◌ c s)
    then new <> replace_from width old new width s
    else String.◌∷◌ c (replace_from width old new zero s)

-- s.replace(old, new), for an old text that is not empty
unfoldable pub replace : String → String → String → String
unfolding replace_from
replace old new s = replace_from (str_len old - 1) old new 0 s

-- Case conversion and NFKC follow the tables of the Unicode release that the interpreter was built
-- with. The model takes them as an argument; `netloc_ok` is `_checknetloc` of urllib.parse,
-- and `decimal` the value of a decimal digit.
pub record Unicode : Type 0 where
  pub lower : String → String
  pub casefold : String → String
  pub netloc_ok : String → Bool
  pub alnum : ℕ → Bool
  pub decimal : ℕ → Option ℕ
