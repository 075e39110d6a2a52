-- ===== src/Fingerprint.antt =====
-- The SHA-256 fingerprints that the program's `_fingerprint` and `_hash` helpers compute. SHA-256 of
-- the canonical JSON is an argument of the model.
use mcp_guard.Base.{
  ℕ, String, Bool, false, ◌&&◌, ◌||◌, Option, none, some, List, [], ◌∷◌, length, leb, nat_eq,
  if◌then◌else◌, all, codes,
}
use mcp_guard.Json.{Value}

abbrev hex_digit : ℕ → Bool
hex_digit c = (leb b'0' c && leb c b'9') || (leb b'a' c && leb c b'f')

drop_prefix : List ℕ → List ℕ → Option (List ℕ)
drop_prefix [] s = some s
drop_prefix (a ∷ p) [] = none
drop_prefix (a ∷ p) (b ∷ s) = let rest = drop_prefix p s in if nat_eq a b then rest else none

-- re.compile(r"^sha256:[0-9a-f]{64}$").fullmatch
unfoldable pub is_hash : String → Bool
unfolding drop_prefix
is_hash s = elim (drop_prefix (codes "sha256:") (codes s)) [
  | none ↦ false
  | some digits ↦ nat_eq (length digits) 64 && all hex_digit digits
]

-- `fingerprint label value` is the digest of {"contract": label, "value": value}, and `none` where
-- the value has no UTF-8 JSON text.
pub record Hashing : Type 0 where
  pub fingerprint : String → Value → Option String
