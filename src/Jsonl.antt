-- ===== src/Jsonl.antt =====
-- What the readers and writers of JSON lines share: `file.readline(limit)`, JSON text and SHA-256.
pub mod Lines
pub mod Loop
use mcp_guard.Base.{
  ℕ, zero, suc, String, ◌<>◌, Bool, false, Option, List, [], ◌∷◌, nat_eq, if◌then◌else◌,
}
use mcp_guard.Json.{Value}
use mcp_guard.Result.{◌>>=◌, ◌>>◌, Result, ok}

-- json.dumps(value, ensure_ascii=False, separators=(",", ":"), sort_keys=True), str.encode("utf-8"),
-- json.loads of the decoded bytes (`none` where one of the two raises), and the hexadecimal SHA-256.
pub record Coding : Type 0 where
  pub dumps : Value → Result String
  pub utf8 : String → Result (List ℕ)
  pub loads : List ℕ → Option Value
  pub sha256 : List ℕ → String

-- canonical_json(value).encode("utf-8")
unfoldable pub canonical : Coding → Value → Result (List ℕ)
canonical c v = do text ← c.dumps v; c.utf8 text

-- _hash
unfoldable pub hash : Coding → Value → Result String
unfolding canonical
hash c v = do encoded ← canonical c v; ok ("sha256:" <> c.sha256 encoded)

pub record Line : Type 0 where
  pub raw : List ℕ
  pub rest : List ℕ

unfoldable pub put_byte : ℕ → Line → Line
put_byte b l = record { raw = b ∷ l.raw; rest = l.rest }

-- handle.readline(limit): a line with its line feed, cut after `limit` bytes
unfoldable pub read_line : ℕ → List ℕ → Line
unfolding put_byte
read_line zero bs = record { raw = []; rest = bs }
read_line (suc n) [] = record { raw = []; rest = [] }
read_line (suc n) (b ∷ bs) =
    let more = put_byte b (read_line n bs) in
    if nat_eq b b'\n' then record { raw = b ∷ []; rest = bs } else more

-- raw.endswith(b"\n")
unfoldable pub ends_line : List ℕ → Bool
ends_line [] = false
ends_line (b ∷ []) = nat_eq b b'\n'
ends_line (b ∷ c ∷ bs) = ends_line (c ∷ bs)
