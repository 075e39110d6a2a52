-- ===== src/Runtime/Config.antt =====
-- `parse_upstream_config` of policylatch/runtime_gateway.py.
pub mod Bounds
use mcp_guard.Base.{
  ℕ, ◌≤◌, String, ◌≡◌, refl, Bool, true, false, not, ◌&&◌, ◌||◌, Option, none, some, List, [], ◌∷◌,
  arith, length, ltb, leb, nat_eq, if◌then◌else◌, any, all, is_empty, codes, str_len, strip,
}
use mcp_guard.Json.{get, exactly_fields, equals_one, nonblank_text, Fields, Value, null}
use mcp_guard.Policy.Validate.{text_list}
use mcp_guard.Result.{
  ◌>>=◌, ◌>>◌, raise_if, >>=-eq-ok, raise_if-eq-ok, ok-injective, runtime_error, Result, err, ok,
}
use mathlib.Core.Path.{subst}

pub record UpstreamConfig : Type 0 where
  pub server_id : String
  pub argv : List String
  pub cwd : Option String

-- Whether a text has a UTF-8 encoding, and what a path of the config resolves to: `none` if nothing is
-- there, and whether it is a directory.
pub record Host : Type 0 where
  pub encodes : String → Bool
  pub resolve : String → Option (String × Bool)

abbrev pub max_upstream_argv : ℕ
max_upstream_argv = 32

abbrev pub max_upstream_arg_chars : ℕ
max_upstream_arg_chars = 4096

abbrev pub max_server_id_chars : ℕ
max_server_id_chars = 128

-- The test on one item of `argv`.
unfoldable pub is_argument : String → Bool
is_argument s =
    ltb 0 (str_len s)
    && (not (any (λ c. nat_eq c 0) (codes s)) && leb (str_len s) max_upstream_arg_chars)

unfoldable pub read_argv : Option (List String) → Result (List String)
read_argv none = err (runtime_error "Upstream config argv must contain 1-32 bounded strings.")
read_argv (some items) = do
  raise_if (is_empty items || (ltb max_upstream_argv (length items) || not (all is_argument items)))
      (runtime_error "Upstream config argv must contain 1-32 bounded strings.")
  ok items

unfoldable pub read_server_id : Option String → Result String
read_server_id none = err (runtime_error "Upstream config server_id must be 1-128 characters.")
read_server_id (some s) = do
  raise_if (ltb max_server_id_chars (str_len s))
      (runtime_error "Upstream config server_id must be 1-128 characters.")
  ok s

unfoldable pub directory : Option (String × Bool) → Result (Option String)
directory none = err (runtime_error "Upstream config cwd does not exist.")
directory (some (path, false)) =
    err (runtime_error "Upstream config cwd must resolve to a directory.")
directory (some (path, true)) = ok (some path)

unfoldable pub read_cwd : Host → Option Value → Result (Option String)
unfolding directory
read_cwd host none = ok none
read_cwd host (some null) = ok none
read_cwd host (some v) = elim (nonblank_text (some v)) [
  | none ↦ err (runtime_error "Upstream config cwd must be null or a non-empty path.")
  | some s ↦
      if any (λ c. nat_eq c 0) (codes s)
      then err (runtime_error "Upstream config cwd must be null or a non-empty path.")
      else directory (host.resolve s)
]

unfoldable pub parse_upstream_config : Host → Fields → Result UpstreamConfig
parse_upstream_config host raw = do
  raise_if (not (exactly_fields ("schema_version" ∷ "server_id" ∷ "argv" ∷ "cwd" ∷ []) raw))
      (runtime_error "Upstream config fields do not match schema version 1.")
  raise_if (not (equals_one (get "schema_version" raw)))
      (runtime_error "Only upstream config schema version 1 is supported.")
  server_id ← read_server_id (nonblank_text (get "server_id" raw))
  raise_if (not (host.encodes server_id))
      (runtime_error "Upstream config server_id must be valid UTF-8 text.")
  argv ← read_argv (text_list (get "argv" raw))
  raise_if (not (all host.encodes argv))
      (runtime_error "Upstream config argv must be valid UTF-8 text.")
  cwd ← read_cwd host (get "cwd" raw)
  ok (record { server_id = strip server_id; argv = argv; cwd = cwd })
