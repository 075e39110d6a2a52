-- ===== src/Runtime/Config/Bounds.antt =====
-- The limits that `parse_upstream_config` of policylatch/runtime_gateway.py keeps.
use mcp_guard.Base.{
  ◌≤◌, String, ◌≡◌, refl, true, false, Option, none, some, List, arith, length, all, is_empty,
}
use mcp_guard.Json.{get, nonblank_text, Fields}
use mcp_guard.Policy.Validate.{text_list}
use mcp_guard.Result.{>>=-eq-ok, raise_if-eq-ok, ok-injective, ok}
use mathlib.Core.Path.{subst}
use mcp_guard.Runtime.Config.{
  max_upstream_argv, is_argument, read_argv, read_server_id, read_cwd, parse_upstream_config,
  UpstreamConfig, Host,
}

-- The config is within its limits and was given by the document.
pub record IsConfig (host : Host) (raw : Fields) (config : UpstreamConfig) : Type 0 where
  pub nonempty : is_empty config.argv ≡ false
  pub few : length config.argv ≤ max_upstream_argv
  pub bounded : all is_argument config.argv ≡ true
  pub given : text_list (get "argv" raw) ≡ some config.argv
  pub encoded : all host.encodes config.argv ≡ true

-- The bounds of an argument vector.
pub record IsArgv (o : Option (List String)) (items : List String) : Type 0 where
  pub present : o ≡ some items
  pub nonempty : is_empty items ≡ false
  pub few : length items ≤ max_upstream_argv
  pub bounded : all is_argument items ≡ true

read_argv-IsArgv :
    (o : Option (List String)) (items : List String) → read_argv o ≡ ok items → IsArgv o items
unfolding read_argv
read_argv-IsArgv none items h = cc
read_argv-IsArgv (some found) items h =
    let (bounds, h1) = raise_if-eq-ok _ _ _ h in
    subst (IsArgv (some found)) (ok-injective h1) (record {
      present = refl;
      nonempty = ground arith;
      few = ground arith;
      bounded = ground arith;
    })

-- An upstream config that is read has 1 to 32 arguments, which are those of the document, are not empty,
-- hold no NUL, have at most 4096 characters and a UTF-8 encoding.
pub parse_upstream_config-IsConfig :
    (host : Host) (raw : Fields) (config : UpstreamConfig)
    → parse_upstream_config host raw ≡ ok config
    → IsConfig host raw config
unfolding parse_upstream_config
parse_upstream_config-IsConfig host raw config h =
    let (exact, h1) = raise_if-eq-ok _ _ _ h in
    let (version, h2) = raise_if-eq-ok _ _ _ h1 in
    let (server, named, h3) =
      >>=-eq-ok (read_server_id (nonblank_text (get "server_id" raw))) _ h2 in
    let (server_text, h4) = raise_if-eq-ok _ _ _ h3 in
    let (argv, has_argv, h5) = >>=-eq-ok (read_argv (text_list (get "argv" raw))) _ h4 in
    let (argv_text, h6) = raise_if-eq-ok _ _ _ h5 in
    let (cwd, has_cwd, h7) = >>=-eq-ok (read_cwd host (get "cwd" raw)) _ h6 in
    let bounds = read_argv-IsArgv _ argv has_argv in
    subst (IsConfig host raw) (ok-injective h7) (record {
      nonempty = bounds.nonempty;
      few = bounds.few;
      bounded = bounds.bounded;
      given = bounds.present;
      encoded = ground (arith, argv_text);
    })
