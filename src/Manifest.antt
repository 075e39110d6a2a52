-- ===== src/Manifest.antt =====
-- manifest_entries of policylatch/validation.py: the tools and servers that a manifest declares.
use mcp_guard.Base.{
  ℕ, suc, String, ◌<>◌, Option, none, some, List, [], ◌∷◌, is_blank, strip, decimal_text,
}
use mcp_guard.Json.{get, Fields, field, end, Value, obj, arr, str, null, Items, cons, nil}
use mcp_guard.Receipts.{object_at}
use mcp_guard.Result.{◌>>=◌, ◌>>◌, raise_if, input_error, Result, err, ok}
use mcp_guard.Validation.{required_text}

-- An entry; `command` is set for a server only.
pub record ManifestEntry : Type 0 where
  pub name : String
  pub description : String
  pub command : Option String
  pub input_schema : Fields

abbrev shape_error : String
shape_error = "Expected tools, server.tools, or a non-empty mcpServers mapping."

-- The value of `tools`; None is kept as `null`.
unfoldable pub tools_of : Fields → Value
tools_of manifest = elim (get "tools" manifest) [
  | some v ↦ v
  | none ↦ elim (get "tools" (object_at "server" manifest)) [ some v ↦ v | none ↦ null ]
]

-- fields.get("description", ""), which must be a text
unfoldable pub description_of : Fields → String → Result String
description_of fields message = elim (get "description" fields) [
  | none ↦ ok ""
  | some found ↦ elim found [ str s ↦ ok s | _ ↦ err (input_error message) ]
]

unfoldable pub schema_of : Fields → String → Result Fields
schema_of fields message = elim (get "inputSchema" fields) [
  | none ↦ ok end
  | some found ↦ elim found [ obj o ↦ ok o | _ ↦ err (input_error message) ]
]

-- One pass of the loop over the tools.
unfoldable pub tool_entry : ℕ → Value → Result ManifestEntry
tool_entry index (obj tool) = do
  let at = "tools[" <> (decimal_text index <> "]")
  name ← required_text tool "name" at
  description ← description_of tool (at <> ".description must be a string.")
  schema ← schema_of tool (at <> ".inputSchema must be an object.")
  ok (record { name = name; description = description; command = none; input_schema = schema })
tool_entry index _ = err (input_error ("tools[" <> (decimal_text index <> "] must be an object.")))

unfoldable pub tool_entries : ℕ → Items → Result (List ManifestEntry)
tool_entries index nil = ok []
tool_entries index (cons tool rest) = do
  e ← tool_entry index tool
  more ← tool_entries (suc index) rest
  ok (e ∷ more)

-- args, if it is a list of texts
all_texts : Items → Option (List String)
all_texts nil = some []
all_texts (cons (str s) rest) = elim (all_texts rest) [ some ss ↦ some (s ∷ ss) | none ↦ none ]
all_texts (cons _ rest) = none

unfoldable pub args_of : Fields → String → Result (List String)
unfolding all_texts
args_of server message = elim (get "args" server) [
  | none ↦ ok []
  | some found ↦ elim found [
    | arr args ↦ elim (all_texts args) [ some ss ↦ ok ss | none ↦ err (input_error message) ]
    | _ ↦ err (input_error message)
  ]
]

-- " ".join([command, *args])
unfoldable pub joined : String → List String → String
joined command [] = command
joined command (arg ∷ args) = joined (command <> (" " <> arg)) args

-- One pass of the loop over the servers.
unfoldable pub server_entry : String → Value → Result ManifestEntry
server_entry name (obj server) = do
  raise_if (is_blank name) (input_error "Each mcpServers entry must have a name and object value.")
  let at = "mcpServers." <> name
  command ← required_text server "command" at
  args ← args_of server (at <> ".args must be a list of strings.")
  description ← description_of server (at <> ".description must be a string.")
  ok (record {
    name = name;
    description = description;
    command = some (strip (joined command args));
    input_schema = end;
  })
server_entry name _ = err (input_error "Each mcpServers entry must have a name and object value.")

unfoldable pub server_entries : Fields → Result (List ManifestEntry)
server_entries end = ok []
server_entries (field name server rest) = do
  e ← server_entry name server
  more ← server_entries rest
  ok (e ∷ more)

-- The part on `mcpServers`.
unfoldable pub servers_in : Fields → Result (List ManifestEntry)
servers_in end = err (input_error shape_error)
servers_in (field name server rest) = server_entries (field name server rest)

unfoldable pub manifest_servers : Option Value → Result (List ManifestEntry)
manifest_servers (some (obj servers)) = servers_in servers
manifest_servers _ = err (input_error shape_error)

unfoldable pub listed_tools : Items → Result (List ManifestEntry)
listed_tools nil = err (input_error "Manifest tools must be a non-empty array.")
listed_tools (cons tool rest) = tool_entries 0 (cons tool rest)

-- What follows the choice of `tools`.
unfoldable pub entries_in : Value → Fields → Result (List ManifestEntry)
entries_in null manifest = manifest_servers (get "mcpServers" manifest)
entries_in (arr tools) manifest = listed_tools tools
entries_in _ manifest = err (input_error "Manifest tools must be a non-empty array.")

unfoldable pub manifest_entries : Fields → Result (List ManifestEntry)
manifest_entries manifest = entries_in (tools_of manifest) manifest
