-- ===== src/Adapters/Config.antt =====
-- The hook configuration of policylatch/adapters.py. `shlex.join` and `subprocess.list2cmdline` are those of
-- Python.
use mcp_guard.Adapters.{runtime_name, RuntimeName, claude_code, codex, runtime_text}
use mcp_guard.Base.{
  ℕ, zero, suc, ◌+◌, String, ◌<>◌, Bool, true, false, not, ◌&&◌, ◌||◌, Option, none, some, List, [],
  ◌∷◌, leb, nat_eq, ◌==◌, if◌then◌else◌, any, all, codes, replace,
}
use mcp_guard.Base.Int.{pos}
use mcp_guard.Json.{Fields, field, end, obj, arr, str, int, cons, nil}
use mcp_guard.Result.{◌>>=◌, ◌>>◌, raise_if, input_error, Result, err, ok}
use mathlib.Core.Bool.{xor}
use Prim.Native.Char.{code}

-- The characters of `[\w@%+=:,./-]` with re.ASCII
unfoldable pub is_plain : ℕ → Bool
is_plain n =
    (leb b'a' n && leb n b'z')
    || ((leb b'A' n && leb n b'Z')
        || ((leb b'0' n && leb n b'9')
            || any (nat_eq n)
                (b'_' ∷ b'@' ∷ b'%' ∷ b'+' ∷ b'=' ∷ b':' ∷ b',' ∷ b'.' ∷ b'/' ∷ b'-' ∷ [])))

-- shlex.quote
unfoldable pub quote : String → String
quote s =
    if s == ""
    then "''"
    else if all is_plain (codes s)
    then s
    else "'" <> (replace "'" "'\"'\"'" s <> "'")

-- shlex.join
unfoldable pub shlex_join : List String → String
shlex_join [] = ""
shlex_join (s ∷ []) = quote s
shlex_join (s ∷ t ∷ ss) = quote s <> (" " <> shlex_join (t ∷ ss))

backslashes : ℕ → String
backslashes zero = ""
backslashes (suc n) = "\\" <> backslashes n

-- The loop over the characters; `pending` is the length of bs_buf.
windows_text : ℕ → Bool → String → String
unfolding backslashes
windows_text pending quoted String.[] =
    backslashes pending <> (if quoted then backslashes pending <> "\"" else "")
windows_text pending quoted (String.◌∷◌ c s) =
    let more = windows_text (suc pending) quoted s in
    let rest = windows_text 0 quoted s in
    if nat_eq (code c) b'\\'
    then more
    else if nat_eq (code c) b'"'
    then backslashes (pending + pending) <> ("\\\"" <> rest)
    else backslashes pending <> String.◌∷◌ c rest

windows_argument : String → String
unfolding windows_text
windows_argument s =
    let quoted = s == "" || any (λ n. nat_eq n b' ' || nat_eq n b'\t') (codes s) in
    (if quoted then "\"" else "") <> windows_text 0 quoted s

-- subprocess.list2cmdline
unfoldable pub list2cmdline : List String → String
unfolding windows_argument
list2cmdline [] = ""
list2cmdline (s ∷ []) = windows_argument s
list2cmdline (s ∷ t ∷ ss) = windows_argument s <> (" " <> list2cmdline (t ∷ ss))

-- bool(text)
is_given : Option String → Bool
is_given none = false
is_given (some s) = not (s == "")

given_text : Option String → String
given_text none = "None"
given_text (some s) = s

-- _selector_args
unfoldable pub selector_args : Option String → Option String → Result (List String)
unfolding is_given given_text
selector_args policy profile =
    if xor (is_given policy) (is_given profile)
    then ok (
        if is_given policy
        then "--policy" ∷ given_text policy ∷ []
        else "--profile" ∷ given_text profile ∷ [])
    else err (input_error "Adapter config requires exactly one policy or profile.")

-- platform in {None, "posix", "windows"}
known_platform : Option String → Bool
known_platform none = true
known_platform (some s) = s == "posix" || s == "windows"

-- `on_windows` is os.name == "nt".
targets_windows : Bool → Option String → Bool
targets_windows on_windows none = on_windows
targets_windows on_windows (some s) = if s == "" then on_windows else s == "windows"

handler_of : Bool → Option String → RuntimeName → List String → Fields
unfolding targets_windows
handler_of on_windows platform claude_code parts = field "type" (str "command") (
    field "command"
      (str (if targets_windows on_windows platform then list2cmdline parts else shlex_join parts))
      (field "timeout" (int (pos 30)) end))
handler_of on_windows platform codex parts = field "type" (str "command") (
    field "command" (str (shlex_join parts)) (
      field "commandWindows" (str (list2cmdline parts)) (
        field "timeout" (int (pos 30))
          (field "statusMessage" (str "PolicyLatch pre-flight advisory") end))))

matcher_of : RuntimeName → String
matcher_of claude_code = "*"
matcher_of codex = ".*"

unfoldable pub adapter_config_document :
    Bool → String → Option String → Option String → Option String → Result Fields
unfolding known_platform handler_of matcher_of
adapter_config_document on_windows runtime policy profile platform = do
  selected ← runtime_name runtime
  selector ← selector_args policy profile
  raise_if (not (known_platform platform))
      (input_error "Adapter platform must be posix or windows.")
  let parts = "policylatch" ∷ "adapter-hook" ∷ "--runtime" ∷ runtime_text selected ∷ selector
  ok (
      field "hooks"
        (obj (
          field "PreToolUse"
            (arr (
              cons
                (obj (
                  field "matcher" (str (matcher_of selected)) (
                    field "hooks"
                      (arr (cons (obj (handler_of on_windows platform selected parts)) nil)) end)))
                nil))
            end))
        end)
