-- ===== src/Adapters/Doctor.antt =====
-- validate_adapter_config of policylatch/adapters.py. `repr` is `str` of a dict.
use mcp_guard.Adapters.{runtime_name, runtime_text, mode_of, RuntimeName, claude_code, codex, Mode}
use mcp_guard.Base.{
  String, Bool, false, not, ◌||◌, Option, none, some, List, [], ◌∷◌, if◌then◌else◌, any, codes,
}
use mcp_guard.Json.{
  get, only_fields, exactly_fields, equals_text, Fields, Value, obj, arr, bool, cons, nil,
}
use mcp_guard.Matching.{is_infix}
use mcp_guard.Result.{◌>>=◌, ◌>>◌, raise_if, input_error, Result, err, ok}

-- value[0], if the value is a list of one object
single_object : Option Value → Option Fields
single_object (some (arr (cons (obj only) nil))) = some only
single_object _ = none

-- handler.get("async") is True
is_exactly_true : Option Value → Bool
is_exactly_true (some (bool b)) = b
is_exactly_true _ = false

allowed_handler_fields : RuntimeName → List String
allowed_handler_fields claude_code = "type" ∷ "command" ∷ "timeout" ∷ []
allowed_handler_fields codex =
    "type" ∷ "command" ∷ "commandWindows" ∷ "timeout" ∷ "statusMessage" ∷ []

occurs_in : String → String → Bool
occurs_in token text = is_infix (codes token) (codes text)

some_or {ℓ} : {A : Type ℓ} → String → Option A → Result A
some_or message none = err (input_error message)
some_or message (some a) = ok a

-- hooks, if it is an object with the one key
only_hooks : Option Value → Option Fields
only_hooks (some (obj hooks)) =
    if exactly_fields ("PreToolUse" ∷ []) hooks then some hooks else none
only_hooks _ = none

-- What the document says beside constants.
pub record AdapterDoctor : Type 0 where
  pub runtime : RuntimeName
  pub mode : Mode

module _ (repr : Fields → String) where
  check_handler : RuntimeName → Fields → Result (Unit {0})
  unfolding is_exactly_true allowed_handler_fields occurs_in
  check_handler selected handler = do
    raise_if
        (not (equals_text "command" (get "type" handler)) || is_exactly_true (get "async" handler))
        (input_error "Adapter handler must be a synchronous command hook.")
    raise_if (not (only_fields (allowed_handler_fields selected) handler))
        (input_error "Adapter handler contains unsupported fields.")
    raise_if (occurs_in "http://" (repr handler) || occurs_in "https://" (repr handler))
        (input_error "Adapter config cannot contain a remote hook URL.")
    raise_if
        (any (λ token. not (occurs_in token (repr handler)))
          ("policylatch" ∷ "adapter-hook" ∷ runtime_text selected ∷ []))
        (input_error "Adapter command does not invoke the selected PolicyLatch runtime adapter.")

  unfoldable pub validate_adapter_config : String → Fields → Result AdapterDoctor
  unfolding only_hooks single_object some_or check_handler
  validate_adapter_config runtime config = do
    selected ← runtime_name runtime
    hooks ←
        some_or "Adapter config must contain only hooks.PreToolUse."
          (only_hooks (get "hooks" config))
    group ←
        some_or "Adapter config requires exactly one PreToolUse matcher group."
          (single_object (get "PreToolUse" hooks))
    handler ←
        some_or "Adapter config requires exactly one command hook handler."
          (single_object (get "hooks" group))
    check_handler selected handler
    ok (record { runtime = selected; mode = mode_of selected })
