-- ===== src/ToolResult.antt =====
-- policylatch/result_scanner.py: the checks of a tool result before it is scanned.
pub mod Patterns
pub mod Findings
pub mod Scan
pub mod Response
pub mod Adding
pub mod Outcomes
pub mod Decides
use mcp_guard.Base.{
  String, ℕ, suc, ◌+◌, ◌<>◌, Bool, false, not, ◌&&◌, ◌||◌, Option, none, some, List, [], ◌∷◌,
  length, ltb, leb, nat_eq, ◌==◌, if◌then◌else◌, all, codes, str_len, utf8_size,
}
use mcp_guard.Budgets.Check.{over}
use mcp_guard.Json.{
  get, field_names, only_fields, equals_one, equals_text, nonblank_text, in_set, Fields, field, end,
  Value, obj, arr, str, Items, cons, nil,
}
use mcp_guard.Receipts.{all_items}
use mcp_guard.Result.{◌>>=◌, ◌>>◌, raise_if, input_error, Result, err, ok}

abbrev pub max_content_bytes : ℕ
max_content_bytes = 524288

abbrev pub max_line_bytes : ℕ
max_line_bytes = 16384

abbrev pub max_fields : ℕ
max_fields = 128

abbrev pub max_field_name_chars : ℕ
max_field_name_chars = 128

abbrev pub max_field_value_bytes : ℕ
max_field_value_bytes = 65536

abbrev pub max_expected_domains : ℕ
max_expected_domains = 64

-- The characters at which str.splitlines ends a line.
ends_text_line : ℕ → Bool
ends_text_line c =
    (leb 10 c && leb c 13)
    || ((leb 28 c && leb c 30) || (nat_eq c 0x85 || (nat_eq c 0x2028 || nat_eq c 0x2029)))

-- The part of the current line in UTF-8 so far, and whether a line was too long.
long_line_from : ℕ → List ℕ → Bool
unfolding ends_text_line
long_line_from size [] = ltb max_line_bytes size
long_line_from size (c ∷ cs) =
    let over = ends_text_line c && ltb max_line_bytes size in
    let next = long_line_from (if ends_text_line c then 0 else size + utf8_size (c ∷ [])) cs in
    over || next

-- any(len(line.encode("utf-8")) > MAX_LINE_BYTES for line in text.splitlines())
unfoldable pub has_long_line : String → Bool
unfolding long_line_from
has_long_line s = long_line_from 0 (codes s)

alphanumeric : ℕ → Bool
alphanumeric c =
    (leb b'0' c && leb c b'9') || ((leb b'A' c && leb c b'Z') || (leb b'a' c && leb c b'z'))

without_star : List ℕ → List ℕ
without_star (a ∷ b ∷ s) = if nat_eq a b'*' && nat_eq b b'.' then s else a ∷ b ∷ s
without_star s = s

last_is : (ℕ → Bool) → List ℕ → Bool
last_is p [] = false
last_is p (c ∷ []) = p c
last_is p (c ∷ d ∷ s) = last_is p (d ∷ s)

first_is : (ℕ → Bool) → List ℕ → Bool
first_is p [] = false
first_is p (c ∷ s) = p c

-- _DOMAIN.fullmatch
unfoldable pub is_domain_pattern : String → Bool
unfolding alphanumeric without_star last_is first_is
is_domain_pattern s =
    let body = without_star (codes s) in
    first_is alphanumeric body
    && (last_is alphanumeric body
        && (leb (length body) 253
            && all (λ c. alphanumeric c || (nat_eq c b'.' || nat_eq c b'-')) body))

-- _required_text
result_text : Fields → String → ℕ → Result (Unit {0})
result_text fields name max_chars = elim (nonblank_text (get name fields)) [
  | none ↦ err (input_error ("tool_result." <> (name <> " must be a non-empty string.")))
  | some s ↦
      raise_if (ltb max_chars (str_len s))
        (input_error ("tool_result." <> (name <> " is too long.")))
]

check_content : Option Value → Result (Unit {0})
check_content none = ok tt
check_content (some (str s)) = do
  raise_if (ltb max_content_bytes (utf8_size (codes s)))
      (input_error "tool_result.content exceeds the 524288-byte limit.")
  raise_if (has_long_line s) (input_error "tool_result.content line exceeds the 16384-byte limit.")
check_content (some _) = err (input_error "tool_result.content must be a string.")

check_field : String → Value → Result (Unit {0})
check_field name (str s) = do
  raise_if (name == "" || ltb max_field_name_chars (str_len name))
      (input_error "tool_result field names are invalid.")
  raise_if (ltb max_field_value_bytes (utf8_size (codes s)))
      (input_error "tool_result field value exceeds the 65536-byte limit.")
  raise_if (has_long_line s)
      (input_error "tool_result field value line exceeds the 16384-byte limit.")
check_field name v = do
  raise_if (name == "" || ltb max_field_name_chars (str_len name))
      (input_error "tool_result field names are invalid.")
  err (input_error "tool_result field values must be strings.")

-- The loop over the fields.
check_each_field : Fields → Result (Unit {0})
unfolding check_field
check_each_field end = ok tt
check_each_field (field name v fs) = check_field name v >> check_each_field fs

check_fields : Option Value → Result (Unit {0})
unfolding check_each_field
check_fields none = ok tt
check_fields (some (obj fs)) = do
  raise_if (ltb max_fields (length (field_names fs)))
      (input_error "tool_result.fields must be an object with at most 128 fields.")
  check_each_field fs
check_fields (some _) =
    err (input_error "tool_result.fields must be an object with at most 128 fields.")

domain_value : Value → Bool
domain_value (str s) = is_domain_pattern s
domain_value _ = false

unfoldable pub item_count : Items → ℕ
item_count nil = 0
item_count (cons x xs) = suc (item_count xs)

check_expected : Option Value → Result (Unit {0})
unfolding domain_value
check_expected none = ok tt
check_expected (some (arr xs)) =
    raise_if (ltb max_expected_domains (item_count xs) || not (all_items domain_value xs))
      (input_error "tool_result.expected_domains contains invalid domain patterns.")
check_expected (some _) =
    err (input_error "tool_result.expected_domains contains invalid domain patterns.")

unfoldable pub validate_tool_result : Fields → Result (Unit {0})
unfolding result_text check_content check_fields check_expected
validate_tool_result fields = do
  raise_if
      (not (
        only_fields
          ("schema_version" ∷ "kind" ∷ "request_id" ∷ "result_id" ∷ "tool" ∷ "source_trust"
            ∷ "content" ∷ "fields" ∷ "expected_domains" ∷ [])
          fields))
      (input_error "tool_result contains unsupported fields.")
  raise_if
      (not
        (equals_one (get "schema_version" fields) && equals_text "tool_result" (get "kind" fields)))
      (input_error "tool_result schema_version must be 1 and kind must be tool_result.")
  result_text fields "request_id" 256
  result_text fields "result_id" 256
  result_text fields "tool" 256
  trusted ← in_set ("trusted-local" ∷ "unknown" ∷ "untrusted" ∷ []) (get "source_trust" fields)
  raise_if (not trusted) (input_error "tool_result.source_trust is invalid.")
  check_content (get "content" fields)
  check_fields (get "fields" fields)
  check_expected (get "expected_domains" fields)
