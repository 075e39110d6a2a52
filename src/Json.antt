-- ===== src/Json.antt =====
-- The values that `json.loads` returns, which the program passes around as `Any` and `dict[str, Any]`.
-- `float z k` is the number z / 2^k, which is every finite float; `infinite true` is
-- -Infinity.
-- An object is its pairs in order; a key stands in it once.
pub mod Same
use mcp_guard.Base.{
  ℕ, ◌^◌, String, Bool, true, false, ◌&&◌, Option, none, some, List, [], ◌∷◌, nat_eq, ◌==◌,
  if◌then◌else◌, is_some, all, contains, is_blank,
}
use mcp_guard.Base.Int.{ℤ, pos}
use mcp_guard.Result.{type_error, Result, ok, err}

mutual
  pub data Fields : Type 0 where
    field : String → Value → Fields → Fields
    end : Fields

  pub data Value : Type 0 where
    obj : Fields → Value
    arr : Items → Value
    str : String → Value
    int : ℤ → Value
    float : ℤ → ℕ → Value
    nan : Value
    infinite : Bool → Value
    bool : Bool → Value
    null : Value

  pub data Items : Type 0 where
    cons : Value → Items → Items
    nil : Items

-- data.get(key)
unfoldable pub get : String → Fields → Option Value
get k end = none
get k (field j v fs) = if j == k then some v else get k fs

-- key in data
unfoldable pub has : String → Fields → Bool
unfolding get
has k fs = is_some (get k fs)

-- list(data)
unfoldable pub field_names : Fields → List String
field_names end = []
field_names (field k v fs) = k ∷ field_names fs

-- set(data) - names is empty
unfoldable pub only_fields : List String → Fields → Bool
unfolding field_names
only_fields names fs = all (contains names) (field_names fs)

-- set(data) == names
unfoldable pub exactly_fields : List String → Fields → Bool
unfolding only_fields has
exactly_fields names fs = only_fields names fs && all (λ k. has k fs) names

-- value == 1, which holds of 1, 1.0 and True
unfoldable pub equals_one : Option Value → Bool
equals_one (some (int (pos n))) = nat_eq n 1
equals_one (some (float (pos z) k)) = nat_eq z (2 ^ k)
equals_one (some (bool b)) = b
equals_one _ = false

-- value == text
unfoldable pub equals_text : String → Option Value → Bool
equals_text t (some (str s)) = s == t
equals_text t _ = false

unfoldable pub is_text : Option Value → Bool
is_text (some (str s)) = true
is_text _ = false

unfoldable pub is_object : Option Value → Bool
is_object (some (obj fs)) = true
is_object _ = false

-- The text of a value that is a text and not blank: `isinstance(v, str) and v.strip()`.
unfoldable pub nonblank_text : Option Value → Option String
unfolding is_blank
nonblank_text (some (str s)) = if is_blank s then none else some s
nonblank_text _ = none

-- The text of a value that is known to be one.
unfoldable pub as_text : Value → String
as_text (str s) = s
as_text _ = ""

-- `value in names` for a set of texts: a list or a dict cannot be hashed, and raises TypeError.
unfoldable pub in_set : List String → Option Value → Result Bool
in_set names (some (str s)) = ok (contains names s)
in_set names (some (arr xs)) = err (type_error "unhashable type: 'list'")
in_set names (some (obj fs)) = err (type_error "unhashable type: 'dict'")
in_set names _ = ok false

-- fields[name] = v, for a name that is new
unfoldable pub append_field : Fields → String → Value → Fields
append_field end name v = field name v end
append_field (field k w fs) name v = field k w (append_field fs name v)
