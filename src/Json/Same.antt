-- ===== src/Json/Same.antt =====
-- Equality of the dicts that json.loads returns, which does not look at the order of the keys.
use mcp_guard.Base.{
  String, ◌≡◌, refl, Bool, true, Option, none, some, is_some, all, sym, ◌∙◌, inl, inr, false, List,
  [], ◌∷◌, arith, eq_iff, ◌==◌, Bool-cases, contains, All,
}
use mcp_guard.Json.{
  get, has, field_names, field, end, obj, Fields, Value, only_fields, exactly_fields,
}
use mcp_guard.Receipts.{object_in, object_at}
use text.Mathlib.TextPositions.{eq_refl}
use mathlib.Core.Path.{subst}
use mcp_guard.Policy.Validate.{all_in}

mutual
  -- Equal values, where a dict holds equal values under the same keys.
  pub data Same : Value → Value → Type 0 where
    same_value : (v : Value) → Same v v
    same_object :
        (fs gs : Fields) → ((k : String) → SameField (get k fs) (get k gs)) → Same (obj fs) (obj gs)

  pub data SameField : Option Value → Option Value → Type 0 where
    no_field : SameField none none
    both_fields : {v w : Value} → Same v w → SameField (some v) (some w)

-- The same keys with equal values.
pub record SameDict (fs gs : Fields) : Type 0 where
  pub under : (k : String) → SameField (get k fs) (get k gs)

pub SameField-self : (o : Option Value) → SameField o o
SameField-self none = no_field
SameField-self (some v) = both_fields (same_value v)

-- A function that does not look into dicts gives the same for equal fields.
pub same_leaf {ℓ} :
    {X : Type ℓ} (f : Option Value → X) {a b : Option Value}
    → ((fs gs : Fields) → f (some (obj fs)) ≡ f (some (obj gs)))
    → SameField a b
    → f a ≡ f b
same_leaf f h no_field = refl
same_leaf f h (both_fields (same_value v)) = refl
same_leaf f h (both_fields (same_object fs gs s)) = h fs gs

pub has-SameDict : {fs gs : Fields} → SameDict fs gs → (k : String) → has k fs ≡ has k gs
unfolding has
has-SameDict s k = same_leaf is_some (λ _ _. refl) (s.under k)

pub object_at-SameDict :
    {fs gs : Fields} (name : String)
    → SameDict fs gs
    → SameDict (object_at name fs) (object_at name gs)
unfolding object_at object_in get
object_at-SameDict name s = inner (s.under name)
  where
    inner : {a b : Option Value} → SameField a b → SameDict (object_in a) (object_in b)
    inner no_field = record { under = λ k. no_field }
    inner (both_fields (same_value v)) = record { under = λ k. SameField-self _ }
    inner (both_fields (same_object fs gs t)) = record { under = t }

-- Every key of a dict that passes a test.
all-has :
    (p : String → Bool) (fs : Fields)
    → ((k : String) → has k fs ≡ true → p k ≡ true)
    → all p (field_names fs) ≡ true
unfolding field_names has get
all-has p end h = refl
all-has p (field k v fs) h =
    let first : p k ≡ true = h k (rw (eq_refl k) refl) in
    rw first (all-has p fs (λ j found. h j (deeper j found)))
  where
    deeper : (j : String) → has j fs ≡ true → has j (field k v fs) ≡ true
    deeper j found = elim (Bool-cases (k == j)) [ inl same ↦ rw same | inr other ↦ rw other found ]

has-all :
    (p : String → Bool) (fs : Fields) (k : String)
    → all p (field_names fs) ≡ true
    → has k fs ≡ true
    → p k ≡ true
unfolding field_names has get
has-all p end k h e = cc
has-all p (field j v fs) k h e = elim (Bool-cases (j == k)) [
  | inl same ↦ subst (λ i. p i ≡ true) ((eq_iff j k).0 same) (ground (arith, h))
  | inr other ↦ has-all p fs k (ground (arith, h)) (rw other at e)
]

Bool-iff : (a b : Bool) → (a ≡ true → b ≡ true) → (b ≡ true → a ≡ true) → a ≡ b
Bool-iff true true f g = refl
Bool-iff false false f g = refl
Bool-iff true false f g = sym (f refl)
Bool-iff false true f g = g refl

-- Tests on the keys do not look at their order.
all-SameDict :
    (p : String → Bool) {fs gs : Fields}
    → SameDict fs gs
    → all p (field_names fs) ≡ all p (field_names gs)
all-SameDict p {fs} {gs} s =
    Bool-iff (all p (field_names fs)) (all p (field_names gs))
      (λ h. all-has p gs (λ k found. has-all p fs k h (has-SameDict s k ∙ found)))
      (λ h. all-has p fs (λ k found. has-all p gs k h (sym (has-SameDict s k) ∙ found)))

all-has-SameDict :
    {fs gs : Fields} (names : List String)
    → SameDict fs gs
    → all (λ k. has k fs) names ≡ all (λ k. has k gs) names
all-has-SameDict [] s = refl
all-has-SameDict (k ∷ names) s = rw (has-SameDict s k, all-has-SameDict names s)

pub exactly_fields-SameDict :
    {fs gs : Fields} (names : List String)
    → SameDict fs gs
    → exactly_fields names fs ≡ exactly_fields names gs
unfolding exactly_fields only_fields
exactly_fields-SameDict names s = rw (all-SameDict (contains names) s, all-has-SameDict names s)

-- Dicts with keys among the names are equal if they are under every name.
pub SameDict-on :
    (names : List String) (fs gs : Fields)
    → only_fields names fs ≡ true
    → only_fields names gs ≡ true
    → All (λ k. SameField (get k fs) (get k gs)) names
    → SameDict fs gs
unfolding only_fields has
SameDict-on names fs gs hf hg each = record {
  under = λ k. elim (Bool-cases (contains names k)) [
    | inl among ↦ look names each k among
    | inr outside ↦ absent (get k fs) (get k gs) (out fs k hf outside) (out gs k hg outside)
  ];
}
  where
    look :
        (names : List String)
        → All (λ k. SameField (get k fs) (get k gs)) names
        → (k : String) → contains names k ≡ true
        → SameField (get k fs) (get k gs)
    look [] each k h = cc
    look (j ∷ js) each k h = elim (Bool-cases (j == k)) [
      | inl same ↦ subst (λ i. SameField (get i fs) (get i gs)) ((eq_iff j k).0 same) each.0
      | inr other ↦ look js each.1 k (ground (arith, h, other))
    ]

    out :
        (hs : Fields) (k : String)
        → all (contains names) (field_names hs) ≡ true
        → contains names k ≡ false
        → is_some (get k hs) ≡ false
    out hs k all_in outside = elim (Bool-cases (is_some (get k hs))) [
      | inl found ↦ cc (has-all (contains names) hs k all_in found, outside)
      | inr missing ↦ missing
    ]

    absent : (a b : Option Value) → is_some a ≡ false → is_some b ≡ false → SameField a b
    absent none none e f = no_field
    absent (some v) b e f = cc
    absent none (some w) e f = cc
