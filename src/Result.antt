-- ===== src/Result.antt =====
-- A function that may raise returns a `Result`.
-- RuntimeGatewayError is a subclass of InputError: a handler of InputError catches both.
use mcp_guard.Base.{String, Bool, true, false, List, [], ◌∷◌, ◌≡◌, refl}

pub data Error : Type 0 where
  input_error : String → Error
  runtime_error : String → Error
  policy_error : String → Error
  trace_error : String → Error
  comparison_error : String → Error
  value_error : String → Error
  type_error : String → Error
  attribute_error : String → Error
  overflow_error : String → Error

pub data Result {ℓ} (X : Type ℓ) : Type ℓ where
  err : Error → Result X
  ok : X → Result X

-- The rest of a function runs if this part returns.
infixl 5 ◌>>=◌
abbrev pub ◌>>=◌ {ℓ κ} : {X : Type ℓ} {Y : Type κ} → Result X → (X → Result Y) → Result Y
err error >>= rest = err error
ok x >>= rest = rest x

infixl 5 ◌>>◌
abbrev pub ◌>>◌ {ℓ} : {Y : Type ℓ} → Result (Unit {0}) → Result Y → Result Y
check >> rest = check >>= λ done. rest

-- `if test: raise error`
unfoldable pub raise_if : Bool → Error → Result (Unit {0})
raise_if true e = err e
raise_if false e = ok tt

-- `for x in xs: f(x)`, which stops at the first error
unfoldable pub for_each {ℓ} : {A : Type ℓ} → (A → Result (Unit {0})) → List A → Result (Unit {0})
for_each f [] = ok tt
for_each f (x ∷ xs) = f x >> for_each f xs

-- `except InputError`, which also catches RuntimeGatewayError
unfoldable pub is_input_error : Error → Bool
is_input_error (input_error m) = true
is_input_error (runtime_error m) = true
is_input_error _ = false

-- Inversion of a chain that succeeds.
pub >>=-eq-ok {ℓ κ} :
    {X : Type ℓ} {Y : Type κ} (part : Result X) (rest : X → Result Y) {y : Y}
    → (part >>= rest) ≡ ok y
    → (x : X) × (part ≡ ok x) × (rest x ≡ ok y)
>>=-eq-ok (err error) rest h = cc
>>=-eq-ok (ok x) rest h = (x, refl, h)

pub raise_if-eq-ok {ℓ} :
    {B : Type ℓ} (t : Bool) (e : Error) (k : Result B) {b : B}
    → (raise_if t e >> k) ≡ ok b
    → (t ≡ false) × (k ≡ ok b)
unfolding raise_if
raise_if-eq-ok true e k h = cc
raise_if-eq-ok false e k h = (refl, h)

pub ok-injective {ℓ} : {A : Type ℓ} {a b : A} → ok a ≡ ok b → a ≡ b
ok-injective h = cc
