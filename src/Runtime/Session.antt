-- ===== src/Runtime/Session.antt =====
-- The local state of `run_stdio_gateway` in policylatch/runtime_gateway.py, and functions that read and
-- change it and may raise.
-- `state`
use mcp_guard.Approval.Provider.{Provider}
use mcp_guard.Base.{
  ℕ, String, ◌≡◌, refl, Bool, true, false, Option, List, ◌∷◌, ◌⊎◌, inl, inr, if◌then◌else◌,
}
use mcp_guard.Gateway.{RequestId}
use mcp_guard.Json.{Value}
use mcp_guard.Result.{Error, runtime_error, Result, ok, err}

pub data Phase : Type 0 where
  new initialized ready : Phase

abbrev pub phase_eq : Phase → Phase → Bool
phase_eq new new = true
phase_eq initialized initialized = true
phase_eq ready ready = true
phase_eq _ _ = false

-- The counters of `summary`.
pub record Summary : Type 0 where
  pub forwarded : ℕ
  pub blocked : ℕ
  pub approved : ℕ
  pub grant_reuses : ℕ
  pub response_clean : ℕ
  pub response_review : ℕ
  pub response_blocked : ℕ
  pub response_approved : ℕ
  pub control_messages : ℕ
  pub protocol_errors : ℕ

-- What was sent. A write is noted when it starts, also if it fails.
pub data Sent : Type 0 where
  to_upstream : List ℕ → Sent
  to_client : Value → Sent

-- `sent` has the last message first.
pub record Session : Type 0 where
  pub phase : Phase
  pub request_id : RequestId
  pub seen_ids : List RequestId
  pub summary : Summary
  pub provider : Option Provider
  pub sent : List Sent

pub data Ran {ℓ} (A : Type ℓ) : Type ℓ where
  value : A → Session → Ran A
  raised : Error → Session → Ran A

abbrev pub Run {ℓ} : Type ℓ → Type ℓ
Run A = Session → Ran A

abbrev pub and_then {ℓ κ} : {A : Type ℓ} {B : Type κ} → Ran A → (A → Run B) → Ran B
and_then (value a s) f = f a s
and_then (raised e s) f = raised e s

infixl 5 ◌>>=◌ ◌>>◌
abbrev pub ◌>>=◌ {ℓ κ} : {A : Type ℓ} {B : Type κ} → Run A → (A → Run B) → Run B
(m >>= f) s = and_then (m s) f

abbrev pub ◌>>◌ {ℓ} : {B : Type ℓ} → Run (Unit {0}) → Run B → Run B
m >> k = m >>= λ _. k

unfoldable pub return {ℓ} : {A : Type ℓ} → A → Run A
return a s = value a s

-- A function that does not touch the state.
unfoldable pub lift {ℓ} : {A : Type ℓ} → Result A → Run A
lift (ok a) s = value a s
lift (err e) s = raised e s

unfoldable pub stop_if : Bool → String → Run (Unit {0})
stop_if true message s = raised (runtime_error message) s
stop_if false message s = value tt s

unfoldable pub send : Sent → Run (Unit {0})
send event s = value tt (record s { sent = event ∷ s.sent })

unfoldable pub count : (Summary → Summary) → Run (Unit {0})
count f s = value tt (record s { summary = f s.summary })

unfoldable pub set_phase : Phase → Run (Unit {0})
set_phase phase s = value tt (record s { phase = phase })

-- The state after a run, whether it returned or raised.
abbrev pub after {ℓ} : {A : Type ℓ} → Ran A → Session
after (value a s) = s
after (raised e s) = s

pub >>=-eq-value {ℓ κ} :
    {A : Type ℓ} {B : Type κ} (r : Ran A) (f : A → Run B) {b : B} {s : Session}
    → and_then r f ≡ value b s
    → (a : A) × (t : Session) × (r ≡ value a t) × (f a t ≡ value b s)
>>=-eq-value (value a t) f h = (a, t, refl, h)
>>=-eq-value (raised e t) f h = cc

-- A run keeps a predicate on the state, whether it returns or raises.
pub record Keeps {ℓ} {A : Type ℓ} (P : Session → Type 0) (m : Run A) : Type ℓ where
  pub at_state : (s : Session) → P s → P (after (m s))

and_then-Keeps {ℓ κ} :
    {A : Type ℓ} {B : Type κ} (P : Session → Type 0) (r : Ran A) (f : A → Run B)
    → P (after r)
    → ((a : A) → Keeps P (f a))
    → P (after (and_then r f))
and_then-Keeps P (value a s) f h k = (k a).at_state s h
and_then-Keeps P (raised e s) f h k = h

module _ {P : Session → Type 0} where
  pub >>=-Keeps {ℓ κ} :
      {A : Type ℓ} {B : Type κ} {m : Run A} {f : A → Run B}
      → Keeps P m
      → ((a : A) → Keeps P (f a))
      → Keeps P (m >>= f)
  >>=-Keeps {m = m} {f = f} h k = record {
    at_state = λ s p. and_then-Keeps P (m s) f (h.at_state s p) k;
  }

  pub return-Keeps {ℓ} : {A : Type ℓ} (a : A) → Keeps P (return a)
  unfolding return
  return-Keeps a = record { at_state = λ s p. p }

  pub lift-Keeps {ℓ} : {A : Type ℓ} (r : Result A) → Keeps P (lift r)
  unfolding lift
  lift-Keeps (ok a) = record { at_state = λ s p. p }
  lift-Keeps (err e) = record { at_state = λ s p. p }

  pub stop_if-Keeps : (b : Bool) (m : String) → Keeps P (stop_if b m)
  unfolding stop_if
  stop_if-Keeps true m = record { at_state = λ s p. p }
  stop_if-Keeps false m = record { at_state = λ s p. p }

  pub if-Keeps {ℓ} :
      {A : Type ℓ} {m k : Run A} (b : Bool) → Keeps P m → Keeps P k → Keeps P (if b then m else k)
  if-Keeps true m k = m
  if-Keeps false m k = k

module _ {P : Session → Type 0} where
  pub when-Keeps {ℓ} :
      {A : Type ℓ} {m k : Run A} (b : Bool)
      → (b ≡ true → Keeps P m)
      → Keeps P k
      → Keeps P (if b then m else k)
  when-Keeps true m k = m refl
  when-Keeps false m k = k

-- Inversion of a chain that returns.
module _ {ℓ} {B : Type ℓ} {b : B} {s' : Session} where
  pub stop_if-value :
      (t : Bool) (m : String) (s : Session) (f : Unit {0} → Run B)
      → and_then (stop_if t m s) f ≡ value b s'
      → (t ≡ false) × (f tt s ≡ value b s')
  unfolding stop_if
  stop_if-value true m s f h = cc
  stop_if-value false m s f h = (refl, h)

  pub lift-value {κ} :
      {A : Type κ} (r : Result A) (s : Session) (f : A → Run B)
      → and_then (lift r s) f ≡ value b s'
      → (a : A) × (r ≡ ok a) × (f a s ≡ value b s')
  unfolding lift
  lift-value (ok a) s f h = (a, refl, h)
  lift-value (err e) s f h = cc

pub Ran-cases {ℓ} :
    {A : Type ℓ} (r : Ran A)
    → ((a : A) × (s : Session) × (r ≡ value a s)) ⊎ ((e : Error) × (s : Session) × (r ≡ raised e s))
Ran-cases (value a s) = inl (a, s, refl)
Ran-cases (raised e s) = inr (e, s, refl)

pub value-injective {ℓ} : {A : Type ℓ} {a b : A} {s t : Session} → value a s ≡ value b t → a ≡ b
value-injective h = cc

pub return-value {ℓ} :
    {A : Type ℓ} (a : A) (s : Session) {b : A} {t : Session} → return a s ≡ value b t → a ≡ b
unfolding return
return-value a s h = value-injective h
