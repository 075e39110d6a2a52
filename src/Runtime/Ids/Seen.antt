-- ===== src/Runtime/Ids/Seen.antt =====
-- The test on the request ids seen, and `seen_ids.add`, of policylatch/runtime_gateway.py.
use mcp_guard.Gateway.{RequestId, no_id, text_id, int_id}
use mcp_guard.Base.{
  ◌≡◌, refl, ◌⊎◌, inl, inr, Bool, true, false, List, ◌∷◌, arith, if◌then◌else◌, eq_iff,
}
use mcp_guard.Result.{Error, runtime_error}
use mcp_guard.Runtime.Session.{return, after, Session, value, raised}
use mcp_guard.Runtime.Turn.{set_request_id, remember}
use mcp_guard.Runtime.Wire.{id_eq, has_seen}

id_eq_refl : (i : RequestId) → id_eq i i ≡ true
unfolding id_eq
id_eq_refl no_id = refl
id_eq_refl (text_id s) = (eq_iff s s).1 refl
id_eq_refl (int_id n) = ground arith

pub has_seen-first : (i : RequestId) (seen : List RequestId) → has_seen (i ∷ seen) i ≡ true
unfolding has_seen
has_seen-first i seen = rw (id_eq_refl i) refl

pub has_seen-∷ :
    (i j : RequestId) (seen : List RequestId)
    → has_seen seen j ≡ true
    → has_seen (i ∷ seen) j ≡ true
unfolding has_seen
has_seen-∷ i j seen h = ground arith

state_of : {A : Type 0} {a b : A} {s t : Session} → value a s ≡ value b t → t ≡ s
state_of h = cc

remember_if-value :
    {A : Type 0} (a : A) (b : Bool) (i : RequestId) (s t : Session)
    → (if b
        then raised (runtime_error "Runtime request id was already used in this session.") s
        else value a (record s { seen_ids = i ∷ s.seen_ids }))
      ≡ value a t
    → (b ≡ false) × (t ≡ record s { seen_ids = i ∷ s.seen_ids })
remember_if-value a true i s t h = cc
remember_if-value a false i s t h = (refl, state_of h)

-- Where `remember` returns, the id is null or was not seen before.
pub remember-value :
    (i : RequestId) (s t : Session)
    → remember i s ≡ value tt t
    → ((i ≡ no_id) × (t ≡ s))
      ⊎ ((has_seen s.seen_ids i ≡ false) × (t ≡ record s { seen_ids = i ∷ s.seen_ids }))
unfolding remember
remember-value no_id s t h = inl (refl, cc)
remember-value (text_id x) s t h = inr (remember_if-value tt _ (text_id x) s t h)
remember-value (int_id n) s t h = inr (remember_if-value tt _ (int_id n) s t h)

remember_if-after :
    (b : Bool) (e : Error) (s s' : Session)
    → (after {A = Unit {0}} (if b then raised e s else value tt s') ≡ s)
      ⊎ (after {A = Unit {0}} (if b then raised e s else value tt s') ≡ s')
remember_if-after true e s s' = inl refl
remember_if-after false e s s' = inr refl

pub remember-after :
    (i : RequestId) (s : Session)
    → (after (remember i s) ≡ s) ⊎ (after (remember i s) ≡ record s { seen_ids = i ∷ s.seen_ids })
unfolding remember
remember-after no_id s = inl refl
remember-after (text_id x) s = remember_if-after _ _ s _
remember-after (int_id n) s = remember_if-after _ _ s _

pub set_request_id-state :
    (i : RequestId) (s t : Session)
    → set_request_id i s ≡ value tt t
    → record s { request_id = i } ≡ t
unfolding set_request_id
set_request_id-state i s t h = cc

pub return-state {ℓ} :
    {A : Type ℓ} (a : A) (s : Session) {b : A} {t : Session} → return a s ≡ value b t → s ≡ t
unfolding return
return-state a s h = cc
