-- ===== src/Approval/Grants/Laws.antt =====
-- A grant of policylatch/approval.py is used at most as often as it says, and not after it expires.
use mcp_guard.Approval.Grants.{GrantStore, consume, add, consume_found, Grant, consume_all}
use mcp_guard.Base.{
  ℕ, ◌+◌, ◌-◌, ◌≤◌, ◌<◌, String, ◌≡◌, refl, false, Option, none, some, arith, ltb, ◌==◌,
  if◌then◌else◌, suc, Bool, ◌&&◌, List, [], ◌∷◌,
}
use mcp_guard.Base.Dict.{lookup, lookup-insert, lookup-erase, insert}
use text.Mathlib.TextPositions.{eq_refl}
use Prim.Native.Nat.{min}

-- The uses that a scope has left at a time.
abbrev uses_at : ℕ → Option Grant → ℕ
uses_at now none = 0
uses_at now (some g) = if ltb now g.expires_at then g.remaining_uses else 0

abbrev pub uses_left : String → ℕ → GrantStore → ℕ
uses_left scope now store = uses_at now (lookup scope store)

abbrev used : Grant → Grant
used g = record g { remaining_uses = g.remaining_uses - 1 }

consume_found-uses_left :
    (scope : String) (now : ℕ) (o : Option Grant) (store : GrantStore)
    → lookup scope store ≡ o
    → ((consume_found scope now o store).0 ≡ ltb 0 (uses_at now o))
      × (uses_left scope now (consume_found scope now o store).1 ≡ uses_at now o - 1)
unfolding consume_found
consume_found-uses_left scope now none store h = ground arith
consume_found-uses_left scope now (some g) store h =
    ground (
      arith,
      lookup-erase scope scope store,
      lookup-insert scope scope (used g) store,
      eq_refl scope,
    )

-- `consume` grants exactly if the scope has a use left, and takes one.
pub consume-uses_left :
    (scope : String) (now : ℕ) (store : GrantStore)
    → ((consume scope now store).0 ≡ ltb 0 (uses_left scope now store))
      × (uses_left scope now (consume scope now store).1 ≡ uses_left scope now store - 1)
unfolding consume
consume-uses_left scope now store =
    consume_found-uses_left scope now (lookup scope store) store refl

-- A `consume` of one scope leaves every other scope as it was.
pub lookup-consume_other :
    (scope other : String) (now : ℕ) (store : GrantStore)
    → (scope == other) ≡ false
    → lookup other (consume scope now store).1 ≡ lookup other store
unfolding consume
lookup-consume_other scope other now store differ = go (lookup scope store)
  where
    go : (o : Option Grant) → lookup other (consume_found scope now o store).1 ≡ lookup other store
    go none = refl
    go (some g) =
        ground (arith, lookup-erase scope other store, lookup-insert scope other (used g) store)

-- Every grant that a scope holds has a use left.
abbrev pub HasUses : Option Grant → Type 0
HasUses none = Unit
HasUses (some g) = 0 < g.remaining_uses

pub add-HasUses :
    (scope other : String) (now ttl uses : ℕ) (store : GrantStore)
    → 0 < uses
    → HasUses (lookup other store)
    → HasUses (lookup other (add scope now ttl uses store))
unfolding add
add-HasUses scope other now ttl uses store some_use h = ground (
  arith,
  lookup-insert scope other (record { expires_at = now + ttl; remaining_uses = uses }) store,
)

-- What `consume` answers, and what it leaves at its scope.
abbrev granted : ℕ → Option Grant → Bool
granted now o = ltb 0 (uses_at now o)

abbrev after : ℕ → Option Grant → Option Grant
after now none = none
after now (some g) = if ltb now g.expires_at && ltb 1 g.remaining_uses then some (used g) else none

consume_found-after :
    (scope : String) (now : ℕ) (o : Option Grant) (store : GrantStore)
    → lookup scope store ≡ o
    → ((consume_found scope now o store).0 ≡ granted now o)
      × (lookup scope (consume_found scope now o store).1 ≡ after now o)
unfolding consume_found
consume_found-after scope now none store h = (refl, h)
consume_found-after scope now (some g) store h =
    ground (
      arith,
      lookup-erase scope scope store,
      lookup-insert scope scope (used g) store,
      eq_refl scope,
    )

-- How many of the times lie before the end of a grant.
abbrev pub count_before : ℕ → List ℕ → ℕ
count_before expires [] = 0
count_before expires (t ∷ ts) =
    let rest = count_before expires ts in if ltb t expires then suc rest else rest

-- The times do not go back, from `start` on.
abbrev pub Ascending : ℕ → List ℕ → Type 0
Ascending start [] = Unit
Ascending start (t ∷ ts) = (start ≤ t) × Ascending t ts

count_before-expired :
    (expires start : ℕ) (ts : List ℕ)
    → Ascending start ts
    → expires ≤ start
    → count_before expires ts ≡ 0
count_before-expired expires start [] a h = refl
count_before-expired expires start (t ∷ ts) (from, a) h =
    ground (arith, count_before-expired expires t ts a)

abbrev allowance : Option Grant → List ℕ → ℕ
allowance none ts = 0
allowance (some g) ts = min g.remaining_uses (count_before g.expires_at ts)

allowance-step :
    (now : ℕ) (ts : List ℕ) (o : Option Grant)
    → Ascending now ts
    → (if granted now o then suc (allowance (after now o) ts) else allowance (after now o) ts)
      ≡ allowance o (now ∷ ts)
allowance-step now ts none a = refl
allowance-step now ts (some g) a = ground (arith, count_before-expired g.expires_at now ts a)

consume_all-allowance :
    (scope : String) (start : ℕ) (ts : List ℕ) (o : Option Grant) (store : GrantStore)
    → Ascending start ts
    → lookup scope store ≡ o
    → (consume_all scope ts store).0 ≡ allowance o ts
unfolding consume_all consume
consume_all-allowance scope start [] none store a h = refl
consume_all-allowance scope start [] (some g) store a h = omega arith
consume_all-allowance scope start (now ∷ ts) o store (from, a) h =
    let (answer, left) = consume_found-after scope now o store h in
    rw h (
      ground (
        arith,
        answer,
        allowance-step now ts o a,
        consume_all-allowance scope now ts (after now o) (consume_found scope now o store).1 a left,
      ))

-- Of the calls of `consume` that follow an `add` for the scope, at times that do not go back, as many
-- are granted as the grant has uses, or as come before its end, whichever is less.
pub consume_all-add :
    (scope : String) (now ttl uses : ℕ) (ts : List ℕ) (store : GrantStore)
    → Ascending now ts
    → (consume_all scope ts (add scope now ttl uses store)).0
      ≡ min uses (count_before (now + ttl) ts)
unfolding add
consume_all-add scope now ttl uses ts store a =
    let g : Grant = record { expires_at = now + ttl; remaining_uses = uses } in
    consume_all-allowance scope now ts (some g) (insert scope g store) a
      (ground (arith, lookup-insert scope scope g store, eq_refl scope))
