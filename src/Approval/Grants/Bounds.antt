-- ===== src/Approval/Grants/Bounds.antt =====
-- The bound that policylatch/approval.py keeps on the uses of every stored grant.
use mcp_guard.Approval.Grants.{GrantStore, consume, add, consume_found, Grant}
use mcp_guard.Base.{ℕ, ◌+◌, ◌-◌, ◌≤◌, ◌<◌, String, ◌≡◌, refl, Option, none, some, arith}
use mcp_guard.Base.Dict.{lookup, lookup-insert, lookup-erase}

module _ (limit : ℕ) where
  -- Each grant has a use left, and no more than a response may give.
  abbrev pub InBounds : Option Grant → Type 0
  InBounds none = Unit
  InBounds (some g) = (0 < g.remaining_uses) × (g.remaining_uses ≤ limit)

  pub record IsBounded (store : GrantStore) : Type 0 where
    pub at_scope : (scope : String) → InBounds (lookup scope store)

  consume_found-InBounds :
      (scope other : String) (now : ℕ) (o : Option Grant) (store : GrantStore)
      → lookup scope store ≡ o
      → InBounds (lookup scope store)
      → InBounds (lookup other store)
      → InBounds (lookup other (consume_found scope now o store).1)
  unfolding consume_found
  consume_found-InBounds scope other now none store e h k = k
  consume_found-InBounds scope other now (some g) store e h k = ground (
    arith,
    lookup-erase scope other store,
    lookup-insert scope other (record g { remaining_uses = g.remaining_uses - 1 }) store,
  )

  pub consume-IsBounded :
      (scope : String) (now : ℕ) {store : GrantStore}
      → IsBounded store
      → IsBounded (consume scope now store).1
  unfolding consume
  consume-IsBounded scope now {store} b = record {
    at_scope = λ other.
        consume_found-InBounds scope other now (lookup scope store) store refl (b.at_scope scope)
          (b.at_scope other);
  }

  pub add-InBounds :
      (scope other : String) (now ttl uses : ℕ) (store : GrantStore)
      → 0 < uses
      → uses ≤ limit
      → InBounds (lookup other store)
      → InBounds (lookup other (add scope now ttl uses store))
  unfolding add
  add-InBounds scope other now ttl uses store lo hi b = ground (
    arith,
    lookup-insert scope other (record { expires_at = now + ttl; remaining_uses = uses }) store,
  )
