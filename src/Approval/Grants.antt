-- ===== src/Approval/Grants.antt =====
-- `SessionGrantStore` of policylatch/approval.py. Times are whole ticks of the monotonic clock; the
-- length of a grant is given in ticks too.
pub mod Laws
pub mod Bounds
use mcp_guard.Base.{
  ℕ, suc, ◌+◌, ◌-◌, String, Bool, true, false, ◌||◌, Option, none, some, List, [], ◌∷◌, leb, nat_eq,
  if◌then◌else◌,
}
use mcp_guard.Base.Dict.{Dict, lookup, insert, erase}

-- _Grant
pub record Grant : Type 0 where
  pub expires_at : ℕ
  pub remaining_uses : ℕ

abbrev pub GrantStore : Type 0
GrantStore = Dict Grant

-- The part of `consume` that follows a grant that was found.
consume_grant : String → ℕ → Grant → GrantStore → Bool × GrantStore
consume_grant scope now grant store =
    if leb grant.expires_at now || nat_eq grant.remaining_uses 0
    then (false, erase scope store)
    else if nat_eq (grant.remaining_uses - 1) 0
    then (true, erase scope store)
    else (true, insert scope (record grant { remaining_uses = grant.remaining_uses - 1 }) store)

consume_found : String → ℕ → Option Grant → GrantStore → Bool × GrantStore
unfolding consume_grant
consume_found scope now none store = (false, store)
consume_found scope now (some grant) store = consume_grant scope now grant store

unfoldable pub consume : String → ℕ → GrantStore → Bool × GrantStore
unfolding consume_found
consume scope now store = consume_found scope now (lookup scope store) store

unfoldable pub add : String → ℕ → ℕ → ℕ → GrantStore → GrantStore
add scope now ttl max_uses store =
    insert scope (record { expires_at = now + ttl; remaining_uses = max_uses }) store

-- A run of `consume` at one scope: how many of the calls, at the given times, were granted.
unfoldable pub consume_all : String → List ℕ → GrantStore → ℕ × GrantStore
consume_all scope [] store = (0, store)
consume_all scope (now ∷ times) store =
    let (granted, store') = consume scope now store in
    let (count, last) = consume_all scope times store' in
    (if granted then suc count else count, last)
