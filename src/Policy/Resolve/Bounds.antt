-- ===== src/Policy/Resolve/Bounds.antt =====
-- How much policylatch/policy.py reads for one policy.
-- The counts are in the limits.
use mcp_guard.Base.{ℕ, zero, suc, ◌≤◌, String, ◌≡◌, ap, List, [], ◌∷◌, arith}
use mcp_guard.Policy.Merge.{merge_resolved, Resolved}
use mcp_guard.Policy.Resolve.{
  max_policy_total_bytes, max_policy_files, count_read, read_mapping, resolve_reference,
  inherit_all, resolve_file, read_size, with_profile, PolicyFile, Files, Reads,
}
use mcp_guard.Result.{>>=-eq-ok, raise_if-eq-ok, ok-injective, Result, ok}
use mathlib.Core.Path.{subst}

pub record IsLimited (state : Reads) : Type 0 where
  pub files_bound : state.files ≤ max_policy_files
  pub bytes_bound : state.bytes ≤ max_policy_total_bytes

count_read-IsLimited :
    (size : ℕ) (state state' : Reads) → count_read size state ≡ ok state' → IsLimited state'
unfolding count_read
count_read-IsLimited size state state' h =
    let (small, h1) = raise_if-eq-ok _ _ _ h in
    let (few, h2) = raise_if-eq-ok _ _ _ h1 in
    let (total, h3) = raise_if-eq-ok _ _ _ h2 in
    let e = ok-injective h3 in
    subst IsLimited e (record { files_bound = ground arith; bytes_bound = ground arith })

module _ (disk : Files) (root : String) where
  abbrev Limits : (String → Reads → Result (Resolved × Reads)) → Type 0
  Limits resolve =
      (path : String) (state : Reads) (r : Resolved) (state' : Reads)
      → resolve path state ≡ ok (r, state')
      → IsLimited state'

  inherit_all-IsLimited :
      (resolve : String → Reads → Result (Resolved × Reads)) (path : String) (refs : List String)
      (target : Resolved) (state : Reads) (r : Resolved) (state' : Reads)
      → Limits resolve
      → IsLimited state
      → inherit_all disk root resolve path refs target state ≡ ok (r, state')
      → IsLimited state'
  unfolding inherit_all
  inherit_all-IsLimited resolve path [] target state r state' lim b h =
      subst IsLimited (ap (λ (p : Resolved × Reads). p.1) (ok-injective h)) b
  inherit_all-IsLimited resolve path (reference ∷ rest) target state r state' lim b h =
      let (next, found, h1) = >>=-eq-ok (resolve_reference disk root reference path) _ h in
      let (inherited, read, h2) = >>=-eq-ok (resolve next state) _ h1 in
      inherit_all-IsLimited resolve path rest (merge_resolved target inherited.0) inherited.1 r
        state' lim (lim next state inherited.0 inherited.1 read) h2

  read_mapping-IsLimited :
      (path : String) (state : Reads) (read : PolicyFile × Reads)
      → read_mapping disk root path state ≡ ok read
      → IsLimited read.1
  unfolding read_mapping
  read_mapping-IsLimited path state read h =
      let (size, sized, h1) = >>=-eq-ok (read_size disk root (disk.size path)) _ h in
      let (state', counted, h2) = >>=-eq-ok (count_read size state) _ h1 in
      let (raw, parsed, h3) = >>=-eq-ok (disk.document path) _ h2 in
      subst IsLimited (ap (λ (p : PolicyFile × Reads). p.1) (ok-injective h3))
        (count_read-IsLimited size state state' counted)

  -- A policy that is resolved has been read from at most 16 files with at most 4 MiB in all.
  pub resolve_file-IsLimited :
      (left : ℕ) (path : String) (stack : List String) (state : Reads) (r : Resolved)
      (state' : Reads)
      → resolve_file disk root left path stack state ≡ ok (r, state')
      → IsLimited state'
  unfolding resolve_file
  resolve_file-IsLimited zero path stack state r state' h = cc
  resolve_file-IsLimited (suc left) path stack state r state' h =
      let (fresh, h1) = raise_if-eq-ok _ _ _ h in
      let (read, mapped, h2) = >>=-eq-ok (read_mapping disk root path state) _ h1 in
      let (inherited, merged, h3) =
        >>=-eq-ok
          (inherit_all disk root (λ next. resolve_file disk root left next (path ∷ stack)) path
            read.0.extends (with_profile disk root read.0.profile) read.1)
          _ h2 in
      subst IsLimited (ap (λ (p : Resolved × Reads). p.1) (ok-injective h3)) (
        inherit_all-IsLimited _ path read.0.extends _ read.1 inherited.0 inherited.1
          (λ next s r' s'. resolve_file-IsLimited left next (path ∷ stack) s r' s')
          (read_mapping-IsLimited path state read mapped) merged)
