-- ===== src/Policy/Resolve/Visits.antt =====
-- The files that policylatch/policy.py reads for one policy: the file itself, and those of its extends.
use mcp_guard.Base.{
  ℕ, zero, suc, ◌+◌, ◌≤◌, String, ◌≡◌, ap, ◌∙◌, Option, none, some, List, [], ◌∷◌, ◌++◌, arith,
  length, length-append, All, All-append,
}
use mcp_guard.Journal.Append.{first}
use mcp_guard.Policy.Resolve.{Reads}
use mcp_guard.Policy.Merge.{merge_resolved, Resolved}
use mcp_guard.Policy.Resolve.{
  max_policy_bytes, max_policy_total_bytes, max_policy_files, max_policy_depth, count_read,
  read_size, read_mapping, resolve_reference, inherit_all, with_profile, resolve_file, load_policy,
  PolicyFile, Files,
}
use mcp_guard.Policy.Resolve.Bounds.{resolve_file-IsLimited}
use mcp_guard.Result.{>>=-eq-ok, raise_if-eq-ok, ok-injective, Result, ok}
use mathlib.Core.Path.{subst}

size_or_zero : Option ℕ → ℕ
size_or_zero none = 0
size_or_zero (some n) = n

module _ (disk : Files) (root : String) where
  mutual
    -- Reading the policy of a path reads these files, in this order; a file that is extended twice is read
    -- twice.
    pub data Visits : String → List String → Type 0 where
      visit :
          (path : String) (document : PolicyFile) (paths : List String)
          → disk.document path ≡ ok document
          → VisitsAll path document.extends paths
          → Visits path (path ∷ paths)

    pub data VisitsAll : String → List String → List String → Type 0 where
      none_left : (path : String) → VisitsAll path [] []
      one_more :
          (path reference next : String) (rest paths others : List String)
          → resolve_reference disk root reference path ≡ ok next
          → Visits next paths
          → VisitsAll path rest others
          → VisitsAll path (reference ∷ rest) (paths ++ others)

  -- The bytes of the files together.
  unfoldable pub total_size : List String → ℕ
  unfolding size_or_zero
  total_size [] = 0
  total_size (path ∷ paths) = size_or_zero (disk.size path) + total_size paths

  -- The file can be read and is not too large.
  abbrev pub IsSmall : String → Type 0
  IsSmall path = (n : ℕ) × (disk.size path ≡ some n) × (n ≤ max_policy_bytes)

  -- The counts have grown by these files.
  record Grown (state state' : Reads) (paths : List String) : Type 0 where
    files : state'.files ≡ state.files + length paths
    bytes : state'.bytes ≡ state.bytes + total_size paths
    small : All IsSmall paths

  total_size-append :
      (paths others : List String)
      → total_size (paths ++ others) ≡ total_size paths + total_size others
  unfolding total_size
  total_size-append [] others = omega arith
  total_size-append (p ∷ ps) others = omega (arith, total_size-append ps others)

  Grown-append :
      (a b d : Reads) (paths others : List String)
      → Grown a b paths
      → Grown b d others
      → Grown a d (paths ++ others)
  Grown-append a b d paths others g h = record {
    files = omega (arith, g.files, h.files, length-append paths others);
    bytes = omega (arith, g.bytes, h.bytes, total_size-append paths others);
    small = All-append IsSmall paths others g.small h.small;
  }

  read_mapping-Grown :
      (path : String) (state : Reads) (document : PolicyFile) (state' : Reads)
      → read_mapping disk root path state ≡ ok (document, state')
      → (disk.document path ≡ ok document) × Grown state state' (path ∷ [])
  unfolding read_mapping count_read total_size
  read_mapping-Grown path state document state' h =
      let (size, sized, h1) = >>=-eq-ok (read_size disk root (disk.size path)) _ h in
      let (counted, counting, h2) = >>=-eq-ok (count_read size state) _ h1 in
      let (raw, parsed, h3) = >>=-eq-ok (disk.document path) _ h2 in
      let (small, k1) = raise_if-eq-ok _ _ _ counting in
      let (_, k2) = raise_if-eq-ok _ _ _ k1 in
      let (_, k3) = raise_if-eq-ok _ _ _ k2 in
      let has_size = read_size-eq-ok (disk.size path) sized in
      let same_raw : raw ≡ document = ap (λ (p : PolicyFile × Reads). p.0) (ok-injective h3) in
      let same : counted ≡ state' = ap (λ (p : PolicyFile × Reads). p.1) (ok-injective h3) in
      let grown : Grown state (record { files = suc state.files; bytes = state.bytes + size })
          (path ∷ []) =
        record {
          files = omega arith;
          bytes = rw has_size (omega arith);
          small = ((size, has_size, ground arith), tt);
        } in
      (
        parsed ∙ ap ok same_raw,
        subst (λ r. Grown state r (path ∷ [])) (ok-injective k3 ∙ same) grown,
      )
    where
      read_size-eq-ok : (o : Option ℕ) {n : ℕ} → read_size disk root o ≡ ok n → o ≡ some n
      read_size-eq-ok none e = cc
      read_size-eq-ok (some n) e = ap some (ok-injective e)

  abbrev Visited : String → Reads → Reads → Type 0
  Visited path state state' = (paths : List String) × Visits path paths × Grown state state' paths

  inherit_all-Grown :
      (resolve : String → Reads → Result (Resolved × Reads)) (path : String) (refs : List String)
      (target : Resolved) (state : Reads) (r : Resolved) (state' : Reads)
      → ((next : String) (s : Reads) (found : Resolved) (s' : Reads)
          → resolve next s ≡ ok (found, s')
          → Visited next s s')
      → inherit_all disk root resolve path refs target state ≡ ok (r, state')
      → (paths : List String) × VisitsAll path refs paths × Grown state state' paths
  unfolding inherit_all total_size
  inherit_all-Grown resolve path [] target state r state' visited h =
      let same : state ≡ state' = ap (λ (p : Resolved × Reads). p.1) (ok-injective h) in
      (
        [],
        none_left path,
        subst (λ s. Grown state s []) same
            (record { files = omega arith; bytes = omega arith; small = tt }),
      )
  inherit_all-Grown resolve path (reference ∷ rest) target state r state' visited h =
      let (next, found, h1) = >>=-eq-ok (resolve_reference disk root reference path) _ h in
      let (inherited, read, h2) = >>=-eq-ok (resolve next state) _ h1 in
      let (paths, tree, grown) = visited next state inherited.0 inherited.1 read in
      let (others, trees, more) =
        inherit_all-Grown resolve path rest (merge_resolved target inherited.0) inherited.1 r state'
          visited h2 in
      (
        paths ++ others,
        one_more path reference next rest paths others found tree trees,
        Grown-append state inherited.1 state' paths others grown more,
      )

  resolve_file-Visited :
      (left : ℕ) (path : String) (stack : List String) (state : Reads) (r : Resolved)
      (state' : Reads)
      → resolve_file disk root left path stack state ≡ ok (r, state')
      → Visited path state state'
  unfolding resolve_file
  resolve_file-Visited zero path stack state r state' h = cc
  resolve_file-Visited (suc left) path stack state r state' h =
      let (fresh, h1) = raise_if-eq-ok _ _ _ h in
      let (read, mapped, h2) = >>=-eq-ok (read_mapping disk root path state) _ h1 in
      let (inherited, merged, h3) =
        >>=-eq-ok
          (inherit_all disk root (λ next. resolve_file disk root left next (path ∷ stack)) path
            read.0.extends (with_profile disk root read.0.profile) read.1)
          _ h2 in
      let (parsed, first) = read_mapping-Grown path state read.0 read.1 mapped in
      let (paths, trees, grown) =
        inherit_all-Grown _ path read.0.extends _ read.1 inherited.0 inherited.1
          (λ next s found s'. resolve_file-Visited left next (path ∷ stack) s found s') merged in
      let same : inherited.1 ≡ state' = ap (λ (p : Resolved × Reads). p.1) (ok-injective h3) in
      (
        path ∷ paths,
        visit path read.0 paths parsed trees,
        subst (λ s. Grown state s (path ∷ paths)) same
            (Grown-append state read.1 inherited.1 (path ∷ []) paths first grown),
      )

  -- A policy that is loaded has been read from the file of its path and, in turn, from all that the documents
  -- of these files extend: at most 16 files, counted as often as they are read, each of at most 1048576 bytes
  -- and together of at most 4194304.
  pub load_policy-Visits :
      (path : String) (r : Resolved) (state : Reads)
      → load_policy disk root path ≡ ok (r, state)
      → (paths : List String) × Visits path paths
        × (length paths ≤ max_policy_files)
        × (total_size paths ≤ max_policy_total_bytes)
        × All IsSmall paths
  unfolding load_policy
  load_policy-Visits path r state h =
      let start : Reads = record { files = 0; bytes = 0 } in
      let (paths, tree, grown) = resolve_file-Visited max_policy_depth path [] start r state h in
      let limited = resolve_file-IsLimited disk root max_policy_depth path [] start r state h in
      (
        paths,
        tree,
        omega (arith, grown.files, limited.files_bound),
        omega (arith, grown.bytes, limited.bytes_bound),
        grown.small,
      )
