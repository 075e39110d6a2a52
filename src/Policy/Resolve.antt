-- ===== src/Policy/Resolve.antt =====
-- How policylatch/policy.py reads a policy file and the files that it extends.
pub mod Bounds
pub mod Visits
-- A policy file after `_validate_mapping`; `profile` is the profile that it names, as `load_profile`
-- returns it.
use mcp_guard.Base.{
  ℕ, zero, suc, ◌+◌, String, Bool, not, Option, none, some, List, [], ◌∷◌, ltb, contains, codes,
}
use mcp_guard.Matching.{is_infix}
use mcp_guard.Policy.Merge.{empty_policy, merge, merge_resolved, Resolved, Overlay}
use mcp_guard.Result.{◌>>=◌, ◌>>◌, raise_if, policy_error, Result, err, ok}

pub record PolicyFile : Type 0 where
  pub profile : Option Resolved
  pub extends : List String
  pub own : Overlay

-- The file system: resolved paths, the bytes of a file (`none` if it cannot be read, at most one more
-- than the limit otherwise), and what its text says.
pub record Files : Type 0 where
  pub is_absolute : String → Bool
  pub candidate : String → String → String
  pub is_inside : String → String → Bool
  pub size : String → Option ℕ
  pub document : String → Result PolicyFile
  pub label : String → String → String

-- `state`
pub record Reads : Type 0 where
  pub files : ℕ
  pub bytes : ℕ

abbrev pub max_policy_bytes : ℕ
max_policy_bytes = 1048576

abbrev pub max_policy_total_bytes : ℕ
max_policy_total_bytes = 4194304

abbrev pub max_policy_files : ℕ
max_policy_files = 16

abbrev pub max_policy_depth : ℕ
max_policy_depth = 8

-- The counts of `_read_mapping`.
unfoldable pub count_read : ℕ → Reads → Result Reads
count_read size state = do
  raise_if (ltb max_policy_bytes size) (policy_error "Policy exceeds the byte limit.")
  raise_if (ltb max_policy_files (suc state.files))
      (policy_error "Policy inheritance exceeds the 16-file limit.")
  raise_if (ltb max_policy_total_bytes (state.bytes + size))
      (policy_error "Policy inheritance exceeds the total byte limit.")
  ok (record { files = suc state.files; bytes = state.bytes + size })

module _ (disk : Files) (root : String) where
  unfoldable pub read_size : Option ℕ → Result ℕ
  read_size none = err (policy_error "Could not read policy.")
  read_size (some n) = ok n

  -- _read_mapping and _validate_mapping
  unfoldable pub read_mapping : String → Reads → Result (PolicyFile × Reads)
  unfolding read_size
  read_mapping path state = do
    size ← read_size (disk.size path)
    state' ← count_read size state
    raw ← disk.document path
    ok (raw, state')

  unfoldable pub resolve_reference : String → String → Result String
  resolve_reference reference current = do
    raise_if (is_infix (codes "://") (codes reference))
        (policy_error "Remote policy includes are not supported.")
    raise_if (disk.is_absolute reference) (policy_error "Policy extends paths must be relative.")
    raise_if (not (disk.is_inside root (disk.candidate current reference)))
        (policy_error "Policy extends path must stay inside the root policy directory.")
    ok (disk.candidate current reference)

  -- The loop over the references.
  unfoldable pub inherit_all :
      (String → Reads → Result (Resolved × Reads))
      → String
      → List String
      → Resolved
      → Reads
      → Result (Resolved × Reads)
  inherit_all resolve path [] target state = ok (target, state)
  inherit_all resolve path (reference ∷ rest) target state = do
    next ← resolve_reference reference path
    inherited ← resolve next state
    inherit_all resolve path rest (merge_resolved target inherited.0) inherited.1

  unfoldable pub with_profile : Option Resolved → Resolved
  with_profile none = empty_policy
  with_profile (some profile) = merge_resolved empty_policy profile

  -- The number is the depth that is left: MAX_POLICY_DEPTH less the length of the stack.
  unfoldable pub resolve_file : ℕ → String → List String → Reads → Result (Resolved × Reads)
  unfolding with_profile
  resolve_file zero path stack state =
      err (policy_error "Policy inheritance exceeds the 8-level depth limit.")
  resolve_file (suc left) path stack state = do
    raise_if (contains stack path) (policy_error "Policy inheritance cycle detected.")
    read ← read_mapping path state
    inherited ←
        inherit_all (λ next. resolve_file left next (path ∷ stack)) path read.0.extends
          (with_profile read.0.profile) read.1
    ok (merge inherited.0 read.0.own (disk.label path root), inherited.1)

  unfoldable pub load_policy : String → Result (Resolved × Reads)
  load_policy path = resolve_file max_policy_depth path [] (record { files = 0; bytes = 0 })
