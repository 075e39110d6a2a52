-- ===== src/Scanner/Complete.antt =====
-- scan_manifest in policylatch/scanners.py leaves out no entry of a manifest.
use mcp_guard.Base.{ℕ, suc, ◌≡◌, refl, false, Option, none, some, List, [], ◌∷◌, is_empty, Unicode}
use mcp_guard.Json.{Fields, field, end, Value, obj, arr, null, Items, cons, nil}
use mcp_guard.Jsonl.{Coding}
use mcp_guard.Manifest.{
  tools_of, tool_entry, tool_entries, server_entry, server_entries, servers_in, manifest_servers,
  listed_tools, entries_in, manifest_entries, ManifestEntry,
}
use mcp_guard.Models.{risk_for, highest, aggregate, Evaluation, Decision}
use mcp_guard.Policy.{Policy}
use mcp_guard.Result.{>>=-eq-ok, ok-injective, ok}
use mcp_guard.Scanner.{scan_manifest}
use mcp_guard.Scanner.Laws.{Pairs, scan_entries-Scanned, Scanned}
use mathlib.Core.Path.{subst}

tool_entries_nonempty :
    (index : ℕ) (tool : Value) (rest : Items) {entries : List ManifestEntry}
    → tool_entries index (cons tool rest) ≡ ok entries
    → is_empty entries ≡ false
unfolding tool_entries
tool_entries_nonempty index tool rest h =
    let (e, _, h1) = >>=-eq-ok (tool_entry index tool) _ h in
    let (more, _, h2) = >>=-eq-ok (tool_entries (suc index) rest) _ h1 in
    subst (λ xs. is_empty xs ≡ false) (ok-injective h2) refl

servers_in_nonempty :
    (servers : Fields) {entries : List ManifestEntry}
    → servers_in servers ≡ ok entries
    → is_empty entries ≡ false
unfolding servers_in server_entries
servers_in_nonempty end h = cc
servers_in_nonempty (field name server rest) h =
    let (e, _, h1) = >>=-eq-ok (server_entry name server) _ h in
    let (more, _, h2) = >>=-eq-ok (server_entries rest) _ h1 in
    subst (λ xs. is_empty xs ≡ false) (ok-injective h2) refl

manifest_servers_nonempty :
    (o : Option Value) {entries : List ManifestEntry}
    → manifest_servers o ≡ ok entries
    → is_empty entries ≡ false
unfolding manifest_servers
manifest_servers_nonempty (some (obj servers)) h = servers_in_nonempty servers h
manifest_servers_nonempty none h = cc
manifest_servers_nonempty (some _) h = cc

listed_tools_nonempty :
    (tools : Items) {entries : List ManifestEntry}
    → listed_tools tools ≡ ok entries
    → is_empty entries ≡ false
unfolding listed_tools
listed_tools_nonempty nil h = cc
listed_tools_nonempty (cons tool rest) h = tool_entries_nonempty 0 tool rest h

-- A manifest without an entry is an error.
manifest_entries_nonempty :
    (manifest : Fields) {entries : List ManifestEntry}
    → manifest_entries manifest ≡ ok entries
    → is_empty entries ≡ false
unfolding manifest_entries entries_in
manifest_entries_nonempty manifest h = choice (tools_of manifest) h
  where
    choice :
        (v : Value) {entries : List ManifestEntry}
        → entries_in v manifest ≡ ok entries
        → is_empty entries ≡ false
    choice null e = manifest_servers_nonempty _ e
    choice (arr tools) e = listed_tools_nonempty tools e
    choice _ e = cc

aggregate_total :
    (es : List Evaluation)
    → is_empty es ≡ false
    → (d : Decision) × (aggregate es ≡ ok (d, risk_for d))
unfolding aggregate highest
aggregate_total [] h = cc
aggregate_total (e ∷ es) h = (_, refl)

module _ ⦃u : Unicode⦄ (c : Coding) (policy : Policy) where
  Pairs-nonempty :
      (entries : List ManifestEntry) (es : List Evaluation)
      → Pairs (Scanned c policy) entries es
      → is_empty entries ≡ false
      → is_empty es ≡ false
  Pairs-nonempty [] es p h = cc
  Pairs-nonempty (entry ∷ rest) [] p h = elim p [ ]
  Pairs-nonempty (entry ∷ rest) (e ∷ more) p h = refl

  -- A scan that returns has one evaluation for each tool or server of the manifest, in their order and
  -- under its name, and at least one, so that aggregate returns too; an evaluation allows exactly if no
  -- rule on the name, the command, the description or the schema speaks against the entry and the base
  -- decision allows, and denies exactly if a reason denies, or there is no reason and the base decision denies.
  pub scan_manifest-Scanned :
      (manifest : Fields) {es : List Evaluation}
      → scan_manifest c manifest policy ≡ ok es
      → (entries : List ManifestEntry) × (manifest_entries manifest ≡ ok entries)
        × Pairs (Scanned c policy) entries es
        × ((d : Decision) × (aggregate es ≡ ok (d, risk_for d)))
  unfolding scan_manifest
  scan_manifest-Scanned manifest {es} h =
      let (entries, found, h1) = >>=-eq-ok (manifest_entries manifest) _ h in
      let pairs = scan_entries-Scanned c policy entries h1 in
      (
        entries,
        found,
        pairs,
        aggregate_total es
            (Pairs-nonempty entries es pairs (manifest_entries_nonempty manifest found)),
      )
