-- ===== src/Windows/Laws.antt =====
-- What a comparison of snapshots by policylatch/windows_compare.py says.
use mcp_guard.Base.{
  ℕ, ◌≤◌, String, ◌≡◌, refl, ap, ◌↔◌, ◌⊎◌, inl, inr, Bool, true, false, ◌&&◌, Option, none, some,
  arith, ◌==◌, if◌then◌else◌, Bool-cases,
}
use mcp_guard.Journal.{Parsed}
use mcp_guard.Journal.Append.{first}
use mcp_guard.Windows.{
  unchanged, names_within, same_facts, facts_change, presence_change, summary_change, is_known,
  instant, compare_windows_snapshots, StateSummary, WindowsAuditRecord, ObservedWindowsSnapshot,
  ChangeKind, created, updated, deleted, unknown_change, check_proposed,
}
use mcp_guard.Result.{>>=-eq-ok, raise_if-eq-ok, ok-injective, ok}
use mathlib.Core.Path.{subst}

abbrev pub BothPresent : StateSummary → StateSummary → Type 0
BothPresent before after = (before.present ≡ some true) × (after.present ≡ some true)

abbrev pub SameNames : StateSummary → StateSummary → Type 0
SameNames before after =
    (names_within before.facts after.facts ≡ true) × (names_within after.facts before.facts ≡ true)

-- What the two states have to be for a kind of change.
abbrev pub Explains : ChangeKind → StateSummary → StateSummary → Type 0
Explains created before after = (before.present ≡ some false) × (after.present ≡ some true)
Explains deleted before after = (before.present ≡ some true) × (after.present ≡ some false)
Explains updated before after =
    BothPresent before after
    × SameNames before after
    × (same_facts before.facts after.facts ≡ false)
Explains unchanged before after =
    ((before.present ≡ some false) × (after.present ≡ some false))
    ⊎ (BothPresent before after
        × SameNames before after
        × (same_facts before.facts after.facts ≡ true))
Explains unknown_change before after =
    (before.present ≡ none)
    ⊎ ((after.present ≡ none)
        ⊎ (BothPresent before after
            × (names_within before.facts after.facts && names_within after.facts before.facts
                ≡ false)))

both-Explains :
    (before after : StateSummary)
    → BothPresent before after
    → Explains (facts_change before.facts after.facts) before after
unfolding facts_change
both-Explains before after both =
    elim (Bool-cases
      (names_within before.facts after.facts && names_within after.facts before.facts)) [
        | inl names ↦
            let same_names : SameNames before after = (ground arith, ground arith) in
            elim (Bool-cases (same_facts before.facts after.facts)) [
              | inl same ↦ rw (names, same) (inr (both, same_names, same))
              | inr other ↦ rw (names, other) (both, same_names, other)
            ]
        | inr differ ↦ rw differ (inr (inr (both, differ)))
      ]

presence_change-Explains :
    (before after : StateSummary) (p q : Option Bool)
    → before.present ≡ p
    → after.present ≡ q
    → Explains (presence_change p q (facts_change before.facts after.facts)) before after
unfolding presence_change
presence_change-Explains before after none q e f = inl e
presence_change-Explains before after (some false) none e f = inr (inl f)
presence_change-Explains before after (some true) none e f = inr (inl f)
presence_change-Explains before after (some false) (some true) e f = (e, f)
presence_change-Explains before after (some true) (some false) e f = (e, f)
presence_change-Explains before after (some false) (some false) e f = inl (e, f)
presence_change-Explains before after (some true) (some true) e f =
    both-Explains before after (e, f)

summary_change-Explains :
    (before after : StateSummary) → Explains (summary_change before after) before after
unfolding summary_change
summary_change-Explains before after =
    presence_change-Explains before after before.present after.present refl refl

abbrev state_text : Bool → String
state_text known = if known then "verified" else "observed"

state_text_iff : (known : Bool) → (state_text known ≡ "verified") ↔ (known ≡ true)
state_text_iff true = (λ h. refl, λ h. refl)
state_text_iff false = (λ h. ap (λ s. s == "verified") h, λ h. absurd (cc h))

module _ (fromisoformat : String → Parsed) (isoformat : ℕ → String) where
  -- What a record says of two snapshots.
  pub record IsComparison (before after : ObservedWindowsSnapshot) (r : WindowsAuditRecord)
      : Type 0 where
    pub earlier : ℕ
    pub later : ℕ
    pub collected :
        instant fromisoformat isoformat before.collected_at "before.collected_at" ≡ ok earlier
    pub collected_later :
        instant fromisoformat isoformat after.collected_at "after.collected_at" ≡ ok later
    pub in_order : earlier ≤ later
    pub same_category : (before.category == after.category) ≡ true
    pub same_target : (before.target == after.target) ≡ true
    pub redacted : (before.state.redacted ≡ true) × (after.state.redacted ≡ true)
    pub about : (r.category ≡ after.category) × (r.target ≡ after.target)
    pub explained : Explains r.change before.state after.state
    pub verified : (r.verification_state ≡ "verified") ↔ (is_known r.change ≡ true)

  -- A comparison that returns is of two redacted snapshots of the same category and target, the second not
  -- older than the first; its kind of change is the one that the presence and the facts of the two states
  -- have to each other; and its state is verified exactly if the change is known.
  pub compare_windows_snapshots-IsComparison :
      (before after : ObservedWindowsSnapshot) (proposed : Option WindowsAuditRecord)
      {r : WindowsAuditRecord}
      → compare_windows_snapshots fromisoformat isoformat before after proposed ≡ ok r
      → IsComparison before after r
  unfolding compare_windows_snapshots
  compare_windows_snapshots-IsComparison before after proposed h =
      let (category, h1) = raise_if-eq-ok _ _ _ h in
      let (target, h2) = raise_if-eq-ok _ _ _ h1 in
      let (redacted, h3) = raise_if-eq-ok _ _ _ h2 in
      let (earlier, first, h4) =
        >>=-eq-ok (instant fromisoformat isoformat before.collected_at "before.collected_at") _
          h3 in
      let (later, second, h5) =
        >>=-eq-ok (instant fromisoformat isoformat after.collected_at "after.collected_at") _ h4 in
      let (order, h6) = raise_if-eq-ok _ _ _ h5 in
      let (_, _, h7) = >>=-eq-ok (check_proposed proposed after) _ h6 in
      subst (IsComparison before after) (ok-injective h7) (record {
        earlier = earlier;
        later = later;
        collected = first;
        collected_later = second;
        in_order = ground arith;
        same_category = ground arith;
        same_target = ground arith;
        redacted = (ground arith, ground arith);
        about = (refl, refl);
        explained = summary_change-Explains before.state after.state;
        verified = state_text_iff (is_known (summary_change before.state after.state));
      })
