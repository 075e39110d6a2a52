-- ===== src/Policy/Merge/Laws.antt =====
-- Which value a merge of policylatch/policy.py keeps.
-- No key stands twice, as in every dict.
use mcp_guard.Base.{
  String, ◌≡◌, refl, ap, ◌∙◌, Bool, true, false, Option, none, some, [], ◌∷◌, arith, eq_iff, ◌==◌,
  if◌then◌else◌, inl, inr, List, Bool-cases, sym,
}
use mcp_guard.Base.Dict.{Dict, lookup, get_or, has_key, insert, lookup-insert}
use mcp_guard.Policy.{Rules}
use mcp_guard.Policy.Merge.{put_all, merge_rules}

abbrev pub Unique {ℓ} : {V : Type ℓ} → Dict V → Type 0
Unique [] = Unit
Unique ((k, _) ∷ d) = (has_key k d ≡ false) × Unique d

abbrev pub or_else {ℓ} : {V : Type ℓ} → Option V → Option V → Option V
or_else none o = o
or_else (some v) o = some v

lookup-absent {ℓ} :
    {V : Type ℓ} (j k : String) (d : Dict V)
    → has_key j d ≡ false
    → (j == k) ≡ true
    → lookup k d ≡ none
unfolding has_key lookup
lookup-absent j k [] h e = refl
lookup-absent j k ((i, w) ∷ d) h e =
    ground (arith, eq_iff j k, eq_iff i k, eq_iff i j, lookup-absent j k d)

some-none {ℓ} : {V : Type ℓ} {v : V} → ¬ (some v ≡ none)
some-none h = cc

or_else-insert {ℓ} :
    {V : Type ℓ} (found : Option V) (same : Bool) (v : V) (o : Option V)
    → (same ≡ true → found ≡ none)
    → or_else found (if same then some v else o) ≡ or_else (if same then some v else found) o
or_else-insert none true v o h = refl
or_else-insert none false v o h = refl
or_else-insert (some w) true v o h = absurd (some-none (h refl))
or_else-insert (some w) false v o h = refl

pub lookup-put_all {ℓ} :
    {V : Type ℓ} (d target : Dict V) (k : String)
    → Unique d
    → lookup k (put_all d target) ≡ or_else (lookup k d) (lookup k target)
unfolding put_all lookup
lookup-put_all [] target k u = refl
lookup-put_all ((j, v) ∷ d) target k (absent, u) =
    lookup-put_all d (insert j v target) k u
    ∙ (ap (or_else (lookup k d)) (lookup-insert j k v target)
        ∙ or_else-insert (lookup k d) (j == k) v (lookup k target) (lookup-absent j k d absent))

get_or-absent {ℓ} :
    {V : Type ℓ} (default : V) (k : String) (d : Dict V)
    → lookup k d ≡ none
    → get_or default k d ≡ default
unfolding get_or
get_or-absent default k d h = rw (h, get_or) refl

get_or-insert {ℓ} :
    {V : Type ℓ} (default v : V) (k j : String) (d : Dict V)
    → get_or default j (insert k v d) ≡ (if k == j then v else get_or default j d)
unfolding get_or
get_or-insert default v k j d = ground (arith, lookup-insert k j v d)

get_or-cons {ℓ} :
    {V : Type ℓ} (default v : V) (k j : String) (d : Dict V)
    → get_or default j ((k, v) ∷ d) ≡ (if k == j then v else get_or default j d)
unfolding get_or lookup
get_or-cons default v k j d = ground arith

-- The patterns that a mapping of rules gives under a section and a name.
abbrev pub rule_of : String → String → Dict Rules → Option (List String)
rule_of section name rules = lookup name (get_or [] section rules)

-- No section stands twice, and no name in a section.
abbrev pub WellFormed : Dict Rules → Type 0
WellFormed [] = Unit
WellFormed ((section, values) ∷ rest) =
    (has_key section rest ≡ false) × Unique values × WellFormed rest

merge_section :
    (s section name : String) (values found theirs : Rules)
    → Unique values
    → ((s == section) ≡ true → found ≡ [])
    → (target : Dict Rules) → ((s == section) ≡ true → get_or [] s target ≡ theirs)
    → or_else
        (lookup name found)
        (lookup name (if s == section then put_all values (get_or [] s target) else theirs))
      ≡ or_else (lookup name (if s == section then values else found)) (lookup name theirs)
unfolding lookup
merge_section s section name values found theirs u absent target same =
    elim (Bool-cases (s == section)) [
      | inl e ↦ rw (e, absent e, lookup-put_all values (get_or [] s target) name u, same e) refl
      | inr e ↦ rw e refl
    ]

-- If no section of the overlay stands twice, and no name in a section of it, then under each section
-- and name the merge has the patterns of the overlay if it gives some, else those of the target.
pub rule_of-merge_rules :
    (d target : Dict Rules) (section name : String)
    → WellFormed d
    → rule_of section name (merge_rules d target)
      ≡ or_else (rule_of section name d) (rule_of section name target)
unfolding merge_rules get_or lookup
rule_of-merge_rules [] target section name w = refl
rule_of-merge_rules ((s, values) ∷ d) target section name (absent, u, w) =
    let merged = put_all values (get_or [] s target) in
    rule_of-merge_rules d (insert s merged target) section name w
    ∙ (ap (λ r. or_else (rule_of section name d) (lookup name r))
          (get_or-insert [] merged s section target)
        ∙ (merge_section s section name values (get_or [] section d) (get_or [] section target) u
              (λ e. get_or-absent [] section d (lookup-absent s section d absent e)) target
              (λ e. ap (λ k. get_or [] k target) ((eq_iff s section).0 e))
            ∙ ap (λ r. or_else (lookup name r) (rule_of section name target))
                (sym (get_or-cons [] values s section d))))
