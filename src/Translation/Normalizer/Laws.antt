-- ===== src/Translation/Normalizer/Laws.antt =====
-- What the tables of permission-sync/src/translation/privilege_normalizer.py promise.
use fabric_unified_permissio.Base.{String, ◌≡◌, refl, none, some, [], ◌∷◌, arith}
use fabric_unified_permissio.Base.{string_eq, contains, Option-cases, inl, inr}
use fabric_unified_permissio.Base.{true}
use fabric_unified_permissio.Base.Dict.{Dict, lookup, values}
use fabric_unified_permissio.Base.Text.{strip, upper}
use fabric_unified_permissio.Translation.Normalizer.{PrivilegeNormalizer, table_of, match_case}
use fabric_unified_permissio.Translation.Normalizer.{normalize}

-- No two keys of the table differ in case alone.
abbrev pub CaseFree : Dict String String → Type 0
CaseFree [] = Unit
CaseFree ((k, v) ∷ table) = (match_case k table ≡ none) × CaseFree table

match_case-upper :
    (a b : String) (table : Dict String String)
    → upper a ≡ upper b
    → match_case a table ≡ match_case b table
unfolding match_case
match_case-upper a b [] h = refl
match_case-upper a b ((k, v) ∷ table) h = ground (arith, match_case-upper a b table h)

lookup-match_case :
    (key v : String) (table : Dict String String)
    → CaseFree table
    → lookup key table ≡ some v
    → match_case key table ≡ some v
unfolding match_case lookup
lookup-match_case key v [] c h = cc
lookup-match_case key v ((k, w) ∷ table) (fresh, c) h =
    ground (arith, lookup-match_case key v table c, match_case-upper key k table)

normalize-CaseFree :
    (n : PrivilegeNormalizer) (raw platform : String)
    → CaseFree (table_of platform n.to_canonical)
    → normalize n raw platform ≡ match_case (strip raw) (table_of platform n.to_canonical)
unfolding normalize
normalize-CaseFree n raw platform c =
    elim (Option-cases (lookup (strip raw) (table_of platform n.to_canonical))) [
      | inl e ↦ rw (e, normalize)
      | inr (v, e) ↦ rw (e, normalize) (rw (lookup-match_case (strip raw) v _ c e))
    ]

-- Over a table whose keys differ in more than case, two spellings of a privilege that agree up to
-- case and outer blanks have the same canonical class, or neither has one.
pub normalize_case :
    (n : PrivilegeNormalizer) (a b platform : String)
    → CaseFree (table_of platform n.to_canonical)
    → upper (strip a) ≡ upper (strip b)
    → normalize n a platform ≡ normalize n b platform
normalize_case n a b platform c h =
    rw (normalize-CaseFree n a platform c, normalize-CaseFree n b platform c)
      (match_case-upper (strip a) (strip b) _ h)

lookup-values :
    (key v : String) (table : Dict String String)
    → lookup key table ≡ some v
    → contains (values table) v ≡ true
unfolding lookup
lookup-values key v [] h = cc
lookup-values key v ((k, w) ∷ table) h = ground (arith, lookup-values key v table)

match_case-values :
    (key v : String) (table : Dict String String)
    → match_case key table ≡ some v
    → contains (values table) v ≡ true
unfolding match_case
match_case-values key v [] h = cc
match_case-values key v ((k, w) ∷ table) h = ground (arith, match_case-values key v table)

-- A class that is found is one of the platform's table.
pub normalize-values :
    (n : PrivilegeNormalizer) (raw platform v : String)
    → normalize n raw platform ≡ some v
    → contains (values (table_of platform n.to_canonical)) v ≡ true
unfolding normalize
normalize-values n raw platform v h =
    let table = table_of platform n.to_canonical in
    ground (arith, lookup-values (strip raw) v table, match_case-values (strip raw) v table)
