-- ===== src/Translation/Normalizer.antt =====
-- permission-sync/src/translation/privilege_normalizer.py
pub mod Laws
use fabric_unified_permissio.Base.{String, Option, none, some, [], ◌∷◌}
use fabric_unified_permissio.Base.{◌==◌, string_eq, if◌then◌else◌}
use fabric_unified_permissio.Base.Dict.{Dict, lookup}
use fabric_unified_permissio.Base.Text.{strip, upper}

-- What `_load` reads from the matrix; a table that is missing reads as an empty one.
pub record PrivilegeNormalizer : Type 0 where
  pub to_canonical : Dict String (Dict String String)
  pub from_canonical : Dict String (Dict String (Option String))

-- `tables.get(platform) or {}`
abbrev pub table_of {ℓ} : {V : Type ℓ} → String → Dict String (Dict String V) → Dict String V
table_of platform tables = elim (lookup platform tables) [ none ↦ [] | some t ↦ t ]

-- `for k, v in table.items(): if k.upper() == key.upper()`
unfoldable pub match_case : String → Dict String String → Option String
match_case key [] = none
match_case key ((k, v) ∷ table) = if upper k == upper key then some v else match_case key table

unfoldable pub normalize : PrivilegeNormalizer → String → String → Option String
normalize n raw_privilege source_platform =
    let table = table_of source_platform n.to_canonical in
    let key = strip raw_privilege in
    elim (lookup key table) [ none ↦ match_case key table | some hit ↦ some hit ]

unfoldable pub denormalize : PrivilegeNormalizer → String → String → Option String
denormalize n access_class target_platform =
    elim (lookup access_class (table_of target_platform n.from_canonical)) [
      | none ↦ none
      | some val ↦ val
    ]
