-- ===== src/PairApply/Layers/Laws.antt =====
-- What the planners and the report of app/services/pair_apply.py promise.
use fabric_unified_permissio.Base.{◌+◌, String, ◌≡◌, refl, not, ◌&&◌, ◌||◌, List, [], ◌∷◌}
use fabric_unified_permissio.Base.{arith, length, string_eq, All, All-append}
use fabric_unified_permissio.Base.{◌==◌, count_of, if_rule, ◌⊎◌, inl, inr}
use fabric_unified_permissio.Base.Dict.{lookup}
use fabric_unified_permissio.PairApply.Layers.{ApplyAction, ApplyReport, n_ok, n_skipped, n_failed}
use fabric_unified_permissio.PairApply.Layers.{
  UcGrant, uc_parent_grants, uc_grant_operations, name_parts,
}
use fabric_unified_permissio.PairApply.Layers.{catalog_grant, schema_grant, uc_privileges_for_scope}
use fabric_unified_permissio.PairApply.Layers.{scoped, or_default}

counts_from :
    (xs : List ApplyAction)
    → count_of (λ a. a.ok && not a.skipped) xs
        + count_of (λ a. a.skipped) xs
        + count_of (λ a. not a.ok && not a.skipped) xs
      ≡ length xs
counts_from [] = refl
counts_from (a ∷ xs) = ground (arith, counts_from xs)

-- Every action of a report is counted once, as applied, as skipped or as failed.
pub report_counts : (r : ApplyReport) → n_ok r + n_skipped r + n_failed r ≡ length r.actions
report_counts r = counts_from r.actions

-- A privilege that lets its holder pass through a catalog or schema, and read nothing.
abbrev pub IsTraverse : String → Type 0
IsTraverse p = (p ≡ "USE_CATALOG") ⊎ (p ≡ "USE_SCHEMA")

abbrev pub IsTraverseGrant : UcGrant → Type 0
IsTraverseGrant g = All IsTraverse g.privileges

catalog_grant-IsTraverse :
    (t : String) (parts : List String) → All IsTraverseGrant (catalog_grant t parts)
unfolding catalog_grant
catalog_grant-IsTraverse t [] = tt
catalog_grant-IsTraverse t (p ∷ ps) =
    if_rule (All IsTraverseGrant) (t == "schema" || t == "table") ((inl refl, tt), tt) tt

schema_grant-IsTraverse :
    (t : String) (parts : List String) → All IsTraverseGrant (schema_grant t parts)
unfolding schema_grant
schema_grant-IsTraverse t [] = tt
schema_grant-IsTraverse t (p ∷ []) = tt
schema_grant-IsTraverse t (p ∷ q ∷ ps) =
    if_rule (All IsTraverseGrant) (t == "table") ((inr refl, tt), tt) tt

-- The grants on the parents of a schema or table let their holder pass through, and no more.
pub uc_parent_grants-IsTraverse :
    (t full_name : String) → All IsTraverseGrant (uc_parent_grants t full_name)
unfolding uc_parent_grants
uc_parent_grants-IsTraverse t full_name =
    All-append IsTraverseGrant _ _ (catalog_grant-IsTraverse t (name_parts full_name))
      (schema_grant-IsTraverse t (name_parts full_name))

object_use_privileges : (t : String) → All IsTraverse (uc_privileges_for_scope "OBJECT_USE" t)
unfolding uc_privileges_for_scope lookup string_eq
object_use_privileges t =
    if_rule (λ d. All IsTraverse (or_default "OBJECT_USE" (lookup "OBJECT_USE" (scoped d))))
      (t == "catalog") (inl refl, tt)
      (if_rule (λ d. All IsTraverse (or_default "OBJECT_USE" (lookup "OBJECT_USE" (scoped d))))
        (t == "schema") (inr refl, tt)
        (if_rule (λ d. All IsTraverse (or_default "OBJECT_USE" (lookup "OBJECT_USE" (scoped d))))
          (t == "table") tt (inl refl, tt)))

-- Applied to Unity Catalog, OBJECT_USE gives traversal and no access to data, on the target and on
-- its parents, whatever the type and the name of the target.
pub object_use-IsTraverse :
    (t full_name : String)
    → All IsTraverseGrant (uc_grant_operations t full_name (uc_privileges_for_scope "OBJECT_USE" t))
unfolding uc_grant_operations
object_use-IsTraverse t full_name =
    All-append IsTraverseGrant _ _ (uc_parent_grants-IsTraverse t full_name)
      (object_use_privileges t, tt)
