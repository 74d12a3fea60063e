-- ===== src/PairDiff/AbacRows/Scoped.antt =====
-- The rows of policies by attribute are constraints (app/services/pair_diff.py).
use fabric_unified_permissio.Base.{
  ◌≡◌, refl, String, Bool, false, List, [], ◌∷◌, Option, none, some, if_rule, ◌==◌, string_eq, ◌||◌,
}
use fabric_unified_permissio.Base.Dict.{Dict}
use fabric_unified_permissio.Base.Json.{Json, is_dict, truthy, text_of}
use fabric_unified_permissio.Base.Outcome.{Outcome, Ensures, Ensures-bind, Ensures-last}
use fabric_unified_permissio.Base.Text.{is_empty, has_text, upper}
use fabric_unified_permissio.Abac.Parse.{Python}
use fabric_unified_permissio.Abac.Resolve.{
  GovernedTags, ResolvedTarget, resolve_policies, either_of,
}
use fabric_unified_permissio.FineGrained.Scope.{Hashing}
use fabric_unified_permissio.PairDiff.{Rows}
use fabric_unified_permissio.PairDiff.Constraints.{Recorded}
use fabric_unified_permissio.PairDiff.Constraints.Scoped.{Scoped, record_constraint_row-Scoped}
use fabric_unified_permissio.PairDiff.UcRows.Scoped.{
  IsConstraint, filter_recorded-IsConstraint, mask_recorded-IsConstraint,
}
use fabric_unified_permissio.PairDiff.AbacRows.{
  kind_and_spec, on_scope, policy_recorded, record_abac_policies, target_recorded, record_targets,
  with_tags, record_abac, dict_or_empty,
}

-- A kind, if there is one, is not blank.
abbrev HasKind : Option (String × Json) → Type 0
HasKind none = Unit
HasKind (some (kind, spec)) = is_empty kind ≡ false

kind_and_spec-HasKind : (policy : Json) → HasKind (kind_and_spec policy)
unfolding kind_and_spec
kind_and_spec-HasKind policy =
    let mask = either_of policy "column_mask" "columnMask" in
    let filter_of = either_of policy "row_filter" "rowFilter" in
    let kind = upper (text_of (either_of policy "policy_type" "policyType")) in
    if_rule HasKind (truthy mask || has_text "COLUMN_MASK" kind)
      {x = some ("column_mask", dict_or_empty mask)} refl
      (if_rule HasKind (truthy filter_of || has_text "ROW_FILTER" kind)
        {x = some ("row_filter", dict_or_empty filter_of)} {y = none} refl tt)

module _ (P : String → Type 0) (H : Hashing) where
  on_scope-Scoped :
      (policy : Json) (scope : String) (k : Option (String × Json)) (rows : Rows)
      → HasKind k
      → Scoped P rows
      → Scoped P (on_scope H policy scope k rows)
  on_scope-Scoped policy scope none rows e h = h
  on_scope-Scoped policy scope (some (kind, spec)) rows e h =
      if_rule {A = Rows} (Scoped P) (is_empty scope) h
        (record_constraint_row-Scoped P (policy_recorded H policy scope kind spec) rows e h)

  record_abac_policies-Scoped :
      (policies : List Json) (rows : Rows)
      → Scoped P rows
      → Scoped P (record_abac_policies H policies rows)
  unfolding record_abac_policies
  record_abac_policies-Scoped [] rows h = h
  record_abac_policies-Scoped (policy ∷ policies) rows h = record_abac_policies-Scoped policies _ (
      if_rule {A = Rows} (Scoped P) (is_dict policy)
        (on_scope-Scoped policy _ (kind_and_spec policy) rows (kind_and_spec-HasKind policy) h) h)

  module _ (catalog : String) (degraded : Bool) (resolver : String → Outcome Json)
      (columns : String → String → List String) where
    target_recorded-IsConstraint :
        (t : ResolvedTarget)
        → Ensures IsConstraint (target_recorded H catalog degraded resolver columns t)
    unfolding target_recorded
    target_recorded-IsConstraint t =
        if_rule {A = Outcome Recorded} (Ensures IsConstraint) (t.constraint_kind == "column_mask")
          (mask_recorded-IsConstraint H catalog degraded _ _ "abac_column_mask" _ _)
          (Ensures-last IsConstraint (resolver t.function_name) _
            (λ info. filter_recorded-IsConstraint H catalog degraded _ _ "abac_row_filter" _ _))

    record_targets-Scoped :
        (ts : List ResolvedTarget) (rows : Rows)
        → Scoped P rows
        → Ensures (Scoped P) (record_targets H catalog degraded resolver columns ts rows)
    unfolding record_targets
    record_targets-Scoped [] rows h = h
    record_targets-Scoped (t ∷ ts) rows h =
        Ensures-bind IsConstraint (Scoped P) (target_recorded H catalog degraded resolver columns t)
          _ (target_recorded-IsConstraint t)
          (λ c e. record_targets-Scoped ts _ (record_constraint_row-Scoped P c rows e h))

    with_tags-Scoped :
        (py : Python) (tags : Option GovernedTags) (policies : List Json)
        (tables : Dict String (List String)) (rows : Rows)
        → Scoped P rows
        → Ensures
            (Scoped P)
            (with_tags H catalog degraded resolver columns py tags policies tables rows)
    unfolding with_tags
    with_tags-Scoped py none policies tables rows h = record_abac_policies-Scoped policies rows h
    with_tags-Scoped py (some g) policies tables rows h =
        Ensures-last (Scoped P) (resolve_policies py g tables columns policies) _ (λ targets.
          Ensures-bind (Scoped P) (Scoped P)
            (record_targets H catalog degraded resolver columns targets rows) _
            (record_targets-Scoped targets rows h)
            (λ shown e. record_abac_policies-Scoped _ shown e))

    pub record_abac-Scoped :
        (py : Python) (tags : Option GovernedTags) (policies : List Json)
        (tables : Dict String (List String)) (rows : Rows)
        → Scoped P rows
        → Ensures
            (Scoped P)
            (record_abac H catalog degraded resolver columns py tags policies tables rows)
    unfolding record_abac
    record_abac-Scoped py tags [] tables rows h = h
    record_abac-Scoped py tags (p ∷ policies) tables rows h =
        with_tags-Scoped py tags (p ∷ policies) tables rows h
