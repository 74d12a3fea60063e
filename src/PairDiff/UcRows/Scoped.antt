-- ===== src/PairDiff/UcRows/Scoped.antt =====
-- Where the rows of row filters and column masks stand (app/services/pair_diff.py).
use fabric_unified_permissio.Base.{
  ◌≡◌, refl, String, Bool, false, List, [], ◌∷◌, if_rule, if◌then◌else◌, not,
}
use fabric_unified_permissio.Base.Json.{Json, Fields, get, text_of, truthy}
use fabric_unified_permissio.Base.Outcome.{Outcome, ok, raised, Ensures, Ensures-bind, Ensures-last}
use fabric_unified_permissio.Base.Text.{is_empty, starts_with, split}
use fabric_unified_permissio.FineGrained.Scope.{FabricConstraintTranslation, Hashing}
use fabric_unified_permissio.PairDiff.{row_key_eq, Rows}
use fabric_unified_permissio.PairDiff.Constraints.{Recorded, record_constraint_row}
use fabric_unified_permissio.PairDiff.Constraints.Scoped.{Scoped, record_constraint_row-Scoped}
use fabric_unified_permissio.PairDiff.UcRows.{
  uc_filter, uc_mask, record_all, record_columns, record_uc_constraints, filter_recorded,
  mask_recorded, row_filters, masks_of, table_scope_of,
}

-- What is recorded is a constraint.
abbrev pub IsConstraint : Recorded → Type 0
IsConstraint c = is_empty c.constraint_kind ≡ false

module _ (H : Hashing) (catalog : String) (degraded : Bool) where
  pub filter_recorded-IsConstraint :
      (scope label signature : String) (d : Fields) (r : Outcome FabricConstraintTranslation)
      → IsConstraint (filter_recorded H catalog degraded scope label signature d r)
  filter_recorded-IsConstraint scope label signature d (ok t) = refl
  filter_recorded-IsConstraint scope label signature d (raised e) = refl

  pub mask_recorded-IsConstraint :
      (scope label signature : String) (d : Fields) (r : Outcome FabricConstraintTranslation)
      → IsConstraint (mask_recorded H catalog degraded scope label signature d r)
  mask_recorded-IsConstraint scope label signature d (ok t) = refl
  mask_recorded-IsConstraint scope label signature d (raised e) = refl

  module _ (P : String → Type 0) (resolver : String → Outcome Json) where
    record_all-Scoped :
        (scope fqn : String) {A : Type 0} (f : A → Outcome Recorded) (xs : List A) (rows : Rows)
        → ((x : A) → Ensures IsConstraint (f x))
        → Scoped P rows
        → Ensures (Scoped P) (record_all H catalog degraded resolver scope fqn f xs rows)
    unfolding record_all
    record_all-Scoped scope fqn f [] rows k h = h
    record_all-Scoped scope fqn f (x ∷ xs) rows k h =
        Ensures-bind IsConstraint (Scoped P) (f x) _ (k x) (λ c e.
          record_all-Scoped scope fqn f xs (record_constraint_row c rows) k
            (record_constraint_row-Scoped P c rows e h))

    uc_filter-IsConstraint :
        (scope fqn : String) (raw : Json)
        → Ensures IsConstraint (uc_filter H catalog degraded resolver scope fqn raw)
    unfolding uc_filter
    uc_filter-IsConstraint scope fqn raw =
        Ensures-last IsConstraint (resolver _) _
          (λ info. filter_recorded-IsConstraint scope _ "uc_row_filter" _ _)

    uc_mask-IsConstraint :
        (scope fqn : String) (columns : List String) (column : String) (raw : Json)
        → Ensures IsConstraint (uc_mask H catalog degraded resolver scope fqn columns column raw)
    unfolding uc_mask
    uc_mask-IsConstraint scope fqn columns column raw =
        Ensures-last IsConstraint (resolver _) _
          (λ info. mask_recorded-IsConstraint scope _ "uc_column_mask" _ _)

    record_columns-Scoped :
        (scope fqn : String) (columns : List String) (cs : List Json) (rows : Rows)
        → Scoped P rows
        → Ensures (Scoped P) (record_columns H catalog degraded resolver scope fqn columns cs rows)
    unfolding record_columns
    record_columns-Scoped scope fqn columns [] rows h = h
    record_columns-Scoped scope fqn columns (c ∷ cs) rows h =
        Ensures-bind (Scoped P) (Scoped P) _ _
          (record_all-Scoped scope fqn
            (uc_mask H catalog degraded resolver scope fqn columns (text_of (get c "name")))
            (masks_of c) rows (uc_mask-IsConstraint scope fqn columns _) h)
          (λ next g. record_columns-Scoped scope fqn columns cs next g)

    pub record_uc_constraints-Scoped :
        (scope fqn : String) (metadata : Json) (rows : Rows)
        → Scoped P rows
        → Ensures
            (Scoped P)
            (record_uc_constraints H catalog degraded resolver scope fqn metadata rows)
    unfolding record_uc_constraints
    record_uc_constraints-Scoped scope fqn metadata rows h =
        let at =
          if starts_with "table:" scope
          then scope
          else table_scope_of H catalog degraded fqn (split b'.' fqn) in
        if_rule {A = Outcome Rows} (Ensures (Scoped P)) (not (truthy metadata)) h (
          Ensures-bind (Scoped P) (Scoped P) _ _
            (record_all-Scoped at fqn (uc_filter H catalog degraded resolver at fqn)
              (row_filters metadata) rows (uc_filter-IsConstraint at fqn) h)
            (λ filtered g. record_columns-Scoped at fqn _ _ filtered g))
