-- ===== src/PairDiff/Constraints/Paths.antt =====
-- The scopes that the paths of a data access role stand for are of the paired catalog, and its
-- constraints are recorded as such (app/services/pair_diff.py).
use fabric_unified_permissio.Base.{
  ◌≡◌, ◌⊎◌, inl, inr, refl, String, ◌<>◌, Bool, List, [], ◌∷◌, map, keep, All, if_rule, ◌==◌,
  string_eq,
}
use fabric_unified_permissio.Base.Json.{Json, get, elements, is_dict}
use fabric_unified_permissio.Base.Text.{is_empty, strip, lower, join}
use fabric_unified_permissio.FineGrained.Scope.{Hashing}
use fabric_unified_permissio.PairDiff.{Rows}
use fabric_unified_permissio.PairDiff.Constraints.{
  Recorded, record_each, row_recorded, column_recorded, record_fabric_constraints,
  scopes_from_dar_paths, scope_of_path, of_segments, under_tables, segments, is_root,
}
use fabric_unified_permissio.PairDiff.Constraints.Scoped.{Scoped, record_constraint_row-Scoped}

-- The catalog, or a schema or a table in it.
abbrev pub InCatalog : String → String → Type 0
InCatalog catalog scope =
    (scope ≡ "catalog:" <> catalog)
    ⊎ (((t : String) × (scope ≡ "schema:" <> catalog <> "." <> t))
        ⊎ ((t : String) × (scope ≡ "table:" <> catalog <> "." <> t)))

module _ (catalog : String) where
  under_tables-InCatalog : (ss : List String) → InCatalog catalog (under_tables catalog ss)
  under_tables-InCatalog [] = inl refl
  under_tables-InCatalog (schema ∷ []) = inr (inl (schema, refl))
  under_tables-InCatalog (schema ∷ t ∷ ts) = inr (inr (schema <> "." <> join "." (t ∷ ts), refl))

  of_segments-InCatalog : (ss : List String) → InCatalog catalog (of_segments catalog ss)
  of_segments-InCatalog [] = inl refl
  of_segments-InCatalog (s ∷ []) = if_rule (InCatalog catalog) (s == "*") (inl refl) (
      if_rule (InCatalog catalog) (lower s == "tables") (inl refl)
        (under_tables-InCatalog (s ∷ [])))
  of_segments-InCatalog (s ∷ t ∷ ts) =
      if_rule (InCatalog catalog) (lower s == "tables") (under_tables-InCatalog (t ∷ ts))
        (under_tables-InCatalog (s ∷ t ∷ ts))

  scope_of_path-InCatalog : (path : String) → InCatalog catalog (scope_of_path catalog path)
  unfolding scope_of_path
  scope_of_path-InCatalog path =
      if_rule (InCatalog catalog) (is_root (strip path)) (inl refl)
        (of_segments-InCatalog (segments (strip path)))

  each_path : (ps : List String) → All (InCatalog catalog) (map (scope_of_path catalog) ps)
  each_path [] = tt
  each_path (p ∷ ps) = (scope_of_path-InCatalog p, each_path ps)

  pub scopes-InCatalog :
      (paths : List String) → All (InCatalog catalog) (scopes_from_dar_paths catalog paths)
  unfolding scopes_from_dar_paths
  scopes-InCatalog [] = (inl refl, tt)
  scopes-InCatalog (p ∷ ps) = each_path (p ∷ ps)

module _ (P : String → Type 0) (H : Hashing) (catalog : String) (members : List Json) where
  record_each-Scoped :
      (f : Json → Recorded) (js : List Json) (rows : Rows)
      → ((j : Json) → is_empty (f j).constraint_kind ≡ Bool.false)
      → Scoped P rows
      → Scoped P (record_each H catalog members f js rows)
  unfolding record_each
  record_each-Scoped f [] rows k h = h
  record_each-Scoped f (j ∷ js) rows k h =
      record_each-Scoped f js _ k (record_constraint_row-Scoped P (f j) rows (k j) h)

  pub record_fabric_constraints-Scoped :
      (rule : Json) (rows : Rows)
      → Scoped P rows
      → Scoped P (record_fabric_constraints H catalog members rule rows)
  unfolding record_fabric_constraints row_recorded column_recorded
  record_fabric_constraints-Scoped rule rows h =
      let constraints = get rule "constraints" in
      let row_constraints = keep is_dict (elements (get constraints "rows")) in
      record_each-Scoped (column_recorded H catalog members)
        (keep is_dict (elements (get constraints "columns")))
        (record_each H catalog members (row_recorded H catalog members) row_constraints rows)
        (λ j. refl)
        (record_each-Scoped (row_recorded H catalog members) row_constraints rows (λ j. refl) h)
