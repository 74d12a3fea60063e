-- ===== src/PairDiff/Constraints/InSync.antt =====
-- A mask that was applied compares as in sync (app/services/fine_grained_policy.py and
-- app/services/pair_diff.py).
use fabric_unified_permissio.Base.{
  String, true, ◌≡◌, refl, List, [], ◌∷◌, Option, some, map, subst, ap, ◌∙◌, not,
}
use fabric_unified_permissio.Base.Json.{Json, str, Fields, get, text_of, elements}
use fabric_unified_permissio.Base.Outcome.{ok, Ensures, Ensures-bind, Ensures-last}
use fabric_unified_permissio.Base.Text.{is_empty, strip}
use fabric_unified_permissio.FineGrained.Columns.{
  visible, all_safe, is_nil, build_fabric_column_constraint,
}
use fabric_unified_permissio.FineGrained.Scope.{
  demand-Ensures, demand, require_safe_identifier, safe_identifier, TableParts,
  table_parts_from_scope, at_table, safe_table, path_of, fabric_table_path,
  FabricConstraintTranslation, Hashing,
}
use fabric_unified_permissio.PairDiff.{row_identity}
use fabric_unified_permissio.PairDiff.Constraints.{
  scope_from_table_path, constraint_row, column_recorded, uc_mask_recorded,
}
use fabric_unified_permissio.PairDiff.Constraints.RoundTrip.{
  canonical_scope, scope_from_table_path-path_of,
}

module _ (scope catalog : String) (t : TableParts)
    (h : table_parts_from_scope scope catalog ≡ some t) where
  abbrev ReadsBack : String → Type 0
  ReadsBack p = scope_from_table_path catalog p ≡ canonical_scope catalog t

  found_table :
      (o : Option TableParts) (e : String) → o ≡ some t → Ensures (λ u. u ≡ t) (at_table o e)
  found_table o e g = rw g refl

  path_back : Ensures ReadsBack (fabric_table_path scope catalog)
  unfolding fabric_table_path safe_table
  path_back =
      let Q : TableParts → Type 0 = λ u. ReadsBack (path_of u) in
      Ensures-bind Q ReadsBack
        (safe_table scope catalog "fine-grained Fabric DAS constraints require table scope") _
        (Ensures-bind (λ u. u ≡ t) Q
          (at_table (table_parts_from_scope scope catalog)
            "fine-grained Fabric DAS constraints require table scope")
          _ (found_table (table_parts_from_scope scope catalog) _ h)
          (λ u hu.
            Ensures-bind (λ a. safe_identifier u.schema ≡ true) Q
              (require_safe_identifier u.schema "schema") _
              (demand-Ensures (safe_identifier u.schema) _)
              (λ a ha.
                Ensures-bind (λ b. safe_identifier u.table ≡ true) Q
                  (require_safe_identifier u.table "table") _
                  (demand-Ensures (safe_identifier u.table) _)
                  (λ b hb.
                    scope_from_table_path-path_of catalog u ha hb
                    ∙ ap (canonical_scope catalog) hu))))
        (λ u hq. hq)

  mask_back :
      (masked : String) (columns : List String)
      → Ensures
          (λ tr. ReadsBack tr.table_path)
          (build_fabric_column_constraint scope catalog masked columns)
  unfolding build_fabric_column_constraint
  mask_back masked columns =
      let P : FabricConstraintTranslation → Type 0 = λ tr. ReadsBack tr.table_path in
      Ensures-bind ReadsBack P (fabric_table_path scope catalog) _ path_back (λ p hp.
        Ensures-last P (demand (not (is_empty (strip masked))) _) _ (λ a.
          Ensures-last P (require_safe_identifier (strip masked) "column") _ (λ b.
            Ensures-last P (demand (not (is_nil (visible (strip masked) columns))) _) _
              (λ c. Ensures-last P (all_safe (visible (strip masked) columns)) _ (λ d. hp)))))

texts_back : (xs : List String) → map text_of (map str xs) ≡ xs
texts_back [] = refl
texts_back (x ∷ xs) = ap (λ l. x ∷ l) (texts_back xs)

-- A mask that was applied compares as in sync. If a mask of a table is translated, and a data access
-- role of the mirrored item holds a column constraint with the path and the columns of the
-- translation, then the row of that constraint has the identity of the row of the mask, so that the
-- merge makes one row of both.
pub applied_mask_in_sync :
    (H : Hashing) (catalog : String) (t : TableParts) (masked : String) (columns : List String)
    (tr : FabricConstraintTranslation) (members : List Json) (constraint : Json) (details : Fields)
    → table_parts_from_scope (canonical_scope catalog t) catalog ≡ some t
    → build_fabric_column_constraint (canonical_scope catalog t) catalog masked columns ≡ ok tr
    → get constraint "tablePath" ≡ str tr.table_path
    → elements (get constraint "columnNames") ≡ map str tr.column_names
    → row_identity (constraint_row (column_recorded H catalog members constraint))
      ≡ row_identity
          (constraint_row (uc_mask_recorded H (canonical_scope catalog t) masked tr details))
unfolding column_recorded
applied_mask_in_sync H catalog t masked columns tr members constraint details hp hb hpath hcols =
    let back : scope_from_table_path catalog tr.table_path ≡ canonical_scope catalog t =
      subst (Ensures (λ u. scope_from_table_path catalog u.table_path ≡ canonical_scope catalog t))
        hb (mask_back (canonical_scope catalog t) catalog t hp masked columns) in
    rw (hpath, hcols) (rw (back, texts_back tr.column_names) refl)
