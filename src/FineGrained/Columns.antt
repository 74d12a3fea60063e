-- ===== src/FineGrained/Columns.antt =====
-- `build_fabric_column_constraint` of app/services/fine_grained_policy.py.
pub mod Safe
use fabric_unified_permissio.Base.{String, ◌<>◌, Bool, true, false, not, ◌&&◌, List, [], ◌∷◌}
use fabric_unified_permissio.Base.{◌==◌, string_eq, keep, map}
use fabric_unified_permissio.Base.Outcome.{Outcome, ok, ◌>>=◌}
use fabric_unified_permissio.Base.Text.{is_empty, strip}
use fabric_unified_permissio.FineGrained.Scope.{
  Check, FabricConstraintTranslation, require_safe_identifier, fabric_table_path, demand,
}

-- `for column in columns: _require_safe_identifier(column, "column")`
pub all_safe : List String → Check
all_safe [] = ok tt
all_safe (c ∷ cs) = require_safe_identifier c "column" >>= λ u. all_safe cs

abbrev pub shown_beside : String → String → Bool
shown_beside masked column = not (is_empty column) && not (column == masked)

abbrev pub visible : String → List String → List String
visible masked table_columns = keep (shown_beside masked) (map strip table_columns)

abbrev pub is_nil {ℓ} : {A : Type ℓ} → List A → Bool
is_nil [] = true
is_nil (x ∷ xs) = false

unfoldable pub build_fabric_column_constraint :
    String → String → String → List String → Outcome FabricConstraintTranslation
unfolding all_safe fabric_table_path
build_fabric_column_constraint scope default_catalog masked_column table_columns = do
  table_path ← fabric_table_path scope default_catalog
  a ←
      demand (not (is_empty (strip masked_column)))
        "UC column mask metadata did not identify the masked column"
  b ← require_safe_identifier (strip masked_column) "column"
  c ←
      demand (not (is_nil (visible (strip masked_column) table_columns)))
        "cannot create Fabric column constraint without visible columns"
  d ← all_safe (visible (strip masked_column) table_columns)
  ok (record {
    table_path = table_path;
    predicate = "";
    column_names = visible (strip masked_column) table_columns;
    note =
        "Fabric DAS cannot mask values; UC mask on '"
        <> strip masked_column
        <> "' maps to column-level visibility by excluding that column";
  })
