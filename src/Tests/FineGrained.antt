-- ===== src/Tests/FineGrained.antt =====
-- Runs of the constraint translation, and its theorems at concrete data.
use fabric_unified_permissio.Base.{some, ◌≡◌, refl, true, false, string_eq, [], ◌∷◌, ◌==◌, List}
use fabric_unified_permissio.Base.{String, map, not, ◌&&◌, contains, ◌∷◌}
use fabric_unified_permissio.Base.Json.{Json, str, arr, obj, end, field, nil, cons, get_field}
use fabric_unified_permissio.Base.Outcome.{ok, raised, is_ok}
use fabric_unified_permissio.Base.Text.{
  is_empty, strip, lower, upper, join, all_chars, split, before, after,
}
use fabric_unified_permissio.FineGrained.Scope.{
  FabricConstraintTranslation, function_param_names, safe_table, fabric_table_path, safe_identifier,
  table_parts_from_scope,
}
use fabric_unified_permissio.FineGrained.Predicate.{normalize_row_predicate}
use fabric_unified_permissio.FineGrained.Rows.{
  build_fabric_row_constraint, map_function_params, remove_databricks_current_user_wrapper,
  remove_databricks_group_predicate,
}
use fabric_unified_permissio.FineGrained.Predicate.{validate_safe_row_predicate}
use fabric_unified_permissio.FineGrained.Columns.{build_fabric_column_constraint}
use fabric_unified_permissio.FineGrained.Columns.Safe.{
  acceptable, column_constraint_accepted, column_constraint_hides,
}
use fabric_unified_permissio.FineGrained.Rows.Safe.{is_query_char, row_constraint_characters}
use fabric_unified_permissio.FineGrained.Scope.{Hashing, TableParts}
use fabric_unified_permissio.Base.Json.{get, elements}
use fabric_unified_permissio.PairDiff.{row_identity}
use fabric_unified_permissio.PairDiff.Constraints.{
  constraint_row, column_recorded, uc_mask_recorded,
}
use fabric_unified_permissio.PairDiff.Constraints.InSync.{applied_mask_in_sync}

normalize_test :
    normalize_row_predicate " SELECT * from s.t  where  a = 1\n and b=2 " ≡ "a = 1 and b=2"
unfolding normalize_row_predicate strip join
normalize_test = refl

wrapper_test :
    (remove_databricks_current_user_wrapper
      "CASE WHEN current_user() IN ('a', 'b') THEN (x = (1)) ELSE true END").expression
    ≡ "x = (1)"
unfolding remove_databricks_current_user_wrapper strip
wrapper_test = refl

group_test :
    remove_databricks_group_predicate false "is_account_group_member('g') AND x = 1"
    ≡ raised "Databricks group-membership predicates need explicit production mapping"
unfolding remove_databricks_group_predicate
group_test = refl

-- Two parameters that are bound to each other's names are not swapped: the second renaming takes the
-- words that the first one wrote.
swapped_params_test :
    map_function_params "a = 1 and b = 2" ("a" ∷ "b" ∷ []) ("b" ∷ "a" ∷ []) ≡ ok "a = 1 and a = 2"
unfolding map_function_params string_eq safe_identifier
swapped_params_test = refl

-- A word inside a text literal is renamed too.
literal_param_test :
    map_function_params "region = 'region'" ("region" ∷ []) ("area" ∷ []) ≡ ok "area = 'area'"
unfolding map_function_params string_eq safe_identifier
literal_param_test = refl

abbrev columns : List String
columns = "id" ∷ " ssn " ∷ "name" ∷ []

abbrev masked_ssn : FabricConstraintTranslation
masked_ssn = record {
  table_path = "/Tables/s/t";
  predicate = "";
  column_names = "id" ∷ "name" ∷ [];
  note =
      "Fabric DAS cannot mask values; UC mask on 'ssn' maps to column-level visibility by excluding that column";
}

column_constraint_accepted_example :
    is_ok (build_fabric_column_constraint "table:main.s.t" "main" "ssn" columns)
    ≡ acceptable "table:main.s.t" "main" "ssn" columns
column_constraint_accepted_example =
    column_constraint_accepted "table:main.s.t" "main" "ssn" columns

column_constraint_run :
    build_fabric_column_constraint "table:main.s.t" "main" "ssn" columns ≡ ok masked_ssn
unfolding build_fabric_column_constraint fabric_table_path safe_table table_parts_from_scope split
    before after string_eq safe_identifier strip all_chars
column_constraint_run = refl

column_constraint_hides_example :
    (contains masked_ssn.column_names "ssn" ≡ (
      contains (map strip columns) "ssn" && (not (is_empty "ssn") && not ("ssn" == strip "ssn"))))
    × ((contains masked_ssn.column_names "ssn" && not (safe_identifier "ssn")) ≡ false)
column_constraint_hides_example =
    column_constraint_hides "table:main.s.t" "main" "ssn" columns masked_ssn "ssn"
      column_constraint_run

abbrev filter_function : Json
filter_function = obj (
    field "data_type" (str "boolean") (
      field "routine_definition" (str "region = 'EU'") (
        field "input_params"
          (obj (field "parameters" (arr (cons (obj (field "name" (str "region") end)) nil)) end))
          end)))

abbrev by_area : FabricConstraintTranslation
by_area = record {
  table_path = "/Tables/s/t";
  predicate = "select * from s.t where area = 'EU'";
  column_names = [];
  note = "";
}

row_constraint_run :
    build_fabric_row_constraint "table:main.s.t" "main" filter_function ("area" ∷ []) false
    ≡ ok by_area
unfolding build_fabric_row_constraint safe_table table_parts_from_scope split before after string_eq
    safe_identifier strip all_chars upper lower get_field join map_function_params
    remove_databricks_current_user_wrapper remove_databricks_group_predicate
    validate_safe_row_predicate function_param_names
row_constraint_run = refl

row_constraint_characters_example : all_chars is_query_char by_area.predicate ≡ true
row_constraint_characters_example =
    row_constraint_characters "table:main.s.t" "main" filter_function ("area" ∷ []) false by_area
      row_constraint_run

abbrev hashing : Hashing
hashing = record { dumps = λ j. "{}"; sha256 = λ s. "0123456789abcdef0123" }

abbrev parts : TableParts
parts = record { catalog = "main"; schema = "s"; table = "t" }

abbrev written_mask : Json
written_mask = obj (
    field "tablePath" (str "/Tables/s/t")
      (field "columnNames" (arr (cons (str "id") (cons (str "name") nil))) end))

parts_run : table_parts_from_scope "table:main.s.t" "main" ≡ some parts
unfolding table_parts_from_scope split before after string_eq
parts_run = refl

mask_fields_run :
    (get written_mask "tablePath" ≡ str "/Tables/s/t")
    × (elements (get written_mask "columnNames") ≡ map str ("id" ∷ "name" ∷ []))
unfolding get_field string_eq
mask_fields_run = (refl, refl)

applied_mask_in_sync_example :
    row_identity (constraint_row (column_recorded hashing "main" [] written_mask))
    ≡ row_identity (constraint_row (uc_mask_recorded hashing "table:main.s.t" "ssn" masked_ssn end))
applied_mask_in_sync_example =
    applied_mask_in_sync hashing "main" parts "ssn" columns masked_ssn [] written_mask end parts_run
      column_constraint_run mask_fields_run.0 mask_fields_run.1
