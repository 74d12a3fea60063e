-- ===== src/Tests/UcSql.antt =====
-- Runs of the SQL for Unity Catalog, and its theorems at concrete data.
use fabric_unified_permissio.Base.{◌≡◌, refl, true, false, string_eq, [], ◌∷◌, none, List}
use fabric_unified_permissio.Base.Dict.{lookup, insert}
use fabric_unified_permissio.Base.Json.{
  Json, Fields, str, arr, obj, end, field, nil, cons, get_field,
}
use fabric_unified_permissio.Base.Outcome.{ok, Ensures}
use fabric_unified_permissio.Base.Text.{strip, has_char, lower}
use fabric_unified_permissio.PairApply.Layers.{is_guid}
use fabric_unified_permissio.PairDiff.{DiffRow}
use fabric_unified_permissio.PairApply.Graph.{resolve_fabric_principal_to_uc_principal}
use fabric_unified_permissio.PairApply.UcSql.{
  sql_string, constraint_uc_member_principals, fabric_constraint_uc_sql,
}
use fabric_unified_permissio.PairApply.UcSql.Members.{
  unknown_member_dropped, Scopes, outside_of, left_with,
}
use fabric_unified_permissio.PairDiff.{DiffRow}
use fabric_unified_permissio.PairApply.Graph.{resolve_display_name_to_upn}
use fabric_unified_permissio.FineGrained.Predicate.{referenced_columns}
use fabric_unified_permissio.PairApply.UcSql.{columns_by_name}
use fabric_unified_permissio.Base.Sort.{sorted}
use fabric_unified_permissio.Base.Text.{join, first, after, before, all_chars, split}
use fabric_unified_permissio.Base.Scan.{runs}
use fabric_unified_permissio.PairApply.UcSql.{fabric_row_filter_uc_sql, safe_uc_name, safe_uc_type}
use fabric_unified_permissio.FineGrained.Scope.{table_parts_from_scope, safe_identifier}
use fabric_unified_permissio.FineGrained.Predicate.{
  normalize_row_predicate, validate_safe_row_predicate,
}
use fabric_unified_permissio.Tests.Data.{recorder}
use fabric_unified_permissio.Tests.HubData.{identity, table_row}

abbrev ada : Json
ada = obj (field "userPrincipalName" (str "ada@x.org") end)

abbrev stranger : Json
stranger = obj (field "displayName" (str "Bob") end)

abbrev members_of : List Json → Fields
members_of [] = end
members_of (m ∷ []) = field "members" (arr (cons m nil)) end
members_of (m ∷ n ∷ more) = field "members" (arr (cons m (cons n nil))) end

stranger_unknown : resolve_fabric_principal_to_uc_principal recorder "Bob" "User" [] ≡ none
unfolding resolve_fabric_principal_to_uc_principal resolve_display_name_to_upn strip is_guid
    has_char string_eq lower
stranger_unknown = refl

abbrev filter_row : DiffRow
filter_row = record (table_row "DATA_READ" false true) {
  constraint_kind = "row_filter";
  constraint_details =
      field "predicate" (str "select * from s.t where region = 'EU'") (members_of (ada ∷ []));
}

abbrev region_column : Json
region_column = obj (field "name" (str "region") (field "type_text" (str "string") end))

row_filter_test :
    fabric_constraint_uc_sql recorder identity [] "main" filter_row (ok (region_column ∷ []))
    ≡ ok (
        "CREATE OR REPLACE FUNCTION main.s.hub_fabric_rls_0123456789(region string) RETURNS BOOLEAN RETURN CASE WHEN current_user() IN ('ada@x.org') THEN (region = 'EU') ELSE true END"
        ∷ "ALTER TABLE main.s.t SET ROW FILTER main.s.hub_fabric_rls_0123456789 ON (region)" ∷ [])
unfolding fabric_constraint_uc_sql string_eq referenced_columns columns_by_name sorted
    fabric_row_filter_uc_sql safe_uc_name table_parts_from_scope safe_identifier
    normalize_row_predicate join strip get_field validate_safe_row_predicate lower insert lookup
    safe_uc_type first resolve_fabric_principal_to_uc_principal is_guid has_char runs after
    all_chars before split sql_string
row_filter_test = refl

abbrev shared_row : DiffRow
shared_row = record filter_row {
  constraint_details =
      field "predicate" (str "select * from s.t where region = 'EU'")
        (members_of (ada ∷ stranger ∷ []));
}

unknown_member_dropped_example :
    (fabric_constraint_uc_sql recorder identity [] "main" shared_row (ok (region_column ∷ []))
      ≡ fabric_constraint_uc_sql recorder identity [] "main"
          (left_with (ada ∷ []) shared_row)
          (ok (region_column ∷ [])))
    × Ensures
        (Scopes (outside_of shared_row) (
          constraint_uc_member_principals recorder []
            (left_with (ada ∷ []) shared_row).constraint_details))
        (fabric_constraint_uc_sql recorder identity [] "main" shared_row (ok (region_column ∷ [])))
unfolding get_field string_eq
unknown_member_dropped_example =
    unknown_member_dropped recorder identity [] "main" shared_row (ok (region_column ∷ []))
      (ada ∷ []) [] stranger refl refl stranger_unknown
