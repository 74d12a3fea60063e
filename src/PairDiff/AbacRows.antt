-- ===== src/PairDiff/AbacRows.antt =====
-- The policies by attribute in a comparison (app/services/pair_diff.py): the row of a policy that is
-- shown for review, and the row of each target that a policy is resolved to.
pub mod Scoped
use fabric_unified_permissio.Base.{
  String, ◌<>◌, Bool, not, ◌&&◌, ◌||◌, List, [], ◌∷◌, Option, none, some, map, keep, contains, ◌==◌,
  string_eq, if◌then◌else◌,
}
use fabric_unified_permissio.Base.Dict.{Dict}
use fabric_unified_permissio.Base.Json.{
  Json, bool, str, arr, obj, Fields, fields, end, field, get, text_of, truthy, elements, is_dict,
  or_else, array_of,
}
use fabric_unified_permissio.Base.Outcome.{Outcome, ok, raised, ◌>>=◌}
use fabric_unified_permissio.Base.Text.{is_empty, upper, has_text}
use fabric_unified_permissio.Abac.Parse.{Python}
use fabric_unified_permissio.Abac.Resolve.{
  GovernedTags, ResolvedTarget, either_of, resolve_policies,
}
use fabric_unified_permissio.FineGrained.Columns.{build_fabric_column_constraint}
use fabric_unified_permissio.FineGrained.Rows.{build_fabric_row_constraint}
use fabric_unified_permissio.FineGrained.Scope.{Hashing, constraint_hash}
use fabric_unified_permissio.PairDiff.{Rows}
use fabric_unified_permissio.PairDiff.Constraints.{Recorded, record_constraint_row}
use fabric_unified_permissio.PairDiff.UcRows.{
  function_name, filter_recorded, mask_recorded, texts, record_all,
}

-- `_abac_scope`
unfoldable pub abac_scope : String → String → String
abac_scope on_type full_name =
    if is_empty full_name
    then ""
    else if upper on_type == "CATALOG"
    then "catalog:" <> full_name
    else if upper on_type == "SCHEMA"
    then "schema:" <> full_name
    else if upper on_type == "TABLE"
    then "table:" <> full_name
    else ""

-- `str(policy.get("id") or policy.get("name") or "")`
abbrev pub policy_id_of : Json → String
policy_id_of policy = text_of (either_of policy "id" "name")

abbrev pub dict_or_empty : Json → Json
dict_or_empty j = if is_dict j then j else obj end

-- The kind of a policy and its specification.
unfoldable pub kind_and_spec : Json → Option (String × Json)
kind_and_spec policy =
    let mask = either_of policy "column_mask" "columnMask" in
    let filter_of = either_of policy "row_filter" "rowFilter" in
    let kind = upper (text_of (either_of policy "policy_type" "policyType")) in
    if truthy mask || has_text "COLUMN_MASK" kind
    then some ("column_mask", dict_or_empty mask)
    else if truthy filter_of || has_text "ROW_FILTER" kind
    then some ("row_filter", dict_or_empty filter_of)
    else none

abbrev or_text : String → String → String
or_text x y = if is_empty x then y else x

-- `[str(p) for p in ... if p]`
abbrev principals_of : Json → List String
principals_of j = keep (λ t. not (is_empty t)) (map text_of (elements j))

module _ (H : Hashing) where
  abbrev details_of : Json → String → Json → Json
  details_of policy scope spec = obj (
      field "source" (str "databricks_abac") (
        field "policy_id" (str (policy_id_of policy)) (
          field "policy_name" (get policy "name") (
            field "comment" (get policy "comment") (
              field "function" (str (function_name spec)) (
                field "on_column" (either_of spec "on_column" "onColumn") (
                  field "match_columns" (either_of policy "match_columns" "matchColumns") (
                    field "when_condition"
                      (or_else (either_of policy "when_condition" "whenCondition")
                        (or_else (get policy "condition") (str "")))
                      (field "to_principals"
                        (texts (principals_of (either_of policy "to_principals" "toPrincipals")))
                        (field "except_principals"
                          (or_else (either_of policy "except_principals" "exceptPrincipals")
                            (texts []))
                          (field "attached_scope" (str scope) (
                            field "raw" policy (
                              field "translation_error"
                                (str "ABAC tag-driven policy has no Fabric OneLake equivalent")
                                end)))))))))))))

  -- The row of a policy that is shown and never applied.
  abbrev pub policy_recorded : Json → String → String → Json → Recorded
  policy_recorded policy scope kind spec = record {
    side = "dbx";
    securable_scope = scope;
    constraint_kind = kind;
    constraint_key = constraint_hash H (
        obj (
          field "uc_abac_policy"
            (if is_empty (policy_id_of policy)
              then details_of policy scope spec
              else str (policy_id_of policy))
            end));
    raw_label =
        "ABAC "
        <> (if kind == "column_mask" then "COLUMN MASK" else "ROW FILTER")
        <> " "
        <> or_text (text_of (get policy "name")) (or_text (function_name spec) "(unnamed)");
    details = fields (details_of policy scope spec);
  }

  abbrev on_scope : Json → String → Option (String × Json) → Rows → Rows
  on_scope policy scope none rows = rows
  on_scope policy scope (some (kind, spec)) rows =
      if is_empty scope
      then rows
      else record_constraint_row (policy_recorded policy scope kind spec) rows

  -- `_record_abac_policies`
  unfoldable pub record_abac_policies : List Json → Rows → Rows
  unfolding abac_scope kind_and_spec
  record_abac_policies [] rows = rows
  record_abac_policies (policy ∷ policies) rows =
      let scope =
        abac_scope (text_of (either_of policy "on_securable_type" "onSecurableType"))
          (text_of (either_of policy "on_securable_fullname" "onSecurableFullname")) in
      record_abac_policies policies
        (if is_dict policy then on_scope policy scope (kind_and_spec policy) rows else rows)

  module _ (catalog : String) (allow_test_degraded : Bool) (resolver : String → Outcome Json)
      (columns_by_table : String → String → List String) where
    -- `_record_resolved_abac_target`
    unfoldable pub target_recorded : ResolvedTarget → Outcome Recorded
    target_recorded t =
        let scope = "table:" <> catalog <> "." <> t.schema <> "." <> t.table in
        let columns = columns_by_table t.schema t.table in
        let known = λ (more : Fields). field "source" (str "databricks_abac_resolved") (
          field "policy_id" (str t.policy_id) (
            field "policy_name" (str t.policy_name) (
              field "function" (str t.function_name) (
                field "input_columns" (texts t.input_columns) (
                  field "table" (str (catalog <> "." <> t.schema <> "." <> t.table)) (
                    field "table_columns" (texts columns) (
                      field "when_condition" (str t.when_condition) (
                        field "to_principals" (texts t.to_principals) (
                          field "except_principals" (texts t.except_principals)
                            (field "materialized" (bool Bool.true) more)))))))))) in
        let name = or_text t.policy_name t.function_name in
        if t.constraint_kind == "column_mask"
        then ok (
            mask_recorded H catalog allow_test_degraded scope
              ("ABAC COLUMN MASK " <> name <> " -> " <> t.column) "abac_column_mask"
              (known (field "column" (str t.column) end))
              (build_fabric_column_constraint scope catalog t.column columns))
        else (do
          info ← resolver t.function_name
          ok (
              filter_recorded H catalog allow_test_degraded scope ("ABAC ROW FILTER " <> name)
                "abac_row_filter"
                (known (field "function_definition" (get info "routine_definition") end))
                (build_fabric_row_constraint scope catalog info t.input_columns
                  allow_test_degraded)))

    record_targets : List ResolvedTarget → Rows → Outcome Rows
    unfolding target_recorded
    record_targets [] rows = ok rows
    record_targets (t ∷ ts) rows = do
      c ← target_recorded t
      record_targets ts (record_constraint_row c rows)

    abbrev pub unresolved : List ResolvedTarget → List Json → List Json
    unresolved targets =
        keep (λ p. is_dict p && not (contains (map (λ t. t.policy_id) targets) (policy_id_of p)))

    with_tags :
        Python → Option GovernedTags → List Json → Dict String (List String) → Rows → Outcome Rows
    unfolding record_targets
    with_tags py none policies tables rows = ok (record_abac_policies policies rows)
    with_tags py (some g) policies tables rows = do
      targets ← resolve_policies py g tables columns_by_table policies
      shown ← record_targets targets rows
      ok (record_abac_policies (unresolved targets policies) shown)

    -- `_record_abac`, over the governed tags where they could be read.
    unfoldable pub record_abac :
        Python → Option GovernedTags → List Json → Dict String (List String) → Rows → Outcome Rows
    unfolding with_tags
    record_abac py tags [] tables rows = ok rows
    record_abac py tags (p ∷ policies) tables rows = with_tags py tags (p ∷ policies) tables rows
