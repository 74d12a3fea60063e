-- ===== src/PairDiff/UcRows.antt =====
-- The rows of the row filters and column masks of a table of Unity Catalog (app/services/pair_diff.py).
pub mod Scoped
use fabric_unified_permissio.Base.{
  String, ◌<>◌, Bool, true, not, ◌&&◌, List, [], ◌∷◌, ◌++◌, Option, none, some, map, keep,
  string_eq, if◌then◌else◌, eqb,
}
use fabric_unified_permissio.Base.Dict.{Dict, lookup, insert}
use fabric_unified_permissio.Base.Json.{
  Json, str, arr, obj, Fields, end, field, get, text_of, truthy, elements, is_list, is_dict,
  or_else, array_of, set_field,
}
use fabric_unified_permissio.Base.Outcome.{Outcome, ok, raised, ◌>>=◌}
use fabric_unified_permissio.Base.Text.{
  strip, lower, upper, is_empty, has_char, keep_chars, text_length, starts_with, split,
}
use Prim.Native.Char.{code}
use fabric_unified_permissio.FineGrained.Columns.{build_fabric_column_constraint}
use fabric_unified_permissio.FineGrained.Rows.{
  build_fabric_row_constraint, canonical_row_filter_key,
}
use fabric_unified_permissio.FineGrained.Scope.{
  FabricConstraintTranslation, Hashing, constraint_hash, function_param_names,
}
use fabric_unified_permissio.PairDiff.{
  row_key_eq, row_identity, Rows, Principal, fresh_row, or_new, add_raw,
}
use fabric_unified_permissio.PairDiff.Constraints.{
  Recorded, record_constraint_row, uc_mask_recorded,
}

-- `str(value)` of the first key that has one.
first_text : List String → Json → String
first_text [] j = ""
first_text (k ∷ ks) j =
    let rest = first_text ks j in if truthy (get j k) then text_of (get j k) else rest

unfoldable pub function_name : Json → String
unfolding first_text
function_name (str s) = s
function_name (obj fs) =
    first_text
      ("function_name" ∷ "functionName" ∷ "full_name" ∷ "fullName" ∷ "name" ∷ "function" ∷ [])
      (obj fs)
function_name _ = ""

first_list : List String → Json → List String
first_list [] j = []
first_list (k ∷ ks) j =
    let rest = first_list ks j in
    if is_list (get j k) then map text_of (elements (get j k)) else rest

unfoldable pub input_columns : Json → List String
unfolding first_list
input_columns j =
    first_list
      ("input_column_names" ∷ "inputColumnNames" ∷ "input_columns" ∷ "inputColumns"
        ∷ "using_columns" ∷ "usingColumns" ∷ "columns" ∷ [])
      j

-- `raw.get("row_filters") or raw.get("rowFilters")`
abbrev nested : Json → Json
nested raw = or_else (get raw "row_filters") (get raw "rowFilters")

abbrev of_plural : Json → List Json
of_plural (arr xs) = elements (arr xs)
of_plural (obj fs) = elements (nested (obj fs))
of_plural _ = []

abbrev of_singular : Json → List Json
of_singular (obj fs) = if is_list (nested (obj fs)) then elements (nested (obj fs)) else obj fs ∷ []
of_singular raw = if truthy raw then raw ∷ [] else []

unfoldable pub row_filters : Json → List Json
row_filters metadata =
    of_plural (get metadata "row_filters")
    ++ of_plural (get metadata "rowFilters")
    ++ of_singular (get metadata "row_filter")
    ++ of_singular (get metadata "rowFilter")

abbrev if_set : Json → List Json
if_set raw = if truthy raw then raw ∷ [] else []

abbrev if_list : Json → List Json
if_list raw = if is_list raw then elements raw else []

unfoldable pub masks_of : Json → List Json
masks_of column =
    if_set (get column "mask")
    ++ if_set (get column "column_mask")
    ++ if_set (get column "columnMask")
    ++ if_list (get column "effective_masks")
    ++ if_list (get column "effectiveMasks")

-- `a or b`
abbrev pub or_list : List String → List String → List String
or_list [] ys = ys
or_list (x ∷ xs) ys = x ∷ xs

abbrev pub texts : List String → Json
texts xs = arr (array_of (map str xs))

-- The columns of a table that have a name.
abbrev pub table_columns_of : Json → List String
table_columns_of metadata =
    keep (λ c. not (is_empty c))
      (map (λ c. text_of (get c "name")) (keep is_dict (elements (get metadata "columns"))))

abbrev pub with_note : String → Fields → Fields
with_note note d = if is_empty note then d else set_field "translation_note" (str note) d

module _ (H : Hashing) (catalog : String) (allow_test_degraded : Bool) where
  -- The row of a filter on the Databricks side: with its translation, or with the reason why there
  -- is none.
  abbrev pub filter_recorded :
      String → String → String → Fields → Outcome FabricConstraintTranslation → Recorded
  filter_recorded scope label signature d (ok t) = record {
    side = "dbx";
    securable_scope = scope;
    constraint_kind = "row_filter";
    constraint_key = canonical_row_filter_key H scope t.predicate;
    raw_label = label;
    details = with_note t.note (set_field "predicate" (str t.predicate) d);
  }
  filter_recorded scope label signature d (raised e) = record {
    side = "dbx";
    securable_scope = scope;
    constraint_kind = "row_filter";
    constraint_key = constraint_hash H (obj (field signature (obj d) end));
    raw_label = label;
    details = set_field "translation_error" (str e) d;
  }

  -- The row of a mask, likewise.
  abbrev pub mask_recorded :
      String → String → String → Fields → Outcome FabricConstraintTranslation → Recorded
  mask_recorded scope label signature d (ok t) =
      record (uc_mask_recorded H scope "" t
        (with_note t.note (set_field "columns" (texts t.column_names) d))) { raw_label = label }
  mask_recorded scope label signature d (raised e) = record {
    side = "dbx";
    securable_scope = scope;
    constraint_kind = "column_mask";
    constraint_key = constraint_hash H (obj (field signature (obj d) end));
    raw_label = label;
    details = set_field "translation_error" (str e) d;
  }

  module _ (resolver : String → Outcome Json) (scope fqn : String) where
    uc_filter : Json → Outcome Recorded
    uc_filter raw = do
      info ← resolver (function_name raw)
      let inputs = or_list (input_columns raw) (function_param_names info)
      ok (
          filter_recorded scope
            ("ROW FILTER "
              <> (if is_empty (function_name raw) then "(unknown)" else function_name raw))
            "uc_row_filter"
            (field "table" (str fqn) (
              field "function" (str (function_name raw)) (
                field "input_columns" (texts inputs) (
                  field "function_definition" (get info "routine_definition")
                    (field "source" (str "databricks") (field "raw" raw end))))))
            (build_fabric_row_constraint scope catalog info inputs allow_test_degraded))

    uc_mask : List String → String → Json → Outcome Recorded
    uc_mask table_columns column raw = do
      info ← resolver (function_name raw)
      ok (
          mask_recorded scope ("COLUMN MASK " <> column) "uc_column_mask"
            (field "table" (str fqn) (
              field "column" (str column) (
                field "function" (str (function_name raw)) (
                  field "input_columns"
                    (texts (or_list (input_columns raw) (function_param_names info)))
                    (field "function_definition" (get info "routine_definition") (
                      field "table_columns" (texts table_columns)
                        (field "source" (str "databricks") (field "raw" raw end))))))))
            (build_fabric_column_constraint scope catalog column table_columns))

    -- `for x in xs`: what each is recorded as, in turn.
    unfoldable pub record_all : {A : Type 0} → (A → Outcome Recorded) → List A → Rows → Outcome Rows
    record_all f [] rows = ok rows
    record_all f (x ∷ xs) rows = do c ← f x; record_all f xs (record_constraint_row c rows)

    -- `for column in metadata.get("columns") or []`
    record_columns : List String → List Json → Rows → Outcome Rows
    unfolding record_all uc_mask
    record_columns table_columns [] rows = ok rows
    record_columns table_columns (c ∷ cs) rows = do
      next ← record_all (uc_mask table_columns (text_of (get c "name"))) (masks_of c) rows
      record_columns table_columns cs next

  abbrev table_scope_of : String → List String → String
  table_scope_of fqn (a ∷ b ∷ []) = "table:" <> catalog <> "." <> a <> "." <> b
  table_scope_of fqn (a ∷ b ∷ c ∷ ps) = table_scope_of fqn (b ∷ c ∷ ps)
  table_scope_of fqn (a ∷ []) = "table:" <> catalog <> "." <> "." <> a
  table_scope_of fqn [] = "table:" <> catalog <> "." <> "." <> fqn

  -- `_record_uc_constraints`
  unfoldable pub record_uc_constraints :
      (String → Outcome Json) → String → String → Json → Rows → Outcome Rows
  unfolding record_all record_columns uc_filter
  record_uc_constraints resolver scope fqn metadata rows =
      let at = if starts_with "table:" scope then scope else table_scope_of fqn (split b'.' fqn) in
      if not (truthy metadata) then ok rows else (do
        filtered ←
            record_all resolver at fqn (uc_filter resolver at fqn) (row_filters metadata) rows
        record_columns resolver at fqn (table_columns_of metadata)
            (keep is_dict (elements (get metadata "columns"))) filtered)
