-- ===== src/PairApply/Grant.antt =====
-- The constraints that app/services/pair_apply.py grants: `_grant_fabric_constraint`, which
-- translates a constraint and writes its role, and `_grant_uc_constraint`, which runs the
-- statements of a constraint on a warehouse.
pub mod Laws
use fabric_unified_permissio.Base.{
  ℕ, String, ◌<>◌, Bool, true, false, not, ◌||◌, List, [], ◌∷◌, map, keep, ◌==◌, string_eq,
  if◌then◌else◌, ◌&&◌,
}
use fabric_unified_permissio.Base.Json.{
  Json, Fields, get, get_field, text_of, elements, is_dict, truthy,
}
use fabric_unified_permissio.Base.Outcome.{Outcome, ok, raised, ◌>>=◌}
use fabric_unified_permissio.Base.Http.{Services}
use fabric_unified_permissio.Base.Text.{is_empty, strip, first, join, replace_char}
use fabric_unified_permissio.FineGrained.Columns.{build_fabric_column_constraint}
use fabric_unified_permissio.FineGrained.Rows.{build_fabric_row_constraint}
use fabric_unified_permissio.FineGrained.Scope.{FabricConstraintTranslation, fabric_table_path}
use fabric_unified_permissio.PairApply.Clients.{
  Pairing, Tried, Translation, Attempt, done, refused, Clients,
}
use fabric_unified_permissio.PairApply.DasRole.{upsert_das_constraint_role}
use fabric_unified_permissio.PairApply.DataRoles.{Verdict}
use fabric_unified_permissio.PairApply.DataRoles.Write.{Identity}
use fabric_unified_permissio.PairApply.UcSql.{
  safe_uc_name, table_name_of, fabric_row_filter_uc_sql, fabric_column_mask_uc_sql,
  fabric_constraint_uc_sql,
}
use fabric_unified_permissio.PairDiff.{DiffRow}

-- What is used of `DatabricksUCClient`, by the address of the workspace. What it raises are the
-- errors that the callers handle.
pub record UcClient (S : Services) : Type 0 where
  pub get_function : String → String → S.State → Outcome Json
  pub get_table : String → String → S.State → Outcome Json
  pub ensure_sql_warehouse_running : String → String → S.State → Outcome (Unit {0}) × S.State
  pub execute_sql : String → String → String → S.State → Outcome (Unit {0}) × S.State

pub record Settings : Type 0 where
  pub warehouse_id : String
  pub is_production : Bool

-- `str(value) for value in ... if value`
abbrev texts_of : List Json → List String
texts_of js = keep (λ t. not (is_empty t)) (map text_of js)

-- `_row_details_table_columns`
pub row_details_table_columns : Fields → List String
row_details_table_columns details = texts_of (elements (get_field "table_columns" details))

-- The columns of a table that have a name.
abbrev named : Json → List Json
named metadata = keep (λ c. is_dict c && truthy (get c "name")) (elements (get metadata "columns"))

abbrev pub attempted : {A : Type 0} → Outcome A → Attempt A
attempted (ok a) = done a
attempted (raised e) = refused e

abbrev pub tried : Bool → Bool → String → Tried
tried b skip m = record { ok = b; skipped = skip; message = m }

abbrev of_verdict : {T : Type 0} → Outcome Verdict × T → Outcome Tried × T
of_verdict (ok v, t) = (ok (tried v.ok false v.message), t)
of_verdict (raised e, t) = (raised e, t)

-- `str(exc)` of what a statement raises ends the loop: what ran before it stays.
abbrev granted : {T : Type 0} → Outcome (Unit {0}) × T → Outcome Tried × T
granted (ok u, t) = (ok (tried true false "granted (UC fine-grained policy)"), t)
granted (raised e, t) = (ok (tried false false e), t)

abbrev after :
    {T : Type 0} → Outcome (Unit {0}) × T → (T → Outcome (Unit {0}) × T) → Outcome (Unit {0}) × T
after (ok u, t) f = f t
after (raised e, t) f = (raised e, t)

module _ (S : Services) (i : Identity) (settings : Settings) (D : UcClient S) where
  -- `_load_table_columns`
  pub load_table_columns : String → String → S.State → Outcome (List String)
  load_table_columns dbx_url table_name s = if is_empty table_name then ok [] else (do
    metadata ← D.get_table dbx_url table_name s
    ok (map (λ c. text_of (get c "name")) (named metadata)))

  -- `_row_details_table_columns(row) or _load_table_columns(...)`
  columns_or_loaded : List String → String → String → S.State → Outcome (List String)
  unfolding load_table_columns
  columns_or_loaded [] dbx_url table_name s = load_table_columns dbx_url table_name s
  columns_or_loaded (c ∷ cs) dbx_url table_name s = ok (c ∷ cs)

  -- `_fabric_constraint_translation`
  unfoldable pub fabric_constraint_translation :
      Pairing → DiffRow → S.State → Outcome FabricConstraintTranslation
  unfolding columns_or_loaded row_details_table_columns
  fabric_constraint_translation p row s =
      let d = row.constraint_details in
      let function_name = text_of (get_field "function" d) in
      if row.constraint_kind == "row_filter"
      then (if is_empty function_name
          then raised "UC row-filter function name is unavailable"
          else (do
            info ← D.get_function p.dbx_workspace_url function_name s
            build_fabric_row_constraint row.securable_scope p.uc_catalog info
                (map text_of (elements (get_field "input_columns" d)))
                (not settings.is_production)))
      else if row.constraint_kind == "column_mask"
      then (do
        columns ←
            columns_or_loaded (row_details_table_columns d) p.dbx_workspace_url
              (text_of (get_field "table" d)) s
        build_fabric_column_constraint row.securable_scope p.uc_catalog
            (text_of (get_field "column" d)) columns)
      else raised ("unsupported fine-grained constraint kind '" <> row.constraint_kind <> "'")

  -- `hubfg...`, with a hash of what the role is for.
  pub constraint_role_name : String → String → FabricConstraintTranslation → String
  constraint_role_name kind table_path t =
      let hashed =
        i.sha256
          (kind <> "|" <> table_path <> "|" <> t.predicate <> "|" <> join "," t.column_names) in
      first 60 ("hubfg" <> replace_char b'_' "" kind <> first 10 hashed)

  -- A translation with the path of its table: what fails here is skipped.
  abbrev pub Ready : Type 0
  Ready = Outcome (String × FabricConstraintTranslation)

  unfoldable pub ready : Pairing → DiffRow → S.State → Ready
  ready p row s = do
    t ← fabric_constraint_translation p row s
    table_path ← fabric_table_path row.securable_scope p.uc_catalog
    ok (table_path, t)

  upsert_ready : Pairing → DiffRow → String → Ready → S.State → Outcome Tried × S.State
  unfolding constraint_role_name
  upsert_ready p row item_id (raised e) s = (ok (tried true true ("skipped: " <> e)), s)
  upsert_ready p row item_id (ok (table_path, t)) s = of_verdict (
      upsert_das_constraint_role S i p.fabric_workspace_id item_id
        (constraint_role_name row.constraint_kind table_path t) table_path t s)

  -- `_grant_fabric_constraint`
  unfoldable pub grant_fabric_constraint :
      Pairing → DiffRow → String → S.State → Outcome Tried × S.State
  unfolding upsert_ready
  grant_fabric_constraint p row item_id s = upsert_ready p row item_id (ready p row s) s

  -- `_load_table_column_metadata`, of the table that the scope names.
  pub table_metadata : Pairing → DiffRow → S.State → Outcome (List Json)
  table_metadata p row s = do
    t ← safe_uc_name row.securable_scope p.uc_catalog
    metadata ← D.get_table p.dbx_workspace_url (table_name_of t) s
    ok (named metadata)

  unfoldable pub statements_of : Pairing → DiffRow → S.State → Outcome (List String)
  unfolding table_metadata
  statements_of p row s =
      if row.constraint_kind == "row_filter"
      then fabric_row_filter_uc_sql S i s p.uc_catalog row (table_metadata p row s)
      else fabric_column_mask_uc_sql S i s p.uc_catalog row (table_metadata p row s)

  abbrev warehouse : String
  warehouse = strip settings.warehouse_id

  -- `for statement in statements`
  unfoldable pub execute_all : String → List String → S.State → Outcome (Unit {0}) × S.State
  execute_all url [] s = (ok tt, s)
  execute_all url (q ∷ qs) s = after (D.execute_sql url warehouse q s) (execute_all url qs)

  run_statements : String → Outcome (List String) → S.State → Outcome Tried × S.State
  run_statements url (raised e) s = (ok (tried false false e), s)
  run_statements url (ok qs) s =
      granted (after (D.ensure_sql_warehouse_running url warehouse s) (execute_all url qs))

  -- `_grant_uc_constraint`
  unfoldable pub grant_uc_constraint : Pairing → DiffRow → S.State → Outcome Tried × S.State
  unfolding run_statements
  grant_uc_constraint p row s =
      if is_empty warehouse
      then (
        ok (
            tried true true
              "skipped: DBX_WAREHOUSE_ID is required for Fabric-to-DBX RLS/CLS apply"),
        s,
      )
      else run_statements p.dbx_workspace_url (statements_of p row s) s

  abbrev shown_translation : Outcome FabricConstraintTranslation → Attempt Translation
  shown_translation (ok t) = done (record { table_path = t.table_path; note = t.note })
  shown_translation (raised e) = refused e

  -- The clients of `apply_rows`, with the operations on constraints as they are implemented here.
  abbrev pub with_constraints : Clients S → Clients S
  with_constraints C = record C {
    constraint_translation = λ p row s. shown_translation (fabric_constraint_translation p row s);
    constraint_uc_sql = λ p row s.
        attempted (fabric_constraint_uc_sql S i s p.uc_catalog row (table_metadata p row s));
    grant_fabric_constraint = grant_fabric_constraint;
    grant_uc_constraint = grant_uc_constraint;
  }
