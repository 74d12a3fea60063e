-- ===== src/PairDiff/Collect/Bounds.antt =====
-- How much of a catalog `collect_dbx_rows` of app/services/pair_diff.py looks at.
use fabric_unified_permissio.Base.{
  ◌≡◌, keep, ◌⊎◌, ◌≤◌, String, ◌<>◌, true, false, List, ◌∷◌, ◌++◌, map, All, length, take, contains,
  string_eq,
}
use fabric_unified_permissio.Base.Http.{Services}
use fabric_unified_permissio.Base.Json.{Json, get, text_of}
use fabric_unified_permissio.Base.Outcome.{ok}
use fabric_unified_permissio.Base.Text.{is_empty}
use fabric_unified_permissio.DbxClient.{list_schemas, list_tables}
use fabric_unified_permissio.PairDiff.{DiffRow}
use fabric_unified_permissio.PairDiff.Constraints.Scoped.{Scoped}
use fabric_unified_permissio.PairDiff.Collect.{
  Reading, SchemaRead, Collected, Job, is_read, table_jobs,
}

-- At most fifty tables were read of a schema.
abbrev FewOf : SchemaRead → Type 0
FewOf sr = length sr.tables ≤ 50

abbrev FewTables : List SchemaRead → Type 0
FewTables = All FewOf

abbrev schema_name : Json → String
schema_name sch = text_of (get sch "name")

abbrev schema_scope : String → SchemaRead → String
schema_scope catalog sr = "schema:" <> catalog <> "." <> sr.name

abbrev job_scope : Job → String
job_scope j = j.0

-- What the collection looks at: the catalog, the schemas it read and their tables.
abbrev pub read_scopes : String → List SchemaRead → List String
read_scopes catalog reads =
    ("catalog:" <> catalog) ∷ map (schema_scope catalog) reads
    ++ map job_scope (table_jobs catalog reads)

module _ (S : Services) (R : Reading S) (url catalog : String) (s : S.State) where
  -- The tables of the schema that were read are the first fifty that the catalog lists for it.
  abbrev pub FirstTables : SchemaRead → Type 0
  FirstTables sr =
      (tables : List Json) × ((list_tables S url s catalog sr.name ≡ ok tables)
        × (sr.tables ≡ take 50 tables))

  -- The schemas that were read, in their order.
  abbrev ReadsOf : List Json → List SchemaRead → Type 0
  ReadsOf schs srs = (map (λ sr. sr.name) srs ≡ map schema_name schs) × All FirstTables srs

  abbrev ReadOf : Json → SchemaRead → Type 0
  ReadOf sch sr = (sr.name ≡ schema_name sch) × FirstTables sr

  module _ (P : String → Type 0) where
    abbrev ScopedRows : Collected → Type 0
    ScopedRows c = Scoped P c.rows

  abbrev OnOne : List String → DiffRow → Type 0
  OnOne scopes r = (contains scopes r.securable_scope ≡ true) ⊎ (is_empty r.constraint_kind ≡ false)

  -- The schemas that were read are those that the catalog lists among its first fifty, but for the
  -- nameless ones and `information_schema`, and of each the first fifty tables. Every row is on the
  -- catalog, on one of these schemas or tables, 2551 scopes at most, or is a constraint.
  abbrev pub IsBounded : List DiffRow → Type 0
  IsBounded rows =
      (schemas : List Json) × ((list_schemas S url s catalog ≡ ok schemas)
        × ((reads : List SchemaRead) × ((map (λ sr. sr.name) reads
                ≡ map schema_name (keep is_read (take 50 schemas)))
              × (All FirstTables reads
                  × ((length (read_scopes catalog reads) ≤ 2551)
                      × All (OnOne (read_scopes catalog reads)) rows)))))
