-- ===== src/PairDiff/Collect.antt =====
-- `collect_dbx_rows` of app/services/pair_diff.py: the grants, constraints and policies of a catalog.
-- The threads of the source only read and hand their results on in order, so that the loops are
-- sequences; a function that is cached asks again.
pub mod Bounds
use fabric_unified_permissio.Base.{
  ℕ, String, ◌<>◌, Bool, not, ◌&&◌, ◌||◌, List, [], ◌∷◌, ◌++◌, Option, none, some, map, keep, take,
  ◌==◌, string_eq, if◌then◌else◌, eqb,
}
use fabric_unified_permissio.Base.Dict.{Dict, lookup, insert, values}
use fabric_unified_permissio.Base.Json.{Json, obj, end, get, text_of}
use fabric_unified_permissio.Base.Http.{Services}
use fabric_unified_permissio.Base.Outcome.{Outcome, ok, raised, ◌>>=◌}
use fabric_unified_permissio.Base.Text.{is_empty, strip, split}
use fabric_unified_permissio.Abac.Parse.{Python}
use fabric_unified_permissio.Abac.Resolve.{GovernedTags}
use fabric_unified_permissio.DbxClient.{
  Answer, body, status, lost, list_schemas, list_tables, get_table, get_function, get_grants,
  list_policies,
}
use fabric_unified_permissio.FineGrained.Scope.{Hashing}
use fabric_unified_permissio.PairDiff.{DiffRow, Rows}
use fabric_unified_permissio.PairDiff.AbacRows.{record_abac}
use fabric_unified_permissio.PairDiff.UcGrants.{record_grants}
use fabric_unified_permissio.PairDiff.UcRows.{record_uc_constraints, table_columns_of}

-- What the collection is given besides the catalog: hashes, Python's reading of odd conditions, the
-- settings, and `abac_resolver.read_governed_tags` on the warehouse.
pub record Reading (S : Services) : Type 0 where
  pub hashing : Hashing
  pub python : Python
  pub warehouse_id : String
  pub is_production : Bool
  pub read_governed_tags : String → String → S.State → Outcome GovernedTags

pub record SchemaRead : Type 0 where
  pub name : String
  pub grants : List Json
  pub tables : List Json
  pub policies : List Json

-- What has been collected so far.
pub record Collected : Type 0 where
  pub rows : Rows
  pub policies : List Json
  pub tables_by_schema : Dict String (List String)
  pub columns_by_table : String → String → List String

-- The schemas that have a name and are no information schema.
abbrev pub is_read : Json → Bool
is_read s =
    not (is_empty (text_of (get s "name"))) && not (text_of (get s "name") == "information_schema")

-- `schemas[:50]`, and of these the ones that are read.
abbrev pub read_schemas : List Json → List Json
read_schemas schemas = keep is_read (take 50 schemas)

-- The scope and the name of a table.
abbrev pub Job : Type 0
Job = String × String

jobs_of : String → String → List Json → List Job
jobs_of catalog schema [] = []
jobs_of catalog schema (t ∷ ts) =
    let rest = jobs_of catalog schema ts in
    let fqn = catalog <> "." <> schema <> "." <> text_of (get t "name") in
    if is_empty (text_of (get t "name")) then rest else ("table:" <> fqn, fqn) ∷ rest

-- `for sr in schema_results: for t in sr["tables"]`
unfoldable pub table_jobs : String → List SchemaRead → List Job
unfolding jobs_of
table_jobs catalog [] = []
table_jobs catalog (sr ∷ srs) = jobs_of catalog sr.name sr.tables ++ table_jobs catalog srs

abbrev or_none : Option (List String) → List String
or_none none = []
or_none (some xs) = xs

-- `tables_by_schema` and `columns_by_table`, for a name of at least three parts.
note_table : List String → List String → Collected → Collected
note_table (a ∷ s ∷ t ∷ more) columns c = record c {
  tables_by_schema =
      insert s (or_none (lookup s c.tables_by_schema) ++ (t ∷ [])) c.tables_by_schema;
  columns_by_table = λ s' t'. if s' == s && t' == t then columns else c.columns_by_table s' t';
}
note_table parts columns c = c

-- `_get_function`: a function that cannot be read has no definition.
function_of : Answer → Outcome Json
function_of (body j) = ok j
function_of (status code text) = ok (obj end)
function_of (lost e) = raised e

-- A table that is gone has no metadata.
metadata_of : Answer → Outcome Json
metadata_of (body j) = ok j
metadata_of (status code text) = if eqb code 404 then ok (obj end) else raised text
metadata_of (lost e) = raised e

module _ (S : Services) (R : Reading S) (url catalog : String) (s : S.State) where
  resolver : String → Outcome Json
  unfolding function_of
  resolver name = if is_empty name then ok (obj end) else function_of (get_function S url s name)

  -- `_fetch_schema`
  fetch_schema : Json → Outcome SchemaRead
  fetch_schema sch = do
    let fqn = catalog <> "." <> text_of (get sch "name")
    grants ← get_grants S url s "schema" fqn
    tables ← list_tables S url s catalog (text_of (get sch "name"))
    policies ← list_policies S url s "schema" fqn
    ok (record {
      name = text_of (get sch "name");
      grants = grants;
      tables = take 50 tables;
      policies = policies;
    })

  unfoldable pub fetch_schemas : List Json → Outcome (List SchemaRead)
  unfolding fetch_schema
  fetch_schemas [] = ok []
  fetch_schemas (sch ∷ schs) = do
    here ← fetch_schema sch
    rest ← fetch_schemas schs
    ok (here ∷ rest)

  -- `for sr in schema_results`: grants and policies.
  record_schemas : List SchemaRead → Collected → Collected
  record_schemas [] c = c
  record_schemas (sr ∷ srs) c = record_schemas srs (record c {
    rows = record_grants ("schema:" <> catalog <> "." <> sr.name) sr.grants c.rows;
    policies = c.policies ++ sr.policies;
  })

  -- One table: its grants, its constraints, its policies and its columns.
  record_table : Job → Collected → Outcome Collected
  unfolding metadata_of note_table resolver
  record_table (scope, fqn) c = do
    metadata ← metadata_of (get_table S url s fqn)
    policies ← list_policies S url s "table" fqn
    grants ← get_grants S url s "table" fqn
    rows ←
        record_uc_constraints R.hashing catalog (not R.is_production) resolver scope fqn metadata
          (record_grants scope grants c.rows)
    ok (
        note_table (split b'.' fqn) (table_columns_of metadata)
          (record c { rows = rows; policies = c.policies ++ policies }))

  record_tables : List Job → Collected → Outcome Collected
  unfolding record_table
  record_tables [] c = ok c
  record_tables (j ∷ js) c = do next ← record_table j c; record_tables js next

  abbrev or_untagged : Outcome GovernedTags → Option GovernedTags
  or_untagged (ok g) = some g
  or_untagged (raised e) = none

  -- The governed tags, if there is a warehouse to read them on.
  governed_tags : Option GovernedTags
  governed_tags =
      if is_empty (strip R.warehouse_id)
      then none
      else or_untagged (R.read_governed_tags (strip R.warehouse_id) catalog s)

  unfoldable pub collect_dbx_rows : Outcome (List DiffRow)
  unfolding fetch_schemas record_schemas record_tables governed_tags resolver
  collect_dbx_rows = do
    grants ← get_grants S url s "catalog" catalog
    policies ← list_policies S url s "catalog" catalog
    schemas ← list_schemas S url s catalog
    reads ← fetch_schemas (read_schemas schemas)
    let start = record_schemas reads (record {
      rows = record_grants ("catalog:" <> catalog) grants [];
      policies = policies;
      tables_by_schema = [];
      columns_by_table = λ s' t'. [];
    })
    all ← record_tables (table_jobs catalog reads) start
    rows ←
        record_abac R.hashing catalog (not R.is_production) resolver all.columns_by_table R.python
          governed_tags all.policies all.tables_by_schema all.rows
    ok (values rows)
