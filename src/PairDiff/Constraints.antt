-- ===== src/PairDiff/Constraints.antt =====
-- Row and column constraints in a comparison (app/services/pair_diff.py): the row of a constraint, and
-- the scopes that the paths of a data access role stand for.
pub mod RoundTrip
pub mod InSync
pub mod Scoped
pub mod Paths
use Prim.Native.Char.{Char, code}
use Prim.Native.String
use fabric_unified_permissio.Base.{
  String, ◌<>◌, Bool, true, false, not, ◌&&◌, ◌||◌, List, [], ◌∷◌, ◌++◌, Option, none, some,
}
use fabric_unified_permissio.Base.{◌==◌, string_eq, if◌then◌else◌, eqb, keep, map}
use fabric_unified_permissio.Base.Dict.{lookup, insert}
use fabric_unified_permissio.Base.Json.{
  Json, bool, str, arr, Fields, end, field, get, get_field, is_dict, text_of, elements, array_of,
  or_else,
}
use fabric_unified_permissio.Base.Text.{is_empty, strip, rstrip_of, lower, split, join}
use fabric_unified_permissio.FineGrained.Rows.{canonical_row_filter_key}
use fabric_unified_permissio.FineGrained.Scope.{
  FabricConstraintTranslation, Hashing, canonical_column_constraint_key,
}
use fabric_unified_permissio.PairDiff.{DiffRow, row_key_eq, row_identity, Rows, absorb}

abbrev pub table_policy_principal : String
table_policy_principal = "__table_policy__"

abbrev has_key : String → Fields → Bool
has_key k end = false
has_key k (field j v fs) = k == j || has_key k fs

-- `d[k] = v` and `d.setdefault(k, v)`
set_field : String → Json → Fields → Fields
set_field k v end = field k v end
set_field k v (field j w fs) = if k == j then field k v fs else field j w (set_field k v fs)

abbrev set_default : String → Json → Fields → Fields
set_default k v fs = if has_key k fs then fs else set_field k v fs

-- A policy that resolves to a constraint which is there already leaves its name on it.
annotated : Fields → Fields → Fields
unfolding set_field
annotated details old =
    if text_of (get_field "source" details) == "databricks_abac_resolved"
    then set_field "abac_driven" (bool true) (
        set_default "abac_policy_id" (get_field "policy_id" details)
          (set_default "abac_policy" (get_field "policy_name" details) old))
    else old

-- What `_record_constraint_row` is called with.
pub record Recorded : Type 0 where
  pub side : String
  pub securable_scope : String
  pub constraint_kind : String
  pub constraint_key : String
  pub raw_label : String
  pub details : Fields

-- The principal of every caller is the one of table policies.
abbrev pub constraint_row : Recorded → DiffRow
constraint_row c = record {
  principal_key = table_policy_principal;
  principal_display = "Table policy";
  principal_type = "Policy";
  securable_scope = c.securable_scope;
  access_class = "DATA_READ";
  on_dbx = c.side == "dbx";
  on_fabric = not (c.side == "dbx");
  raw_dbx = if c.side == "dbx" then c.raw_label ∷ [] else [];
  raw_fabric = if c.side == "dbx" then [] else c.raw_label ∷ [];
  constraint_kind = c.constraint_kind;
  constraint_key = c.constraint_key;
  constraint_details = c.details;
  has_row_col_diff = true;
}

abbrev on_existing : Option DiffRow → Recorded → DiffRow
on_existing none c = constraint_row c
on_existing (some m) c = record (absorb m (constraint_row c)) {
  constraint_details = annotated c.details m.constraint_details;
}

unfoldable pub record_constraint_row : Recorded → Rows → Rows
unfolding annotated
record_constraint_row c rows =
    let k = row_identity (constraint_row c) in insert k (on_existing (lookup k rows) c) rows

-- `path.strip("/")`
abbrev pub is_slash : Char → Bool
is_slash c = eqb (code c) b'/'

pub skip_slashes : String → String
skip_slashes String.[] = ""
skip_slashes (String.◌∷◌ c s) =
    let rest = skip_slashes s in if is_slash c then rest else String.◌∷◌ c s

-- `clean in {"", "/", "*"}`
abbrev pub is_root : String → Bool
is_root String.[] = true
is_root (String.◌∷◌ c String.[]) = is_slash c || eqb (code c) b'*'
is_root (String.◌∷◌ c (String.◌∷◌ d s)) = false

abbrev catalog_scope : String → String
catalog_scope catalog = "catalog:" <> catalog

-- The scope behind an optional `Tables` segment.
abbrev under_tables : String → List String → String
under_tables catalog [] = catalog_scope catalog
under_tables catalog (schema ∷ []) = "schema:" <> catalog <> "." <> schema
under_tables catalog (schema ∷ t ∷ ts) =
    "table:" <> catalog <> "." <> schema <> "." <> join "." (t ∷ ts)

abbrev pub of_segments : String → List String → String
of_segments catalog [] = catalog_scope catalog
of_segments catalog (s ∷ []) =
    if s == "*"
    then catalog_scope catalog
    else if lower s == "tables"
    then catalog_scope catalog
    else under_tables catalog (s ∷ [])
of_segments catalog (s ∷ t ∷ ts) =
    if lower s == "tables" then under_tables catalog (t ∷ ts) else under_tables catalog (s ∷ t ∷ ts)

abbrev pub segments : String → List String
segments clean =
    keep (λ segment. not (is_empty segment)) (split b'/' (rstrip_of is_slash (skip_slashes clean)))

pub scope_of_path : String → String → String
unfolding skip_slashes
scope_of_path catalog path =
    let clean = strip path in
    if is_root clean then catalog_scope catalog else of_segments catalog (segments clean)

-- `for path in paths or ["/"]`
pub scopes_from_dar_paths : String → List String → List String
unfolding scope_of_path
scopes_from_dar_paths catalog [] = catalog_scope catalog ∷ []
scopes_from_dar_paths catalog (p ∷ ps) = map (scope_of_path catalog) (p ∷ ps)

abbrev first_or : List String → String → String
first_or [] s = s
first_or (x ∷ xs) s = x

pub scope_from_table_path : String → String → String
unfolding scopes_from_dar_paths
scope_from_table_path catalog table_path =
    first_or (scopes_from_dar_paths catalog (table_path ∷ [])) (catalog_scope catalog)

module _ (H : Hashing) (catalog : String) (members : List Json) where
  abbrev on_fabric_side : String → String → String → String → Fields → Recorded
  on_fabric_side scope kind key label details = record {
    side = "fabric";
    securable_scope = scope;
    constraint_kind = kind;
    constraint_key = key;
    raw_label = label;
    details = set_field "members" (arr (array_of members)) details;
  }

  pub row_recorded : Json → Recorded
  unfolding scope_from_table_path
  row_recorded j =
      let path = text_of (get j "tablePath") in
      let predicate = text_of (get j "value") in
      let scope = scope_from_table_path catalog path in
      on_fabric_side scope "row_filter" (canonical_row_filter_key H scope predicate)
        "ROW CONSTRAINT"
        (field "table_path" (str path) (
          field "predicate" (str predicate)
            (field "type" (get j "type") (field "source" (str "fabric") (field "raw" j end)))))

  pub column_recorded : Json → Recorded
  unfolding scope_from_table_path
  column_recorded j =
      let path = text_of (get j "tablePath") in
      let columns = map text_of (elements (get j "columnNames")) in
      let scope = scope_from_table_path catalog path in
      on_fabric_side scope "column_mask" (canonical_column_constraint_key H scope columns)
        "COLUMN CONSTRAINT"
        (field "table_path" (str path) (
          field "columns" (arr (array_of (map str columns))) (
            field "column_effect" (get j "columnEffect") (
              field "column_action" (or_else (get j "columnAction") (arr (array_of [])))
                (field "source" (str "fabric") (field "raw" j end))))))

  record_each : (Json → Recorded) → List Json → Rows → Rows
  record_each f [] rows = rows
  record_each f (j ∷ js) rows = record_each f js (record_constraint_row (f j) rows)

  -- `_record_fabric_constraints` for one rule of a role: constraints that are no dict have none.
  pub record_fabric_constraints : Json → Rows → Rows
  unfolding record_each row_recorded column_recorded
  record_fabric_constraints rule rows =
      let constraints = get rule "constraints" in
      record_each column_recorded (keep is_dict (elements (get constraints "columns")))
        (record_each row_recorded (keep is_dict (elements (get constraints "rows"))) rows)

-- `_record_uc_constraints` for a mask that was translated: its row of the Databricks side.
abbrev pub uc_mask_recorded :
    Hashing → String → String → FabricConstraintTranslation → Fields → Recorded
uc_mask_recorded H table_scope column_name translated details = record {
  side = "dbx";
  securable_scope = table_scope;
  constraint_kind = "column_mask";
  constraint_key = canonical_column_constraint_key H table_scope translated.column_names;
  raw_label = "COLUMN MASK " <> column_name;
  details = details;
}
