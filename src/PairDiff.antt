-- ===== src/PairDiff.antt =====
-- app/services/pair_diff.py: the rows of a comparison, their tables and their merge.
pub mod Merge
pub mod Compare
pub mod Constraints
pub mod UcGrants
pub mod FabricRows
pub mod UcRows
pub mod Collect
pub mod AbacRows
pub mod Laws
use fabric_unified_permissio.Base.{
  String, ◌<>◌, Bool, true, false, not, ◌&&◌, ◌||◌, List, [], ◌∷◌, ◌++◌,
}
use fabric_unified_permissio.Base.{
  Option, none, some, ◌==◌, string_eq, string_discrete, Eq, if◌then◌else◌, contains, keep,
}
use fabric_unified_permissio.Base.Dict.{Dict, lookup, insert}
use fabric_unified_permissio.Base.Text.{join, is_empty, lower}
use fabric_unified_permissio.Base.Json.{Json, Fields, end, get, text_of}

abbrev pub fabric_role_to_access : Dict String String
fabric_role_to_access =
    ("Viewer", "DATA_READ")
    ∷ ("Contributor", "DATA_WRITE")
    ∷ ("Member", "DATA_WRITE")
    ∷ ("Admin", "DATA_ADMIN")
    ∷ []

abbrev pub access_subsumes : Dict String (List String)
access_subsumes =
    ("DATA_ADMIN", "DATA_WRITE" ∷ "DATA_READ" ∷ []) ∷ ("DATA_WRITE", "DATA_READ" ∷ []) ∷ []

pub record DiffRow : Type 0 where
  pub principal_key : String
  pub principal_display : String
  pub principal_type : String
  pub securable_scope : String
  pub access_class : String
  pub on_dbx : Bool
  pub on_fabric : Bool
  pub raw_dbx : List String
  pub raw_fabric : List String
  pub constraint_kind : String
  pub constraint_key : String
  pub constraint_details : Fields
  pub has_row_col_diff : Bool

abbrev pub status : DiffRow → String
status r =
    if r.on_dbx && not r.on_fabric
    then "dbx_only"
    else if r.on_fabric && not r.on_dbx
    then "fabric_only"
    else "in_sync"

abbrev pub selection_key : DiffRow → String
selection_key r = join "|" (
    r.principal_key ∷ r.securable_scope ∷ r.access_class ∷ r.constraint_kind ∷ r.constraint_key
    ∷ [])

-- The tuple of `_row_identity`.
pub record RowKey : Type 0 where
  pub principal_key : String
  pub securable_scope : String
  pub access_class : String
  pub constraint_kind : String
  pub constraint_key : String

unfoldable pub RowKey-discrete : Discrete RowKey
RowKey-discrete = hlevel string_discrete

instance abbrev pub row_key_eq : Eq RowKey
row_key_eq = record { dec = RowKey-discrete }

abbrev pub row_identity : DiffRow → RowKey
row_identity r = record {
  principal_key = r.principal_key;
  securable_scope = r.securable_scope;
  access_class = r.access_class;
  constraint_kind = r.constraint_kind;
  constraint_key = r.constraint_key;
}

abbrev pub Rows : Type 0
Rows = Dict RowKey DiffRow

-- `for x in more: if x not in raws: raws.append(x)`
pub add_raw : List String → List String → List String
add_raw raws [] = raws
add_raw raws (x ∷ more) = add_raw (if contains raws x then raws else raws ++ (x ∷ [])) more

abbrev pub absorb : DiffRow → DiffRow → DiffRow
absorb m r = record m {
  on_dbx = m.on_dbx || r.on_dbx;
  on_fabric = m.on_fabric || r.on_fabric;
  raw_dbx = add_raw m.raw_dbx r.raw_dbx;
  raw_fabric = add_raw m.raw_fabric r.raw_fabric;
}

abbrev pub merged_with : Option DiffRow → DiffRow → DiffRow
merged_with none r = r
merged_with (some m) r = absorb m r

-- `for r in dbx + fab`
unfoldable pub merge_rows : Rows → List DiffRow → Rows
unfolding add_raw
merge_rows d [] = d
merge_rows d (r ∷ rs) =
    merge_rows (insert (row_identity r) (merged_with (lookup (row_identity r) d) r) d) rs

-- The buckets of `compute_diff`, on the rows in the order that it sorts them into.
abbrev pub bucket : String → List DiffRow → List DiffRow
bucket name = keep (λ r. status r == name)

-- `rows.get(k) or DiffRow(...)`, then on Fabric with the role.
abbrev pub or_new : Option DiffRow → DiffRow → DiffRow
or_new none r = r
or_new (some r) fresh = r

pub record Principal : Type 0 where
  pub key : String
  pub display : String
  pub kind : String

abbrev pub fresh_row : Principal → String → String → DiffRow
fresh_row p scope access = record {
  principal_key = p.key;
  principal_display = p.display;
  principal_type = p.kind;
  securable_scope = scope;
  access_class = access;
  on_dbx = false;
  on_fabric = false;
  raw_dbx = [];
  raw_fabric = [];
  constraint_kind = "";
  constraint_key = "";
  constraint_details = end;
  has_row_col_diff = false;
}

pub record_fabric : Rows → Principal → String → String → String → Rows
unfolding add_raw
record_fabric rows p scope role access =
    let fresh = fresh_row p scope access in
    let row = or_new (lookup (row_identity fresh) rows) fresh in
    insert (row_identity fresh)
      (record row { on_fabric = true; raw_fabric = add_raw row.raw_fabric (role ∷ []) }) rows

abbrev or_empty : Option (List String) → List String
or_empty none = []
or_empty (some xs) = xs

-- `for ac in access_classes`
pub record_classes : Rows → Principal → String → String → List String → Rows
unfolding record_fabric
record_classes rows p scope role [] = rows
record_classes rows p scope role (c ∷ cs) =
    record_classes (record_fabric rows p scope role c) p scope role cs

-- `x or y` on texts
abbrev or_text : String → String → String
or_text x y = if is_empty x then y else x

pub fabric_principal_key : Json → Principal
fabric_principal_key ra =
    let pr = get ra "principal" in
    let oid = text_of (get pr "id") in
    let upn = text_of (get pr "userPrincipalName") in
    let disp = or_text (text_of (get pr "displayName")) (or_text upn oid) in
    record {
      key = lower (or_text oid (or_text upn disp));
      display = disp;
      kind = or_text (text_of (get pr "type")) "Unknown";
    }

-- The rows of one role assignment: its own on the workspace, and those on the paired catalog.
role_rows : Rows → String → String → Principal → String → Option String → Rows
unfolding record_classes
role_rows rows workspace uc_catalog p role none = rows
role_rows rows workspace uc_catalog p role (some access) =
    let here = record_fabric rows p ("workspace:" <> workspace) role access in
    let classes = access ∷ or_empty (lookup access access_subsumes) in
    if is_empty uc_catalog
    then here
    else record_fabric (record_classes here p ("catalog:" <> uc_catalog) role classes) p
        ("catalog:" <> uc_catalog) role "OBJECT_USE"

-- `for ra in assignments`
pub record_assignments : Rows → String → String → List Json → Rows
unfolding role_rows
record_assignments rows workspace uc_catalog [] = rows
record_assignments rows workspace uc_catalog (ra ∷ assignments) =
    let p = fabric_principal_key ra in
    let role = or_text (text_of (get ra "role")) (text_of (get ra "roleName")) in
    record_assignments
      (if is_empty p.key
        then rows
        else role_rows rows workspace uc_catalog p role (lookup role fabric_role_to_access))
      workspace uc_catalog assignments
