-- ===== src/PairDiff/UcGrants.antt =====
-- The rows of grants of Unity Catalog (app/services/pair_diff.py).
pub mod Scoped
use fabric_unified_permissio.Base.{
  String, true, ◌&&◌, List, [], ◌∷◌, Option, none, some, map, string_eq, if◌then◌else◌, eqb,
}
use fabric_unified_permissio.Base.Dict.{Dict, lookup, insert}
use fabric_unified_permissio.Base.Json.{Json, get, text_of, elements}
use fabric_unified_permissio.Base.Text.{
  strip, lower, upper, is_empty, has_char, keep_chars, text_length,
}
use Prim.Native.Char.{code}
use fabric_unified_permissio.PairDiff.{
  row_key_eq, row_identity, Rows, Principal, fresh_row, or_new, add_raw,
}

abbrev pub uc_to_access : Dict String String
uc_to_access =
    ("SELECT", "DATA_READ")
    ∷ ("MODIFY", "DATA_WRITE")
    ∷ ("APPLY_TAG", "DATA_ADMIN")
    ∷ ("ALL_PRIVILEGES", "DATA_ADMIN")
    ∷ ("USE_CATALOG", "OBJECT_USE")
    ∷ ("USE_SCHEMA", "OBJECT_USE")
    ∷ ("CREATE_SCHEMA", "DATA_WRITE")
    ∷ ("CREATE_TABLE", "DATA_WRITE")
    ∷ ("CREATE_FUNCTION", "DATA_WRITE")
    ∷ ("EXECUTE", "OBJECT_USE")
    ∷ ("READ_VOLUME", "DATA_READ")
    ∷ ("WRITE_VOLUME", "DATA_WRITE")
    ∷ []

pub dbx_principal_key : Json → Principal
dbx_principal_key assignment =
    let principal = strip (text_of (get assignment "principal")) in
    let dashes = text_length (keep_chars (λ c. eqb (code c) b'-') principal) in
    record {
      key = lower principal;
      display = principal;
      kind =
          if has_char b'@' principal
          then "User"
          else if eqb dashes 4 && eqb (text_length principal) 36
          then "ServicePrincipal"
          else "Group";
    }

-- `row.on_dbx = True`, with the privilege that says so.
unfoldable pub record_dbx : Rows → Principal → String → String → String → Rows
record_dbx rows p scope privilege access =
    let fresh = fresh_row p scope access in
    let row = or_new (lookup (row_identity fresh) rows) fresh in
    insert (row_identity fresh)
      (record row { on_dbx = true; raw_dbx = add_raw row.raw_dbx (privilege ∷ []) }) rows

abbrev record_if : Rows → Principal → String → String → Option String → Rows
record_if rows p scope privilege none = rows
record_if rows p scope privilege (some access) = record_dbx rows p scope privilege access

-- `for priv in g.get("privileges", []) or []`
unfoldable pub record_privileges : Principal → String → List String → Rows → Rows
unfolding record_dbx
record_privileges p scope [] rows = rows
record_privileges p scope (q ∷ qs) rows =
    record_privileges p scope qs (record_if rows p scope q (lookup (upper q) uc_to_access))

-- `_record(securable_scope, grants)`
unfoldable pub record_grants : String → List Json → Rows → Rows
unfolding record_privileges dbx_principal_key
record_grants scope [] rows = rows
record_grants scope (g ∷ gs) rows =
    let p = dbx_principal_key g in
    record_grants scope gs (
      if is_empty p.key
      then rows
      else record_privileges p scope (map text_of (elements (get g "privileges"))) rows)
