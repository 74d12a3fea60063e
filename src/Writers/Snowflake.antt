-- ===== src/Writers/Snowflake.antt =====
-- permission-sync/src/writers/snowflake_writer.py
pub mod Safe
use Prim.Native.Char.{Char, code}
use Prim.Native.String
use fabric_unified_permissio.Base.{String, ◌<>◌, Bool, true, false, ◌&&◌, ◌||◌, Option, none, some}
use fabric_unified_permissio.Base.{eqb, ◌==◌, string_eq, if◌then◌else◌, get_elem?, List}
use fabric_unified_permissio.Base.Json.{str, Fields, end, field, get_field, elements, text?}
use fabric_unified_permissio.Base.Outcome.{Outcome, ok, raised, ◌>>=◌}
use fabric_unified_permissio.Base.Http.{Services}
use fabric_unified_permissio.Base.Text.{upper, is_empty, is_upper, is_lower, is_digit}
use fabric_unified_permissio.Canonical.{CanonicalPermission}

-- The characters of `[A-Za-z_]` and of `[A-Za-z0-9_\.\"]`.
abbrev pub is_ident_start : Char → Bool
is_ident_start c = is_upper c || is_lower c || eqb (code c) b'_'

abbrev pub is_ident_part : Char → Bool
is_ident_part c = is_ident_start c || is_digit c || eqb (code c) b'.' || eqb (code c) 34

-- `_IDENT_RE.match(val)`, whose `$` lets one newline stand at the end.
pub ident_rest : String → Bool
ident_rest String.[] = true
ident_rest (String.◌∷◌ c s) = is_ident_part c && ident_rest s || eqb (code c) 10 && is_empty s

unfoldable pub is_ident : String → Bool
unfolding ident_rest
is_ident String.[] = false
is_ident (String.◌∷◌ c s) = is_ident_start c && ident_rest s

unfoldable pub safe_ident : String → Outcome String
safe_ident val = if is_ident val then ok val else raised ("Unsafe Snowflake identifier: " <> val)

-- `_snowflake_name_for`: column 5 of the row of `SHOW GRANTS` that the permission came from.
pub snowflake_name_for : CanonicalPermission → Option String
snowflake_name_for p = elim (get_elem? (elements (get_field "row" p.source_raw_object)) 5) [
  | none ↦ none
  | some j ↦ text? j
]

unfoldable pub grantee_type : CanonicalPermission → String
grantee_type p = if p.principal_type == "Group" then "ROLE" else "USER"

-- The statement, or the `ValueError` of an identifier that is not safe.
unfoldable pub statement : CanonicalPermission → String → String → Bool → Outcome String
statement p target_privilege sf_name grant = do
  sec_type ← safe_ident (upper p.securable_type)
  sec_fqn ← safe_ident p.securable_fqn
  priv ← safe_ident target_privilege
  grantee ← safe_ident sf_name
  ok (
      (if grant then "GRANT" else "REVOKE")
      <> " "
      <> priv
      <> " ON "
      <> sec_type
      <> " "
      <> sec_fqn
      <> " "
      <> (if grant then "TO" else "FROM")
      <> " "
      <> grantee_type p
      <> " "
      <> grantee)

abbrev error_reason : String → Fields
error_reason e = field "action" (str "error") (field "reason" (str e) end)

abbrev executed : Bool → String → Outcome (List (List String)) → Fields
executed grant sql (ok rows) =
    field "action" (str (if grant then "granted" else "revoked")) (field "sql" (str sql) end)
executed grant sql (raised e) =
    field "action" (str "error") (field "sql" (str sql) (field "exception" (str e) end))

abbrev no_identity : Fields
no_identity =
    field "action" (str "skipped")
      (field "reason" (str "no snowflake identity for canonical principal") end)

module _ (S : Services) where
  -- `_connect` and the statement. `connect` raises past `_execute`.
  pub run_statement : Fields → String → Bool → S.State → Outcome Fields × S.State
  run_statement conn_params sql grant s =
      if S.has_connector
      then (elim (S.connect conn_params s) [
        | ok _ ↦ let (r, t) = S.run_sql sql s in (ok (executed grant sql r), t)
        | raised e ↦ (raised e, s)
      ])
      else (ok (error_reason "snowflake-connector missing"), s)

  execute_named :
      Fields
      → CanonicalPermission
      → String
      → Bool
      → Option String
      → S.State
      → Outcome Fields × S.State
  execute_named conn_params p target_privilege grant none s = (ok no_identity, s)
  execute_named conn_params p target_privilege grant (some sf_name) s =
      if is_empty sf_name
      then (ok no_identity, s)
      else (elim (statement p target_privilege sf_name grant) [
        | ok sql ↦ run_statement conn_params sql grant s
        | raised e ↦ (ok (error_reason e), s)
      ])

  -- `_execute`; `grant` calls it with `grant`, `revoke` without.
  pub execute_sf : Fields → CanonicalPermission → String → Bool → S.State → Outcome Fields × S.State
  unfolding execute_named
  execute_sf conn_params p target_privilege grant s =
      execute_named conn_params p target_privilege grant (snowflake_name_for p) s
