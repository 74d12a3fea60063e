-- ===== src/Discovery/Snowflake.antt =====
-- permission-sync/src/discovery/snowflake_discovery.py: the databases, schemas and tables of each
-- account, with the grants on each of them. The secrets of Key Vault and `json.loads` are
-- parameters.
pub mod Laws
use fabric_unified_permissio.Base.{
  String, ◌<>◌, Bool, true, false, List, [], ◌∷◌, Option, none, some, get_elem?, keep, ◌==◌,
  string_eq, if◌then◌else◌, map,
}
use fabric_unified_permissio.Base.{not, ◌&&◌}
use fabric_unified_permissio.Base.Json.{
  Json, str, bool, arr, Fields, end, field, fields, field?, get, get_field, text_of, truthy,
  array_of,
}
use fabric_unified_permissio.Base.Http.{Services}
use fabric_unified_permissio.Base.Outcome.{Outcome, ok, raised, and_then, ◌>>=◌}
use fabric_unified_permissio.Base.Text.{is_empty, starts_with}
use fabric_unified_permissio.Canonical.{CanonicalPermission}
use fabric_unified_permissio.Discovery.Found.{
  Collect, no_permissions, both, for_each, unless, Source, permissions_of, display_of, Reported,
}
use fabric_unified_permissio.Translation.Identity.{Cache, EntraIdentity, resolve_to_entra_id}

-- What the discovery asks of Key Vault and of Python: the names of all secrets, and `json.loads`.
pub record Vault (S : Services) : Type 0 where
  pub all_names : S.State → Outcome (List String)
  pub loads : String → Outcome Json

pub record SnowflakeDiscovery : Type 0 where
  pub prefix : String
  pub source : Source

-- `for k in ("account", "user", "auth_type", "token_or_key")`
require : List String → Json → Outcome Json
require [] bundle = ok bundle
require (k ∷ ks) bundle = elim (field? k (fields bundle)) [
  | none ↦ raised k
  | some v ↦ require ks bundle
]

-- The arguments of `connect`.
unfoldable pub connect_arguments : Json → Fields
connect_arguments bundle =
    let token = get bundle "token_or_key" in
    let phrase = get bundle "private_key_passphrase" in
    let auth_type = text_of (get bundle "auth_type") in
    let auth : Fields =
      if auth_type == "oauth"
      then field "authenticator" (str "oauth") (field "token" token end)
      else if auth_type == "private_key"
      then field "authenticator" (str "SNOWFLAKE_JWT") (
          field "private_key" token
            (if truthy phrase then field "private_key_passphrase" phrase end else end))
      else end in
    field "account" (get bundle "account") (
      field "user" (get bundle "user") (
        field "database" (str "SNOWFLAKE")
          (field "schema" (str "ACCOUNT_USAGE") (field "disable_ocsp_checks" (bool true) auth))))

-- `row[n] if len(row) > n else ""`
abbrev cell : Option String → String
cell none = ""
cell (some s) = s

-- `[r[1] for r in rows]`: a row that is too short is an IndexError.
unfoldable pub second_cells : List (List String) → Outcome (List String)
second_cells [] = ok []
second_cells (row ∷ rows) = elim (get_elem? row 1) [
  | none ↦ raised "list index out of range"
  | some name ↦ (do more ← second_cells rows; ok (name ∷ more))
]

-- `except Exception`: what the call has changed stays.
abbrev pub quiet_result :
    {T : Type 0} → Outcome (List CanonicalPermission) × T → Outcome (List CanonicalPermission) × T
quiet_result (ok ps, t) = (ok ps, t)
quiet_result (raised e, t) = (ok [], t)

unfoldable pub quiet : {T : Type 0} → Collect T → Collect T
quiet f t = quiet_result (f t)

module _ (S : Services) (v : Vault S) (d : SnowflakeDiscovery) where
  abbrev pub Session : Type 0
  Session = Cache × S.State

  -- `list_secret_names`
  unfoldable pub list_secret_names : S.State → Outcome (List String)
  list_secret_names s = do
    names ← v.all_names s
    ok (keep (λ n. not (is_empty n) && starts_with d.prefix n) names)

  -- `get_snowflake_auth`
  unfoldable pub get_snowflake_auth : String → S.State → Outcome Json
  unfolding require
  get_snowflake_auth name s = do
    raw ← S.secret name s
    bundle ← v.loads raw
    require ("account" ∷ "user" ∷ "auth_type" ∷ "token_or_key" ∷ []) bundle

  abbrev reported_row : List String → String → String → String → EntraIdentity → Reported
  reported_row row securable_type fqn account who = record {
    principal_entra_id = who.object_id;
    principal_type = who.principal_type;
    principal_display_name = display_of who (cell (get_elem? row 5));
    securable_type = securable_type;
    securable_fqn = fqn;
    workspace_id = account;
    platform = "snowflake";
    raw = field "row" (arr (array_of (map str row))) end;
  }

  of_grantee :
      List String → String → String → String → Option EntraIdentity → List CanonicalPermission
  of_grantee row securable_type fqn account none = []
  of_grantee row securable_type fqn account (some who) =
      permissions_of d.source (reported_row row securable_type fqn account who)
        (cell (get_elem? row 1) ∷ [])

  -- One row of SHOW GRANTS.
  unfoldable pub of_row : String → String → String → List String → Collect Session
  unfolding of_grantee
  of_row securable_type fqn account row (c, s) =
      let (found, e) = resolve_to_entra_id S (cell (get_elem? row 5)) "snowflake" s c in
      and_then (found, (e, s)) λ who t. (ok (of_grantee row securable_type fqn account who), t)

  -- `cur.execute(sql)` and what is done with the rows.
  with_rows :
      Outcome (List (List String)) → (List (List String) → Collect Session) → Collect Session
  with_rows (ok rows) f t = f rows t
  with_rows (raised e) f t = (raised e, t)

  unfoldable pub execute : String → (List (List String) → Collect Session) → Collect Session
  unfolding with_rows
  execute sql f (c, s) = let (r, t) = S.run_sql sql s in with_rows r f (c, t)

  -- `_rows_to_canonical` of the grants on a securable.
  unfoldable pub grants_on : String → String → String → String → Collect Session
  unfolding of_row execute
  grants_on shown securable_type fqn account =
      execute ("SHOW GRANTS ON " <> shown <> " " <> fqn)
        (λ rows. for_each (of_row securable_type fqn account) rows)

  -- The names that a statement lists.
  named_by : Outcome (List String) → (String → Collect Session) → Collect Session
  named_by (ok names) f = for_each f names
  named_by (raised e) f = λ t. (raised e, t)

  names_or_none : Outcome (List (List String)) → List String
  names_or_none (raised e) = []
  names_or_none (ok rows) = elim (second_cells rows) [ ok names ↦ names | raised e ↦ [] ]

  -- The tables of a schema: a list that fails is empty, and a table that fails is left out.
  tables_of : String → String → Collect Session
  unfolding grants_on names_or_none
  tables_of full_s account (c, s) =
      let (r, t) = S.run_sql ("SHOW TABLES IN SCHEMA " <> full_s) s in
      for_each (λ tb. quiet (grants_on "TABLE" "table" (full_s <> "." <> tb) account))
        (names_or_none r) (c, t)

  of_schema : String → String → String → Collect Session
  unfolding grants_on tables_of
  of_schema db account sch =
      both (grants_on "SCHEMA" "schema" (db <> "." <> sch) account)
        (tables_of (db <> "." <> sch) account)

  of_database : String → String → Collect Session
  unfolding grants_on of_schema named_by execute
  of_database account db = both (grants_on "DATABASE" "database" db account) (
      execute ("SHOW SCHEMAS IN DATABASE " <> db)
        (λ rows. named_by (second_cells rows) (of_schema db account)))

  connected : Outcome (Unit {0}) → Collect Session → Collect Session
  connected (ok _) f = f
  connected (raised e) f = λ t. (raised e, t)

  -- `_discover_account`: no connector, no permissions.
  unfoldable pub discover_account : Json → Collect Session
  unfolding of_database connected named_by execute
  discover_account bundle (c, s) =
      unless (not S.has_connector)
        (connected (S.connect (connect_arguments bundle) s) (
          execute "SHOW DATABASES"
            (λ rows. named_by (second_cells rows) (of_database (text_of (get bundle "account"))))))
        (c, s)

  with_bundle : Outcome Json → Collect Session
  unfolding discover_account
  with_bundle (ok bundle) = discover_account bundle
  with_bundle (raised e) = λ t. (raised e, t)

  -- One account; whatever it raises, the others are still discovered.
  unfoldable pub of_account : String → Collect Session
  unfolding with_bundle
  of_account name (c, s) = quiet (with_bundle (get_snowflake_auth name s)) (c, s)

  accounts : Outcome (List String) → List String
  accounts (ok names) = names
  accounts (raised e) = []

  unfoldable pub discover_all : Collect Session
  unfolding accounts of_account
  discover_all (c, s) =
      unless (is_empty d.prefix) (for_each of_account (accounts (list_secret_names s))) (c, s)
