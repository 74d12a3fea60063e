-- ===== src/Discovery/UnityCatalog.antt =====
-- permission-sync/src/discovery/unity_catalog_discovery.py: catalogs, schemas and tables of each
-- workspace, with the grants on each of them.
pub mod Laws
use fabric_unified_permissio.Base.{
  String, ◌<>◌, ◌||◌, List, [], ◌∷◌, Option, none, some, map, ◌==◌, string_eq, if◌then◌else◌, eqb,
}
use fabric_unified_permissio.Base.Json.{
  Json, null, str, num, obj, Fields, end, field, fields, get, text_of, elements,
}
use fabric_unified_permissio.Base.Http.{Services, Response, reply, failed}
use fabric_unified_permissio.Base.Outcome.{Outcome, ok, raised, and_then, ◌>>=◌}
use fabric_unified_permissio.Base.Text.{is_empty, rstrip_slash}
use fabric_unified_permissio.Canonical.{CanonicalPermission}
use fabric_unified_permissio.Discovery.Found.{
  Collect, both, unless, listed, for_each, Source, permissions_of, display_of, Reported,
}
use fabric_unified_permissio.OneSync.{ok_body}
use fabric_unified_permissio.Translation.Identity.{Cache, EntraIdentity, resolve_to_entra_id}

pub record UnityCatalogDiscovery : Type 0 where
  pub account_host : String
  -- `databricks_account_id_secret`, blank if it is not set.
  pub account_id_secret : String
  pub source : Source

-- A reply of a workspace: no access reads as an empty object, any other failure raises.
abbrev pub ws_body : Response → Outcome Json
ws_body (reply status text body) =
    if eqb status 401 || eqb status 403 then ok (obj end) else ok_body (reply status text body)
ws_body (failed e) = raised e

-- `workspace_url`, or the address of the deployment.
unfoldable pub workspace_address : Json → String
workspace_address ws =
    let url = text_of (get ws "workspace_url") in
    let name = text_of (get ws "deployment_name") in
    if is_empty url
    then (if is_empty name then "" else "https://" <> name <> ".cloud.databricks.com")
    else url

module _ (S : Services) (d : UnityCatalogDiscovery) (s : S.State) where
  pub ws_get : String → String → Fields → Outcome Json
  ws_get workspace_url path params = ws_body (S.fetch (rstrip_slash workspace_url <> path) params s)

  abbrev reported : Json → String → String → String → EntraIdentity → Reported
  reported pa workspace_id securable_type full_name who = record {
    principal_entra_id = who.object_id;
    principal_type = who.principal_type;
    principal_display_name = display_of who (text_of (get pa "principal"));
    securable_type = securable_type;
    securable_fqn = full_name;
    workspace_id = workspace_id;
    platform = "unity_catalog";
    raw = fields pa;
  }

  of_principal : Json → String → String → String → Option EntraIdentity → List CanonicalPermission
  of_principal pa workspace_id securable_type full_name none = []
  of_principal pa workspace_id securable_type full_name (some who) =
      permissions_of d.source (reported pa workspace_id securable_type full_name who)
        (map text_of (elements (get pa "privileges")))

  -- One privilege assignment.
  unfoldable pub assignment : String → String → String → Json → Collect Cache
  unfolding of_principal
  assignment workspace_id securable_type full_name pa c =
      let principal = text_of (get pa "principal") in
      and_then (resolve_to_entra_id S principal "unity_catalog" s c)
        λ who e. (ok (of_principal pa workspace_id securable_type full_name who), e)

  unfoldable pub grants_to_canonical : String → String → String → Collect Cache
  unfolding assignment ws_get
  grants_to_canonical ws_url securable_type full_name =
      listed
        (ws_get ws_url ("/api/2.1/unity-catalog/permissions/" <> securable_type <> "/" <> full_name)
          end)
        (λ body.
          for_each (assignment ws_url securable_type full_name)
            (elements (get body "privilege_assignments")))

  of_table : String → String → Json → Collect Cache
  unfolding grants_to_canonical
  of_table ws_url full_schema t =
      let name = text_of (get t "name") in
      unless (is_empty name) (grants_to_canonical ws_url "table" (full_schema <> "." <> name))

  of_schema : String → String → Json → Collect Cache
  unfolding of_table grants_to_canonical ws_get
  of_schema ws_url cn sch =
      let sn = text_of (get sch "name") in
      let full_schema = cn <> "." <> sn in
      unless (is_empty sn || sn == "information_schema") (
        both (grants_to_canonical ws_url "schema" full_schema) (
          listed
            (ws_get ws_url "/api/2.1/unity-catalog/tables" (
              field "catalog_name" (str cn)
                (field "schema_name" (str sn) (field "max_results" (num 1000) end))))
            (λ body. for_each (of_table ws_url full_schema) (elements (get body "tables")))))

  of_catalog : String → Json → Collect Cache
  unfolding of_schema grants_to_canonical ws_get
  of_catalog ws_url cat =
      let cn = text_of (get cat "name") in
      unless (is_empty cn) (
        both (grants_to_canonical ws_url "catalog" cn) (
          listed
            (ws_get ws_url "/api/2.1/unity-catalog/schemas" (field "catalog_name" (str cn) end))
            (λ body. for_each (of_schema ws_url cn) (elements (get body "schemas")))))

  unfoldable pub discover_workspace : String → Collect Cache
  unfolding of_catalog ws_get
  discover_workspace ws_url =
      listed (ws_get ws_url "/api/2.1/unity-catalog/catalogs" end)
        (λ body. for_each (of_catalog ws_url) (elements (get body "catalogs")))

  abbrev elements_or_none : Outcome Json → List Json
  elements_or_none (ok body) = elements body
  elements_or_none (raised e) = []

  -- `_list_workspaces`: no secret, or an account that cannot be asked, has no workspaces.
  unfoldable pub list_workspaces : List Json
  list_workspaces =
      if is_empty d.account_id_secret
      then []
      else elements_or_none (do
        account_id ← S.secret d.account_id_secret s
        ok_body
            (S.fetch (d.account_host <> "/api/2.0/accounts/" <> account_id <> "/workspaces") end s))

  of_workspace : Json → Collect Cache
  unfolding discover_workspace workspace_address
  of_workspace ws =
      unless (is_empty (workspace_address ws)) (discover_workspace (workspace_address ws))

  -- `discover_all`, of one workspace if its address is given.
  unfoldable pub discover_all : Option String → Collect Cache
  unfolding of_workspace list_workspaces
  discover_all none = for_each of_workspace list_workspaces
  discover_all (some url) = for_each of_workspace (
      if is_empty url
      then list_workspaces
      else obj (field "deployment_name" (str "") (field "workspace_url" (str url) end)) ∷ [])
