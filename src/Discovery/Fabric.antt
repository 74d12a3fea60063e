-- ===== src/Discovery/Fabric.antt =====
-- permission-sync/src/discovery/fabric_discovery.py: the role assignments of each workspace and,
-- where it is enabled, the data access roles of its lakehouses.
pub mod Paging
pub mod Laws
use fabric_unified_permissio.Base.{
  ℕ, String, ◌<>◌, Bool, false, not, ◌||◌, List, [], ◌∷◌, ◌++◌, Option, none, some, map, keep,
}
use fabric_unified_permissio.Base.{◌==◌, string_eq, if◌then◌else◌, eqb}
use fabric_unified_permissio.Base.Json.{
  Json, str, obj, Fields, end, field, fields, field?, get, text_of, elements,
}
use fabric_unified_permissio.Base.Http.{Services, Response, reply, failed}
use fabric_unified_permissio.Base.Outcome.{Outcome, ok, raised}
use fabric_unified_permissio.Base.Text.{is_empty}
use fabric_unified_permissio.Canonical.{CanonicalPermission}
use fabric_unified_permissio.Discovery.Fabric.Paging.{Run, paged, bind, catch, each_run, unless_run}
use fabric_unified_permissio.Discovery.Found.{Source, Reported, permissions_of}
use fabric_unified_permissio.OneSync.{ok_body}

pub record FabricDiscovery : Type 0 where
  pub api_base : String
  pub tag_key : String
  pub tag_value : String
  pub onelake_enabled : Bool
  pub source : Source

-- `d.get(k, default)`, for texts.
abbrev or_default : Option Json → String → String
or_default none default = default
or_default (some v) default = text_of v

abbrev get_or : Json → String → String → String
get_or j k default = or_default (field? k (fields j)) default

-- `x == text`, for a value of any type.
abbrev is_text : Json → String → Bool
is_text (str v) t = v == t
is_text _ t = false

-- `ra.get("role", "") or ra.get("roleName", "")`
abbrev pub role_name : Json → String
role_name ra =
    let role = text_of (get ra "role") in
    if is_empty role then text_of (get ra "roleName") else role

-- The statuses that the data access roles of an item may be missing with, and any failure, read as
-- no roles.
roles_of : Response → List Json
roles_of (reply status text body) =
    if eqb status 404 || eqb status 501
    then []
    else elim (ok_body (reply status text body)) [ ok b ↦ elements (get b "value") | raised e ↦ [] ]
roles_of (failed e) = []

-- The loops over one data access role: members, rules, permissions and their values.
pub flat : {A : Type 0} → (A → List CanonicalPermission) → List A → List CanonicalPermission
flat f [] = []
flat f (x ∷ xs) = f x ++ flat f xs

module _ (d : FabricDiscovery) (workspace : Json) where
  abbrev workspace_id : String
  workspace_id = text_of (get workspace "id")

  -- One role assignment of the workspace.
  unfoldable pub of_assignment : Json → List CanonicalPermission
  of_assignment ra =
      let principal = get ra "principal" in
      permissions_of d.source
        (record {
          principal_entra_id = text_of (get principal "id");
          principal_type = get_or principal "type" "User";
          principal_display_name = text_of (get principal "displayName");
          securable_type = "workspace";
          securable_fqn = get_or workspace "displayName" workspace_id;
          workspace_id = workspace_id;
          platform = "fabric";
          raw = fields ra;
        })
        (role_name ra ∷ [])

  abbrev reported_member : Json → Json → Json → Reported
  reported_member item dar member = record {
    principal_entra_id = text_of (get member "objectId");
    principal_type = get_or member "objectType" "User";
    principal_display_name = text_of (get member "displayName");
    securable_type = "lakehouse";
    securable_fqn = text_of (get item "displayName");
    workspace_id = workspace_id;
    platform = "fabric";
    raw = field "dar" dar (field "item" item end);
  }

  of_permission : Json → Json → Json → Json → List CanonicalPermission
  of_permission item dar member perm =
      permissions_of d.source (reported_member item dar member)
        (map text_of (elements (get perm "attributeValueIncludedIn")))

  of_rule : Json → Json → Json → Json → List CanonicalPermission
  unfolding flat of_permission
  of_rule item dar member rule =
      flat (of_permission item dar member) (elements (get rule "permission"))

  of_member : Json → Json → Json → List CanonicalPermission
  unfolding flat of_rule
  of_member item dar member = flat (of_rule item dar member) (elements (get dar "decisionRules"))

  -- One data access role of an item.
  unfoldable pub of_role : Json → Json → List CanonicalPermission
  unfolding flat of_member
  of_role item dar = flat (of_member item dar) (elements (get (get dar "members") "entraMembers"))

module _ (S : Services) (d : FabricDiscovery) (s : S.State) (fuel : ℕ) where
  unfoldable pub list_workspaces : Run (List Json)
  list_workspaces = bind (paged S s fuel (d.api_base <> "/workspaces")) λ ws. some (
      ok (
        if is_empty d.tag_key
        then ws
        else keep (λ w. is_text (get (get w "tags") d.tag_key) d.tag_value) ws))

  unfoldable pub list_role_assignments : String → Run (List Json)
  list_role_assignments workspace_id =
      catch (paged S s fuel (d.api_base <> "/workspaces/" <> workspace_id <> "/roleAssignments"))

  -- `list_items(workspace_id, "Lakehouse")`
  unfoldable pub list_items : String → Run (List Json)
  list_items workspace_id =
      catch
        (paged S s fuel (d.api_base <> "/workspaces/" <> workspace_id <> "/items?type=Lakehouse"))

  pub list_data_access_roles : String → String → List Json
  unfolding roles_of
  list_data_access_roles workspace_id item_id =
      if not d.onelake_enabled
      then []
      else roles_of (
          S.fetch
            (d.api_base <> "/workspaces/" <> workspace_id <> "/items/" <> item_id
              <> "/dataAccessRoles")
            end s)

  of_item : Json → Json → List CanonicalPermission
  unfolding list_data_access_roles flat
  of_item ws item =
      flat (of_role d ws item)
        (list_data_access_roles (text_of (get ws "id")) (text_of (get item "id")))

  -- The data access roles of the lakehouses of a workspace.
  unfoldable pub of_lakehouses : Json → Run (List CanonicalPermission)
  unfolding of_item flat
  of_lakehouses ws =
      unless_run (not d.onelake_enabled)
        (bind (list_items (text_of (get ws "id"))) λ items. some (ok (flat (of_item ws) items)))

  -- One workspace.
  unfoldable pub of_workspace : Json → Run (List CanonicalPermission)
  unfolding flat
  of_workspace ws =
      bind (list_role_assignments (text_of (get ws "id")))
        λ ras. bind (of_lakehouses ws) λ more. some (ok (flat (of_assignment d ws) ras ++ more))

  unfoldable pub discover_all : Run (List CanonicalPermission)
  discover_all = bind list_workspaces λ wss. each_run of_workspace wss
