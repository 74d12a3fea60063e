-- ===== src/FabricRest.antt =====
-- What app/services/fabric_rest.py reads of Fabric: each listing is the first page of its answer.
use fabric_unified_permissio.Base.{String, ◌<>◌, List, string_eq}
use fabric_unified_permissio.Base.Json.{Json, end, get, elements}
use fabric_unified_permissio.Base.Http.{Services}
use fabric_unified_permissio.Base.Outcome.{Outcome, ok, raised}
use fabric_unified_permissio.OneSync.{ok_body}

abbrev fabric_base : String
fabric_base = "https://api.fabric.microsoft.com/v1"

abbrev value_of : Outcome Json → Outcome (List Json)
value_of (ok body) = ok (elements (get body "value"))
value_of (raised e) = raised e

module _ (S : Services) (s : S.State) where
  unfoldable pub list_items : String → Outcome (List Json)
  list_items workspace_id =
      value_of (ok_body (S.fetch (fabric_base <> "/workspaces/" <> workspace_id <> "/items") end s))

  unfoldable pub list_role_assignments : String → Outcome (List Json)
  list_role_assignments workspace_id = value_of (
      ok_body (S.fetch (fabric_base <> "/workspaces/" <> workspace_id <> "/roleAssignments") end s))

  unfoldable pub list_data_access_policies : String → String → Outcome (List Json)
  list_data_access_policies workspace_id mirror_id = value_of (
      ok_body (
        S.fetch
          (fabric_base <> "/workspaces/" <> workspace_id <> "/items/" <> mirror_id
            <> "/dataAccessRoles")
          end s))
