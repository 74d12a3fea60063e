-- ===== src/PairApply/Graph.antt =====
-- The lookups of app/services/pair_apply.py in Microsoft Graph and Fabric. A cached lookup asks
-- again here, and a token that cannot be had is a request that fails.
use fabric_unified_permissio.Base.{String, ◌<>◌, List, [], ◌∷◌, Option, none, some}
use fabric_unified_permissio.Base.{◌==◌, string_eq, if◌then◌else◌, eqb, ◌||◌}
use fabric_unified_permissio.Base.Json.{
  Json, Fields, end, field, str, get, elements, text?, text_of,
}
use fabric_unified_permissio.Base.Http.{Services, Response, reply, failed}
use fabric_unified_permissio.Base.Text.{strip, is_empty, lower, has_char, replace_char}
use fabric_unified_permissio.PairApply.Layers.{is_guid}

-- An object id and the type of its principal.
pub record Resolved : Type 0 where
  pub object_id : String
  pub principal_type : String

-- `vals[0]["id"]` of a reply with status 200; what cannot be read so is passed over.
first_id : List Json → Option String
first_id [] = none
first_id (v ∷ vs) = text? (get v "id")

found_id : Response → Option String
unfolding first_id
found_id (reply status text body) =
    if eqb status 200 then first_id (elements (get body "value")) else none
found_id (failed e) = none

select : String → String → Fields
select filt keys = field "$filter" (str filt) (field "$select" (str keys) end)

pub record Query : Type 0 where
  pub path : String
  pub filt : String
  pub ptype : String

abbrev graph : String
graph = "https://graph.microsoft.com/v1.0"

queries : String → List Query
queries esc =
    record {
      path = "/users";
      filt = "userPrincipalName eq '" <> esc <> "' or mail eq '" <> esc <> "'";
      ptype = "User";
    }
    ∷ record { path = "/groups"; filt = "displayName eq '" <> esc <> "'"; ptype = "Group" }
    ∷ record {
      path = "/servicePrincipals";
      filt = "displayName eq '" <> esc <> "'";
      ptype = "ServicePrincipal";
    }
    ∷ []

-- `str(payload.get(key) or "").strip()` for the first key that gives a text.
pub first_value : Json → List String → Option String
first_value payload [] = none
first_value payload (key ∷ keys) =
    let rest = first_value payload keys in
    let value = strip (text_of (get payload key)) in if is_empty value then rest else some value

first_of : List Json → Option String
first_of [] = none
first_of (e ∷ es) =
    let rest = first_of es in
    let principal = text_of (get e "userPrincipalName") in
    let value = strip (if is_empty principal then text_of (get e "mail") else principal) in
    if is_empty value then rest else some value

upn_of : Response → Option String
unfolding first_of
upn_of (reply status text body) =
    if eqb status 200 then first_of (elements (get body "value")) else none
upn_of (failed e) = none

value_of : List String → Response → Option String
value_of keys (reply status text body) = if eqb status 200 then first_value body keys else none
value_of keys (failed e) = none

-- `{"MirroredAzureDatabricksCatalog"}` items whose name is the catalog's, case aside.
item_named : String → List Json → Option String
item_named catalog_name [] = none
item_named catalog_name (i ∷ items) =
    let rest = item_named catalog_name items in
    if text_of (get i "type") == "MirroredAzureDatabricksCatalog"
    then if lower (text_of (get i "displayName")) == lower catalog_name
      then text? (get i "id")
      else rest
    else rest

-- `_find_mirrored_catalog_item`, on the items that the workspace lists.
unfoldable pub find_mirrored_catalog_item : List Json → String → Option String
unfolding item_named
find_mirrored_catalog_item items catalog_name = item_named catalog_name items

module _ (S : Services) where
  -- `for path, filt, ptype in queries`
  ask : List Query → S.State → Option Resolved
  unfolding found_id select
  ask [] s = none
  ask (q ∷ qs) s =
      let rest = ask qs s in
      elim (found_id (S.fetch (graph <> q.path) (select q.filt "id") s)) [
        | none ↦ rest
        | some id ↦ some (record { object_id = id; principal_type = q.ptype })
      ]

  unfoldable pub resolve_entra : String → S.State → Option Resolved
  unfolding ask queries
  resolve_entra principal s =
      let p = strip principal in
      if is_empty p
      then none
      else if is_guid p
      then some (record { object_id = p; principal_type = "User" })
      else ask (queries (replace_char b'\'' "''" p)) s

  unfoldable pub resolve_display_name_to_upn : String → String → S.State → Option String
  unfolding upn_of select
  resolve_display_name_to_upn display_name principal_type s =
      let name = strip display_name in
      let ptype = lower principal_type in
      let esc = replace_char b'\'' "''" name in
      if is_empty name
      then none
      else if ptype == "group" || ptype == "serviceprincipal"
      then some name
      else upn_of (
          S.fetch (graph <> "/users")
            (select ("displayName eq '" <> esc <> "'") "userPrincipalName,mail") s)

  -- The request for an object id, by the type of the principal.
  of_object_id : String → String → S.State → Option String
  unfolding value_of
  of_object_id p ptype s =
      if ptype == "group"
      then value_of ("displayName" ∷ [])
          (S.fetch (graph <> "/groups/" <> p) (field "$select" (str "displayName") end) s)
      else if ptype == "serviceprincipal"
      then value_of ("displayName" ∷ "appId" ∷ []) (
          S.fetch (graph <> "/servicePrincipals/" <> p)
            (field "$select" (str "displayName,appId") end) s)
      else value_of ("userPrincipalName" ∷ "mail" ∷ [])
          (S.fetch (graph <> "/users/" <> p) (field "$select" (str "userPrincipalName,mail") end) s)

  unfoldable pub resolve_fabric_principal_to_uc_principal :
      String → String → S.State → Option String
  unfolding of_object_id
  resolve_fabric_principal_to_uc_principal principal principal_type s =
      let p = strip principal in
      if is_empty p
      then none
      else if is_guid p
      then of_object_id p (lower principal_type) s
      else if has_char b'@' p
      then some p
      else resolve_display_name_to_upn p principal_type s
