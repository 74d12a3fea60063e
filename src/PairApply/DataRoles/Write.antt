-- ===== src/PairApply/DataRoles/Write.antt =====
-- The requests of `_grant_onelake_dar` and `_grant_fabric_workspace_role` in
-- app/services/pair_apply.py.
use fabric_unified_permissio.Base.{ℕ, String, ◌<>◌, true, false, ◌||◌, List, ◌∷◌}
use fabric_unified_permissio.Base.{Option, none, some, ◌==◌, string_eq, if◌then◌else◌, leb, eqb}
use fabric_unified_permissio.Base.{any_of}
use fabric_unified_permissio.Base.Dict.{lookup}
use fabric_unified_permissio.Base.Json.{Json, str, arr, obj, end, field, get}
use fabric_unified_permissio.Base.Json.{elements, array_of}
use fabric_unified_permissio.Base.Outcome.{Outcome, ok, raised}
use fabric_unified_permissio.Base.Http.{Services, post, put, Response, reply, failed}
use fabric_unified_permissio.Base.Text.{
  is_empty, lower, first, decimal, has_text, starts_with, after, split, join, keep_chars,
}
use fabric_unified_permissio.Base.Text.{replace_char, is_upper, is_lower, is_digit}
use fabric_unified_permissio.PairApply.Layers.{access_to_dar_actions}
use fabric_unified_permissio.PairApply.DataRoles.{
  Verdict, verdict, Merged, refused, already, crashed, written,
}
use fabric_unified_permissio.PairApply.DataRoles.{role_of, merge_roles}

-- `sha256(text).hexdigest()` and the tenant that the token names.
pub record Identity : Type 0 where
  pub sha256 : String → String
  pub tenant_id : String

third_path : List String → String
third_path (p ∷ q ∷ r ∷ ps) = "/Tables/" <> q <> "/" <> r
third_path _ = "*"

pub dar_path : String → String
unfolding third_path
dar_path scope =
    if starts_with "table:" scope then third_path (split b'.' (after b':' scope)) else "*"

-- `actions` has one element wherever this is reached, so that it is sorted.
pub dar_role_name : Identity → String → String → List String → String
dar_role_name i access path actions =
    let role_hash = first 10 (i.sha256 (access <> "|" <> path <> "|" <> join "," actions)) in
    let raw = "hub" <> lower access <> replace_char b'*' "all" (replace_char b'/' "" path) in
    let prefix = first 48 (keep_chars (λ c. is_upper c || is_lower c || is_digit c) raw) in
    first 60 ((if is_empty prefix then "hubrole" else prefix) <> role_hash)

abbrev pub dar_url : String → String → String
dar_url workspace_id item_id =
    "https://api.fabric.microsoft.com/v1/workspaces/" <> workspace_id <> "/items/" <> item_id
    <> "/dataAccessRoles"

abbrev pub status_text : String → ℕ → String → String
status_text verb status text = verb <> decimal status <> " " <> first 200 text

put_verdict : String → String → Response → Outcome Verdict
put_verdict role_name item_id (reply status text body) =
    if eqb status 404 || eqb status 501
    then ok (verdict false "OneLake DAR API not available on this item")
    else if leb 300 status
    then ok (verdict false (status_text "PUT " status text))
    else ok (
        verdict true
          ("granted (OneLake DAR role '" <> role_name <> "' on item " <> first 8 item_id <> ")"))
put_verdict role_name item_id (failed e) = raised e

module _ (S : Services) (i : Identity) where
  write_merged : String → String → String → Merged → S.State → Outcome Verdict × S.State
  unfolding put_verdict
  write_merged workspace_id item_id role_name refused s = (
    ok (
        verdict false (
          "existing DAR role '" <> role_name
          <> "' has different path/action rules; refusing to merge members")),
    s,
  )
  write_merged workspace_id item_id role_name already s =
      (ok (verdict true "already granted (idempotent)"), s)
  write_merged workspace_id item_id role_name crashed s = (raised "TypeError", s)
  write_merged workspace_id item_id role_name (written roles) s =
      let (r, t) =
        S.send
          (record {
            method = put;
            url = dar_url workspace_id item_id;
            body = obj (field "value" (arr (array_of roles)) end);
          })
          s in
      (put_verdict role_name item_id r, t)

  after_get :
      String
      → String
      → String
      → Json
      → String
      → List String
      → Response
      → S.State
      → Outcome Verdict × S.State
  unfolding write_merged
  after_get workspace_id item_id role_name member path actions (failed e) s =
      (ok (verdict false ("GET error: " <> e)), s)
  after_get workspace_id item_id role_name member path actions (reply status text body) s =
      let merged =
        merge_roles (role_of role_name path actions member) member role_name path actions
          (elements (get body "value")) in
      if eqb status 404 || eqb status 501
      then (ok (verdict false "OneLake DAR API not available on this item"), s)
      else if leb 300 status
      then (ok (verdict false (status_text "GET " status text)), s)
      else write_merged workspace_id item_id role_name merged s

  abbrev or_user : String → String
  or_user t = if is_empty t then "User" else t

  abbrev pub dar_member : String → String → Json
  dar_member oid ptype = obj (
      field "objectId" (str oid)
        (field "tenantId" (str i.tenant_id) (field "objectType" (str (or_user ptype)) end)))

  with_actions :
      String
      → String
      → String
      → String
      → String
      → String
      → Option (List String)
      → S.State
      → Outcome Verdict × S.State
  unfolding after_get
  with_actions workspace_id item_id oid ptype access scope none s =
      (ok (verdict false ("no DAR mapping for " <> access)), s)
  with_actions workspace_id item_id oid ptype access scope (some actions) s =
      let path = dar_path scope in
      if any_of (λ a. a == "Write" || a == "Reshare") actions
      then (
        ok (
            verdict false
              "Write/Admin not supported on mirrored catalog DAR (read-only mirror); no permission was applied"),
        s,
      )
      else if starts_with "schema:" scope
      then (
        ok (verdict false "schema-scope not supported by OneLake DAR; route to workspace role"),
        s,
      )
      else after_get workspace_id item_id (dar_role_name i access path actions)
          (dar_member oid ptype) path actions (S.fetch (dar_url workspace_id item_id) end s) s

  -- `_grant_onelake_dar`
  pub grant_onelake_dar :
      String → String → String → String → String → String → S.State → Outcome Verdict × S.State
  unfolding with_actions
  grant_onelake_dar workspace_id item_id oid ptype access scope s =
      with_actions workspace_id item_id oid ptype access scope (lookup access access_to_dar_actions)
        s

  role_verdict : Response → Outcome Verdict
  role_verdict (reply status text body) =
      if eqb status 409 || has_text "PrincipalAlreadyHasWorkspaceRolePermissions" text
      then ok (verdict true "already granted (idempotent)")
      else if leb 300 status
      then ok (verdict false (status_text "" status text))
      else ok (verdict true "granted (workspace role)")
  role_verdict (failed e) = raised e

  -- `_grant_fabric_workspace_role`
  pub grant_fabric_workspace_role :
      String → String → String → String → S.State → Outcome Verdict × S.State
  unfolding role_verdict
  grant_fabric_workspace_role workspace_id principal_id principal_type role s =
      let (r, t) =
        S.send
          (record {
            method = post;
            url =
                "https://api.fabric.microsoft.com/v1/workspaces/" <> workspace_id
                <> "/roleAssignments";
            body = obj (
                field "principal"
                  (obj (
                    field "id" (str principal_id)
                      (field "type" (str (or_user principal_type)) end)))
                  (field "role" (str role) end));
          })
          s in
      (role_verdict r, t)
