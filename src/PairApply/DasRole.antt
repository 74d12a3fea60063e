-- ===== src/PairApply/DasRole.antt =====
-- The data access role that carries a constraint, app/services/pair_apply.py: its members, the role
-- and its place among the roles of the item, and the requests of `_upsert_das_constraint_role`.
pub mod Members
pub mod Place
pub mod Changes
use fabric_unified_permissio.Base.{
  ℕ, String, ◌<>◌, Bool, true, false, not, ◌||◌, List, [], ◌∷◌, Option, none, some, map,
}
use fabric_unified_permissio.Base.{◌==◌, string_eq, if◌then◌else◌, leb, eqb, ◌&&◌}
use fabric_unified_permissio.Base.Dict.{Dict, insert, values}
use fabric_unified_permissio.Base.Json.{
  Json, str, arr, obj, nil, cons, Fields, end, field, get, text_of, elements, array_of,
}
use fabric_unified_permissio.Base.Outcome.{Outcome, ok, raised}
use fabric_unified_permissio.Base.Http.{Services, put, Response, reply, failed}
use fabric_unified_permissio.Base.Text.{is_empty, lower, first}
use fabric_unified_permissio.FineGrained.Columns.{is_nil}
use fabric_unified_permissio.FineGrained.Scope.{FabricConstraintTranslation}
use fabric_unified_permissio.PairApply.Clients.{noted}
use fabric_unified_permissio.PairApply.DataRoles.{
  Verdict, verdict, Merged, refused, already, crashed, written, then_after, dar_role_matches,
  dar_members, object_of, attribute,
}
use fabric_unified_permissio.PairApply.DataRoles.Write.{Identity, status_text, dar_url}

abbrev pub read_only : List String
read_only = "Read" ∷ []

abbrev or_text : String → String → String
or_text x y = if is_empty x then y else x

-- `{"objectId": ..., "tenantId": ..., "objectType": ...}`
abbrev pub enriched : String → Json → Json
enriched tenant member = obj (
    field "objectId" (str (object_of member)) (
      field "tenantId" (str (or_text (text_of (get member "tenantId")) tenant))
        (field "objectType" (str (or_text (text_of (get member "objectType")) "User")) end)))

-- `members_by_oid[oid] = enriched`, for the members of one role.
unfoldable pub add_members : String → List Json → Dict String Json → Dict String Json
add_members tenant [] found = found
add_members tenant (m ∷ ms) found = add_members tenant ms (
    if is_empty (lower (object_of m))
    then found
    else insert (lower (object_of m)) (enriched tenant m) found)

-- `for role in current_roles`: the roles that let read the table.
unfoldable pub readers_of : String → String → List Json → Dict String Json → Dict String Json
unfolding add_members
readers_of tenant path [] found = found
readers_of tenant path (r ∷ rs) found =
    readers_of tenant path rs (
      if dar_role_matches r path read_only then add_members tenant (dar_members r) found else found)

-- `_current_entra_member`: the caller, as Graph names him.
unfoldable pub current_entra_member : String → Response → Option Json
current_entra_member tenant (failed e) = none
current_entra_member tenant (reply status text body) =
    let oid = text_of (get body "id") in
    if (leb 200 status && leb status 299) && not (is_empty oid)
    then some (
        obj (
          field "objectId" (str oid)
            (field "tenantId" (str tenant) (field "objectType" (str "User") end))))
    else none

abbrev caller_only : Option Json → List Json
caller_only none = []
caller_only (some me) = me ∷ []

abbrev pub or_caller : List Json → Option Json → List Json
or_caller [] me = caller_only me
or_caller (m ∷ ms) me = m ∷ ms

-- `_members_for_fine_grained_policy`, over what Graph says of the caller.
unfoldable pub members_for_fine_grained_policy :
    String → List Json → String → Option Json → List Json
unfolding readers_of
members_for_fine_grained_policy tenant current_roles table_path me =
    or_caller (values (readers_of tenant table_path current_roles [])) me

-- The constraints of the role: rows if there is a predicate, columns if there are any.
columns_field : String → List String → Fields
columns_field table_path [] = end
columns_field table_path (c ∷ cs) =
    field "columns"
      (arr (
        cons
          (obj (
            field "tablePath" (str table_path) (
              field "columnNames" (arr (array_of (map str (c ∷ cs)))) (
                field "columnEffect" (str "Permit")
                  (field "columnAction" (arr (cons (str "Read") nil)) end)))))
          nil))
      end

pub constraints_of : String → FabricConstraintTranslation → Fields
unfolding columns_field
constraints_of table_path t =
    if is_empty t.predicate
    then columns_field table_path t.column_names
    else field "rows"
        (arr (
          cons
            (obj (
              field "tablePath" (str table_path)
                (field "value" (str t.predicate) (field "type" (str "Fabric") end))))
            nil))
        (columns_field table_path t.column_names)

unfoldable pub constraint_role : String → String → FabricConstraintTranslation → List Json → Json
unfolding constraints_of
constraint_role role_name table_path t members = obj (
    field "name" (str role_name) (
      field "decisionRules"
        (arr (
          cons
            (obj (
              field "effect" (str "Permit") (
                field "permission"
                  (arr (
                    cons (attribute "Path" (str table_path ∷ []))
                      (cons (attribute "Action" (str "Read" ∷ [])) nil)))
                  (field "constraints" (obj (constraints_of table_path t)) end))))
            nil))
        (field "members" (obj (field "microsoftEntraMembers" (arr (array_of members)) end)) end)))

-- The role of the same name is replaced, if its rules are the ones of the new role; where there is
-- none, the new role comes last.
unfoldable pub place_role : Json → String → String → List Json → Merged
place_role new_role role_name table_path [] = written (new_role ∷ [])
place_role new_role role_name table_path (r ∷ rs) =
    let rest = then_after r (place_role new_role role_name table_path rs) in
    if lower (text_of (get r "name")) == lower role_name
    then (if not (dar_role_matches r table_path read_only)
        then refused
        else written (new_role ∷ rs))
    else rest

put_constraint : String → String → String → Response → Outcome Verdict
put_constraint role_name item_id note (reply status text body) =
    if eqb status 404 || eqb status 501
    then ok (verdict false "OneLake DAS API not available on this item")
    else if leb 300 status
    then ok (verdict false (status_text "PUT " status text))
    else ok (
        verdict true (
          "granted (Fabric DAS role '"
          <> role_name
          <> "' on item "
          <> first 8 item_id
          <> ")"
          <> noted note))
put_constraint role_name item_id note (failed e) = raised e

module _ (S : Services) (i : Identity) (workspace_id item_id role_name table_path : String)
    (translation : FabricConstraintTranslation) where
  write_placed : Merged → S.State → Outcome Verdict × S.State
  unfolding put_constraint
  write_placed (written roles) s =
      let (r, t) =
        S.send
          (record {
            method = put;
            url = dar_url workspace_id item_id;
            body = obj (field "value" (arr (array_of roles)) end);
          })
          s in
      (put_constraint role_name item_id translation.note r, t)
  write_placed _ s = (
    ok (
        verdict false (
          "existing DAS role '" <> role_name
          <> "' has different path/action rules; refusing to overwrite")),
    s,
  )

  of_members : List Json → List Json → S.State → Outcome Verdict × S.State
  unfolding write_placed
  of_members current [] s =
      (ok (verdict false "could not resolve any Entra member for Fabric DAS test policy"), s)
  of_members current (m ∷ ms) s =
      write_placed
        (place_role (constraint_role role_name table_path translation (m ∷ ms)) role_name table_path
          current)
        s

  of_roles : Response → S.State → Outcome Verdict × S.State
  unfolding of_members
  of_roles (failed e) s = (ok (verdict false ("GET error: " <> e)), s)
  of_roles (reply status text body) s =
      let current = elements (get body "value") in
      let me =
        current_entra_member i.tenant_id
          (S.fetch "https://graph.microsoft.com/v1.0/me" (field "$select" (str "id") end) s) in
      if eqb status 404 || eqb status 501
      then (ok (verdict false "OneLake DAS API not available on this item"), s)
      else if leb 300 status
      then (ok (verdict false (status_text "GET " status text)), s)
      else of_members current (members_for_fine_grained_policy i.tenant_id current table_path me) s

  -- `_upsert_das_constraint_role`
  unfoldable pub upsert_das_constraint_role : S.State → Outcome Verdict × S.State
  unfolding of_roles
  upsert_das_constraint_role s = of_roles (S.fetch (dar_url workspace_id item_id) end s) s
