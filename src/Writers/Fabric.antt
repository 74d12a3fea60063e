-- ===== src/Writers/Fabric.antt =====
-- permission-sync/src/writers/fabric_writer.py. A result is the dict that the source returns.
use fabric_unified_permissio.Base.{◌≡◌, arith, ℕ, String, ◌<>◌, true, not, ◌&&◌, ◌||◌, Option, none}
use fabric_unified_permissio.Base.{some, leb, eqb, ◌==◌, string_eq, if◌then◌else◌}
use fabric_unified_permissio.Base.Json.{Json, null, bool, num, str, arr, obj, Fields, end, field}
use fabric_unified_permissio.Base.Json.{nil, cons}
use fabric_unified_permissio.Base.Outcome.{Outcome, ok, raised}
use fabric_unified_permissio.Base.Http.{Services, Request, post, delete, Response, reply, failed}
use fabric_unified_permissio.Base.Text.{rstrip_slash, first, is_empty}
use fabric_unified_permissio.Writers.Planner.{FabricWritePlan}

pub record FabricWriter : Type 0 where
  pub api : String

-- `FabricWriter(identity, api_base)`
pub fabric_writer : String → FabricWriter
fabric_writer api_base = record { api = rstrip_slash api_base }

abbrev pub opt_json : Option String → Json
opt_json none = null
opt_json (some s) = str s

-- `plan.__dict__`
abbrev pub plan_json : FabricWritePlan → Json
plan_json q = obj (
    field "layer" (str q.layer) (
      field "workspace_id" (str q.workspace_id) (
        field "item_id" (opt_json q.item_id) (
          field "principal_entra_id" (str q.principal_entra_id) (
            field "principal_type" (str q.principal_type) (
              field "role_or_action" (str q.role_or_action)
                (field "dry_run" (bool q.dry_run) end)))))))

abbrev pub skipped : String → Fields
skipped reason = field "action" (str "skipped") (field "reason" (str reason) end)

abbrev pub error_reply : ℕ → String → Fields
error_reply status text =
    field "action" (str "error")
      (field "status" (num status) (field "body" (str (first 300 text)) end))

abbrev pub done_reply : String → ℕ → Fields
done_reply action status = field "action" (str action) (field "status" (num status) end)

abbrev role_body : FabricWritePlan → Json
role_body q = obj (
    field "principal"
      (obj (field "id" (str q.principal_entra_id) (field "type" (str q.principal_type) end)))
      (field "role" (str q.role_or_action) end))

abbrev pub assignments_url : FabricWriter → FabricWritePlan → String
assignments_url w q = w.api <> "/workspaces/" <> q.workspace_id <> "/roleAssignments"

abbrev dar_body : FabricWritePlan → Json
dar_body q = obj (
    field "name" (str ("PermSync-" <> first 8 q.principal_entra_id)) (
      field "members"
        (obj (
          field "entraMembers"
            (arr (
              cons
                (obj (
                  field "objectId" (str q.principal_entra_id)
                    (field "objectType" (str q.principal_type) end)))
                nil))
            end))
        (field "decisionRules"
          (arr (
            cons
              (obj (
                field "effect" (str "Permit") (
                  field "permission"
                    (arr (
                      cons
                        (obj (
                          field "attributeName" (str "Action") (
                            field "attributeValueIncludedIn" (arr (cons (str q.role_or_action) nil))
                              end)))
                        nil))
                    end)))
              nil))
          end)))

-- What a writer makes of the answer to a write.
abbrev role_result : Response → Outcome Fields
role_result (reply status text body) =
    if leb 400 status then ok (error_reply status text) else ok (done_reply "granted" status)
role_result (failed e) = raised e

abbrev pub revoke_result : Response → Outcome Fields
revoke_result (reply status text body) =
    if leb 400 status && not (eqb status 404 || eqb status 204)
    then ok (error_reply status text)
    else ok (done_reply "revoked" status)
revoke_result (failed e) = raised e

abbrev dar_result : Response → Outcome Fields
dar_result (reply status text body) =
    if eqb status 404 || eqb status 501
    then ok (skipped "preview API unavailable")
    else if leb 400 status
    then ok (error_reply status text)
    else ok (
        field "action" (str "granted")
          (field "status" (num status) (field "layer" (str "onelake") end)))
dar_result (failed e) = ok (field "action" (str "error") (field "exception" (str e) end))

module _ (S : Services) where
  pub write_workspace_role : FabricWriter → FabricWritePlan → S.State → Outcome Fields × S.State
  write_workspace_role w q s =
      let (r, t) =
        S.send (record { method = post; url = assignments_url w q; body = role_body q }) s in
      (role_result r, t)

  abbrev pub revocation : FabricWriter → FabricWritePlan → Request
  revocation w q = record {
    method = delete;
    url = assignments_url w q <> "/" <> q.principal_entra_id;
    body = null;
  }

  unfoldable pub revoke_workspace_role :
      FabricWriter → FabricWritePlan → S.State → Outcome Fields × S.State
  revoke_workspace_role w q s = let (r, t) = S.send (revocation w q) s in (revoke_result r, t)

  dar_request : FabricWriter → FabricWritePlan → String → Request
  dar_request w q item = record {
    method = post;
    url =
        w.api <> "/workspaces/" <> q.workspace_id <> "/items/" <> item
        <> "/dataAccessRoles?conflictResolution=Overwrite";
    body = dar_body q;
  }

  -- `if not plan.item_id`
  pub write_onelake_data_access_role :
      FabricWriter → FabricWritePlan → Option String → S.State → Outcome Fields × S.State
  unfolding dar_request
  write_onelake_data_access_role w q none s = (ok (skipped "no item_id for OneLake DAR"), s)
  write_onelake_data_access_role w q (some item) s =
      let (r, t) = S.send (dar_request w q item) s in
      if is_empty item then (ok (skipped "no item_id for OneLake DAR"), s) else (dar_result r, t)

  unfoldable pub write : FabricWriter → FabricWritePlan → S.State → Outcome Fields × S.State
  write w q s =
      if q.layer == "skip"
      then (ok (skipped "no layer mapping"), s)
      else if q.dry_run
      then (ok (field "action" (str "dry_run_would_apply") (field "plan" (plan_json q) end)), s)
      else if q.layer == "workspace_role"
      then write_workspace_role w q s
      else if q.layer == "onelake_data_access_role"
      then write_onelake_data_access_role w q q.item_id s
      else (ok (skipped ("unknown layer " <> q.layer)), s)

  -- A dry run of a write sends nothing, and reports a skip or what it would apply.
  pub write_dry :
      (w : FabricWriter) (q : FabricWritePlan) (s : S.State)
      → q.dry_run ≡ true
      → (write w q s).1 ≡ s
  unfolding write
  write_dry w q s h = ground arith
