-- ===== src/Writers/UnityCatalog.antt =====
-- permission-sync/src/writers/unity_catalog_writer.py
use fabric_unified_permissio.Base.{String, ◌<>◌, Bool, leb, if◌then◌else◌}
use fabric_unified_permissio.Base.Json.{num, str, arr, obj, Fields, end, field, nil, cons}
use fabric_unified_permissio.Base.Outcome.{Outcome, ok}
use fabric_unified_permissio.Base.Http.{Services, Request, patch, Response, reply, failed}
use fabric_unified_permissio.Base.Text.{rstrip_slash}
use fabric_unified_permissio.Canonical.{CanonicalPermission}

abbrev change_key : Bool → String
change_key add = if add then "add" else "remove"

abbrev update_request : String → CanonicalPermission → String → Bool → Request
update_request workspace_url p target_privilege add = record {
  method = patch;
  url =
      rstrip_slash workspace_url
      <> "/api/2.1/unity-catalog/permissions/"
      <> p.securable_type
      <> "/"
      <> p.securable_fqn;
  body = obj (
      field "changes"
        (arr (
          cons
            (obj (
              field "principal" (str p.principal_entra_id)
                (field (change_key add) (arr (cons (str target_privilege) nil)) end)))
            nil))
        end);
}

abbrev update_result : Bool → Response → Fields
update_result add (reply status text body) =
    if leb 400 status
    then field "action" (str "error") (field "status" (num status) end)
    else field "action" (str (if add then "granted" else "revoked"))
        (field "status" (num status) end)
update_result add (failed e) = field "action" (str "error") (field "exception" (str e) end)

module _ (S : Services) where
  -- `_update`; `grant` calls it with `add`, `revoke` without. Transport errors are caught.
  pub update_uc : String → CanonicalPermission → String → Bool → S.State → Outcome Fields × S.State
  update_uc workspace_url p target_privilege add s =
      let (r, t) = S.send (update_request workspace_url p target_privilege add) s in
      (ok (update_result add r), t)
