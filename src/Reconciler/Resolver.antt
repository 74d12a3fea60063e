-- ===== src/Reconciler/Resolver.antt =====
-- permission-sync/src/reconciler/conflict_resolver.py
use fabric_unified_permissio.Base.{String, ◌<>◌, Option, none, some, List, [], ◌∷◌, ◌++◌}
use fabric_unified_permissio.Base.{◌==◌, string_eq, if◌then◌else◌}
use fabric_unified_permissio.Base.Dict.{Dict, insert}
use fabric_unified_permissio.Base.Json.{str, obj, Fields, end, field}
use fabric_unified_permissio.Base.Http.{Services, Request, put, post}
use fabric_unified_permissio.Base.Text.{rstrip_slash, is_empty}
use fabric_unified_permissio.Canonical.{CanonicalPermission}
use fabric_unified_permissio.Reconciler.Diff.{PermissionConflict, Draws}

pub record ConflictResolver : Type 0 where
  pub strategy : String
  pub audit_url : String
  pub teams_webhook : String

-- The record that is written for a conflict left to a person.
abbrev conflict_record : Draws → PermissionConflict → Fields
conflict_record e c = field "conflict_id" (str c.conflict_id) (
    field "principal_entra_id" (str c.principal_entra_id) (
      field "securable_fqn" (str c.securable_fqn) (
        field "securable_type" (str c.securable_type) (
          field "source_access_class" (str c.source_access_class) (
            field "target_access_class" (str c.target_access_class) (
              field "source_platform" (str c.source_platform) (
                field "target_platform" (str c.target_platform)
                  (field "detected_at" (str (e.isoformat c.detected_at)) end))))))))

abbrev conflict_name : PermissionConflict → String
conflict_name c = "conflicts_" <> c.conflict_id <> ".json"

abbrev teams_text : PermissionConflict → String
teams_text c =
    "Permission conflict detected: principal=" <> c.principal_entra_id <> " securable="
    <> c.securable_fqn <> " source=" <> c.source_access_class <> "/" <> c.source_platform
    <> " target=" <> c.target_access_class <> "/" <> c.target_platform

unfoldable pub add_winner :
    Option CanonicalPermission → List CanonicalPermission → List CanonicalPermission
add_winner none out = out
add_winner (some p) out = out ++ (p ∷ [])

module _ (S : Services) where
  -- The files under `logs`, and the services.
  pub record Desk : Type 0 where
    pub logs : Dict String Fields
    pub services : S.State

  -- A failed upload is logged and otherwise ignored.
  pub write_manual : Draws → ConflictResolver → PermissionConflict → Desk → Desk
  write_manual e r c d =
      let rec = conflict_record e c in
      let logs = insert (conflict_name c) rec d.logs in
      let upload : Request = record {
        method = put;
        url = rstrip_slash r.audit_url <> "/" <> conflict_name c;
        body = obj rec;
      } in
      record {
        logs = logs;
        services = if is_empty r.audit_url then d.services else (S.send upload d.services).1;
      }

  pub notify_teams : ConflictResolver → PermissionConflict → Desk → Desk
  notify_teams r c d =
      let message : Request = record {
        method = post;
        url = r.teams_webhook;
        body = obj (field "text" (str (teams_text c)) end);
      } in
      if is_empty r.teams_webhook then d else record d { services = (S.send message d.services).1 }

  unfoldable pub resolve :
      Draws → ConflictResolver → PermissionConflict → Desk → Option CanonicalPermission × Desk
  resolve e r c d =
      if r.strategy == "source_wins"
      then (some c.source_permission, d)
      else if r.strategy == "target_wins"
      then (some c.target_permission, d)
      else if r.strategy == "manual"
      then (none, notify_teams r c (write_manual e r c d))
      else (some c.source_permission, d)

  -- The loop of `resolve_all` over what is left, with the winners so far.
  unfoldable pub resolve_all :
      Draws
      → ConflictResolver
      → List PermissionConflict
      → List CanonicalPermission
      → Desk
      → List CanonicalPermission × Desk
  unfolding add_winner
  resolve_all e r [] out d = (out, d)
  resolve_all e r (c ∷ cs) out d =
      let (w, d') = resolve e r c d in resolve_all e r cs (add_winner w out) d'
