-- ===== src/PairApply/ToFabric.antt =====
-- The rows of `apply_rows` in app/services/pair_apply.py that go to Fabric.
pub mod Laws
use fabric_unified_permissio.Base.{
  ℕ, String, ◌<>◌, Bool, true, false, not, ◌&&◌, ◌||◌, List, [], ◌∷◌, ◌++◌,
}
use fabric_unified_permissio.Base.{Option, none, some, ◌==◌, string_eq, if◌then◌else◌}
use fabric_unified_permissio.Base.Dict.{lookup}
use fabric_unified_permissio.Base.Json.{Json}
use fabric_unified_permissio.Base.Outcome.{Outcome, ok, raised}
use fabric_unified_permissio.Base.Http.{Services}
use fabric_unified_permissio.Base.Text.{is_empty, first}
use fabric_unified_permissio.PairApply.Layers.{ApplyAction, plan_fabric_layer}
use fabric_unified_permissio.PairApply.Layers.{is_dbx_internal_principal}
use fabric_unified_permissio.PairApply.Layers.{access_to_fabric_role}
use fabric_unified_permissio.PairApply.Graph.{Resolved, resolve_entra, find_mirrored_catalog_item}
use fabric_unified_permissio.PairApply.DataRoles.{Verdict}
use fabric_unified_permissio.PairApply.DataRoles.Write.{
  Identity, grant_onelake_dar, grant_fabric_workspace_role,
}
use fabric_unified_permissio.PairDiff.{DiffRow}
use fabric_unified_permissio.IdentityQueue.{enqueue}
use fabric_unified_permissio.PairApply.Clients.{
  Pairing, Clients, action_of, Hub, Step, adds, of_verdict, refusal,
}

module _ (S : Services) (i : Identity) (C : Clients S) (now : ℕ) where
  -- `_queue_unmapped` and the action of a principal that Entra does not know.
  unmapped : Pairing → DiffRow → String → (Bool → Bool → String → ApplyAction) → Hub S → Step S
  unmapped p row reason act h =
      adds S (act true true ("skipped: '" <> row.principal_display <> "' not found in Entra"))
        (record h {
          queue =
              enqueue now
                (record {
                  pairing_id = p.id;
                  principal = row.principal_display;
                  principal_type = row.principal_type;
                  source_platform = "unity_catalog";
                  reason = reason;
                })
                h.queue;
        })

  -- A write to Fabric for the principal that Entra resolves.
  for_resolved :
      Pairing
      → DiffRow
      → String
      → (Bool → Bool → String → ApplyAction)
      → (Resolved → S.State → Outcome Verdict × S.State)
      → Option Resolved
      → Hub S
      → Step S
  unfolding unmapped
  for_resolved p row reason act write none h = unmapped p row reason act h
  for_resolved p row reason act write (some r) h =
      of_verdict S (λ v. act v.ok false v.message) h.queue (write r h.services)

  -- The dry run and the run of a write to Fabric, for a principal that may be internal.
  to_principal :
      Pairing
      → DiffRow
      → Bool
      → String
      → (Bool → Bool → String → ApplyAction)
      → (Resolved → S.State → Outcome Verdict × S.State)
      → Hub S
      → Step S
  unfolding for_resolved
  to_principal p row dry_run reason act write h =
      let internal = is_dbx_internal_principal row.principal_display in
      if dry_run
      then if internal
        then adds S (act true true "would skip (DBX-internal principal, no Entra mapping)") h
        else adds S (act true false "dry-run (would apply)") h
      else if internal
      then adds S (act true true "skipped: DBX-internal principal (no Entra mapping)") h
      else for_resolved p row reason act write (resolve_entra S row.principal_display h.services) h

  abbrev pub role_action : Pairing → DiffRow → String → Bool → Bool → String → ApplyAction
  role_action p row role =
      action_of "dbx_to_fabric" row ("GRANT " <> role <> " on workspace " <> p.fabric_workspace_id)
        "workspace_role"

  abbrev pub write_role : Pairing → String → Resolved → S.State → Outcome Verdict × S.State
  write_role p role r s =
      grant_fabric_workspace_role S i p.fabric_workspace_id r.object_id r.principal_type role s

  -- `if layer == "workspace_role":`
  with_role : Pairing → DiffRow → Bool → Option String → Hub S → Step S
  unfolding to_principal
  with_role p row dry_run none h =
      adds S
        (action_of "dbx_to_fabric" row ("no mapping for " <> row.access_class) "workspace_role"
          false false "no fabric mapping")
        h
  with_role p row dry_run (some role) h =
      to_principal p row dry_run "not found in Entra during workspace-role apply"
        (role_action p row role) (write_role p role) h

  pub apply_workspace_role : Pairing → DiffRow → Bool → Hub S → Step S
  unfolding with_role
  apply_workspace_role p row dry_run h =
      if row.access_class == "OBJECT_USE"
      then adds S
          (action_of "dbx_to_fabric" row "traverse-only privilege, no Fabric workspace role"
            "workspace_role" true true
            "skipped: USE_CATALOG/USE_SCHEMA grants no data access on its own; granting a Fabric role would widen access")
          h
      else with_role p row dry_run (lookup row.access_class access_to_fabric_role) h

  abbrev pub dar_action : DiffRow → String → Bool → Bool → String → ApplyAction
  dar_action row item_id =
      action_of "dbx_to_fabric" row
        ("GRANT OneLake DAR ("
          <> row.access_class
          <> ") on item "
          <> first 8 item_id
          <> " scope "
          <> row.securable_scope)
        "onelake_dar"

  abbrev pub write_dar : Pairing → DiffRow → String → Resolved → S.State → Outcome Verdict × S.State
  write_dar p row item_id r s =
      grant_onelake_dar S i p.fabric_workspace_id item_id r.object_id r.principal_type
        row.access_class row.securable_scope s

  -- `else:  # onelake_dar`, once the item is known.
  on_item : Pairing → DiffRow → Bool → String → Hub S → Step S
  unfolding to_principal
  on_item p row dry_run item_id h =
      if not (row.access_class == "DATA_READ")
      then adds S
          (dar_action row item_id true true
            "skipped: mirrored Databricks catalog DAR is read-only; write/admin access cannot be represented safely")
          h
      else to_principal p row dry_run "not found in Entra during OneLake DAR apply"
          (dar_action row item_id) (write_dar p row item_id) h

  no_item : Pairing → DiffRow → Hub S → Step S
  no_item p row h =
      adds S
        (action_of "dbx_to_fabric" row ("no exact mirrored catalog item for " <> p.uc_catalog)
          "onelake_dar" true true refusal)
        h

  at_item : Pairing → DiffRow → Bool → Option String → Hub S → Step S
  unfolding on_item no_item
  at_item p row dry_run none h = no_item p row h
  at_item p row dry_run (some item_id) h =
      if is_empty item_id then no_item p row h else on_item p row dry_run item_id h

  unfoldable pub apply_onelake_dar : Pairing → DiffRow → Bool → Outcome (List Json) → Hub S → Step S
  unfolding at_item
  apply_onelake_dar p row dry_run (raised e) h =
      adds S
        (action_of "dbx_to_fabric" row ("verify exact mirrored catalog item for " <> p.uc_catalog)
          "onelake_dar" false false ("failed to verify Fabric mirrored catalog item: " <> e))
        h
  apply_onelake_dar p row dry_run (ok items) h =
      at_item p row dry_run (find_mirrored_catalog_item items p.uc_catalog) h

  abbrev pub layer_of : DiffRow → String
  layer_of row = plan_fabric_layer row.securable_scope row.access_class

  unfoldable pub apply_to_fabric : Pairing → DiffRow → Bool → Hub S → Step S
  unfolding apply_onelake_dar apply_workspace_role
  apply_to_fabric p row dry_run h =
      if layer_of row == "onelake_dar"
      then apply_onelake_dar p row dry_run (C.list_items p.fabric_workspace_id h.services) h
      else if layer_of row == "unsupported_schema"
      then adds S
          (action_of "dbx_to_fabric" row "unsupported schema-scope DBX to Fabric grant"
            (layer_of row) true true
            "skipped: no safe Fabric equivalent for DBX schema-scope grants")
          h
      else apply_workspace_role p row dry_run h
