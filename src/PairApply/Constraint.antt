-- ===== src/PairApply/Constraint.antt =====
-- The rows of `apply_rows` in app/services/pair_apply.py that carry a row or column constraint.
pub mod Laws
use fabric_unified_permissio.Base.{
  ℕ, String, ◌<>◌, Bool, true, false, not, ◌&&◌, ◌||◌, List, [], ◌∷◌, ◌++◌,
}
use fabric_unified_permissio.Base.{Option, none, some, ◌==◌, string_eq, if◌then◌else◌, length}
use fabric_unified_permissio.Base.Json.{Json, text_of, get_field}
use fabric_unified_permissio.Base.Outcome.{Outcome, ok, raised}
use fabric_unified_permissio.Base.Http.{Services}
use fabric_unified_permissio.Base.Text.{is_empty, decimal}
use fabric_unified_permissio.PairApply.Layers.{ApplyAction}
use fabric_unified_permissio.PairApply.Graph.{find_mirrored_catalog_item}
use fabric_unified_permissio.PairDiff.{DiffRow}
use fabric_unified_permissio.PairApply.Clients.{
  Pairing, Tried, Translation, Clients, action_of, Hub, Step, adds, of_tried, shown, noted, refusal,
}

module _ (S : Services) (C : Clients S) where
  abbrev pub fabric_action : DiffRow → Bool → Bool → String → ApplyAction
  fabric_action row =
      action_of "dbx_to_fabric" row ("apply Fabric DAS " <> row.constraint_kind) row.constraint_kind

  abbrev pub uc_action : DiffRow → Bool → Bool → String → ApplyAction
  uc_action row =
      action_of "fabric_to_dbx" row ("apply UC " <> row.constraint_kind) row.constraint_kind

  abbrev pub would_constrain : DiffRow → Translation → String
  would_constrain row t =
      "dry-run (would apply Fabric DAS "
      <> row.constraint_kind
      <> " on "
      <> t.table_path
      <> ")"
      <> noted t.note

  abbrev pub would_execute : List String → String
  would_execute statements =
      "dry-run (would apply UC fine-grained policy with "
      <> decimal (length statements)
      <> " SQL statements)"

  abbrev pub as_tried : (Bool → Bool → String → ApplyAction) → Tried → ApplyAction
  as_tried act t = act t.ok t.skipped t.message

  -- A constraint for Fabric, by the item that mirrors the catalog.
  constrain_item : Pairing → DiffRow → Bool → Option String → Hub S → Step S
  constrain_item p row dry_run none h = adds S (fabric_action row true true refusal) h
  constrain_item p row dry_run (some item_id) h =
      if is_empty item_id
      then adds S (fabric_action row true true refusal) h
      else if dry_run
      then shown S (fabric_action row true) (would_constrain row)
          (C.constraint_translation p row h.services) h
      else of_tried S (as_tried (fabric_action row)) h.queue
          (C.grant_fabric_constraint p row item_id h.services)

  constraint_to_fabric : Pairing → DiffRow → Bool → Outcome (List Json) → Hub S → Step S
  unfolding constrain_item
  constraint_to_fabric p row dry_run (raised e) h =
      adds S
        (action_of "dbx_to_fabric" row
          ("review fine-grained security policy " <> row.constraint_kind) row.constraint_kind false
          false ("failed to verify Fabric mirrored catalog item: " <> e))
        h
  constraint_to_fabric p row dry_run (ok items) h =
      constrain_item p row dry_run (find_mirrored_catalog_item items p.uc_catalog) h

  constraint_to_dbx : Pairing → DiffRow → Bool → Hub S → Step S
  constraint_to_dbx p row dry_run h =
      if dry_run
      then shown S (uc_action row true) would_execute (C.constraint_uc_sql p row h.services) h
      else of_tried S (as_tried (uc_action row)) h.queue (C.grant_uc_constraint p row h.services)

  -- `direction == d and constraint_kind in {"row_filter", "column_mask"}`
  abbrev pub goes : String → String → DiffRow → Bool
  goes d direction row =
      direction == d
      && (row.constraint_kind == "row_filter" || row.constraint_kind == "column_mask")

  -- `if constraint_kind:`
  pub apply_constraint : Pairing → String → DiffRow → Bool → Hub S → Step S
  unfolding constraint_to_fabric constraint_to_dbx
  apply_constraint p direction row dry_run h =
      let target = "review fine-grained security policy " <> row.constraint_kind in
      if text_of (get_field "source" row.constraint_details) == "databricks_abac"
      then adds S
          (action_of direction row target row.constraint_kind true true
            "skipped: Databricks ABAC tag-driven policy has no Fabric OneLake equivalent; review-only, not applied")
          h
      else if goes "dbx_to_fabric" direction row
      then constraint_to_fabric p row dry_run (C.list_items p.fabric_workspace_id h.services) h
      else if goes "fabric_to_dbx" direction row
      then constraint_to_dbx p row dry_run h
      else adds S
          (action_of direction row target row.constraint_kind true true
            "skipped: this row/column policy could not be translated safely for automatic apply")
          h
