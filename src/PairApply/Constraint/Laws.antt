-- ===== src/PairApply/Constraint/Laws.antt =====
-- A row with a constraint adds one action, and its dry run changes nothing
-- (app/services/pair_apply.py).
use fabric_unified_permissio.Base.{String, Bool, true, refl, List, Option, none, some, if_rule}
use fabric_unified_permissio.Base.{◌==◌, string_eq}
use fabric_unified_permissio.Base.Json.{Json, text_of, get_field}
use fabric_unified_permissio.Base.Text.{is_empty}
use fabric_unified_permissio.Base.Outcome.{Outcome, ok, raised}
use fabric_unified_permissio.Base.Http.{Services}
use fabric_unified_permissio.PairApply.Clients.{Pairing, Clients, Hub}
use fabric_unified_permissio.PairApply.Clients.Laws.{
  One, Still, of_tried-One, shown-One, shown-Still,
}
use fabric_unified_permissio.PairApply.Constraint.{
  goes, constrain_item, fabric_action, uc_action, would_constrain, would_execute, as_tried,
  constraint_to_fabric, constraint_to_dbx, apply_constraint,
}
use fabric_unified_permissio.PairDiff.{DiffRow}

module _ (S : Services) (C : Clients S) (p : Pairing) (row : DiffRow) where
  constrain_item-One :
      (dry_run : Bool) (o : Option String) (h : Hub S)
      → One S (constrain_item S C p row dry_run o h)
  unfolding constrain_item
  constrain_item-One dry_run none h = refl
  constrain_item-One dry_run (some item_id) h = if_rule (One S) (is_empty item_id) refl (
      if_rule (One S) dry_run
        (shown-One S (fabric_action S C row true) (would_constrain S C row)
          (C.constraint_translation p row h.services) h)
        (of_tried-One S (as_tried S C (fabric_action S C row)) h.queue
          (C.grant_fabric_constraint p row item_id h.services)))

  constrain_item-Still :
      (o : Option String) (h : Hub S) → Still S h (constrain_item S C p row true o h)
  unfolding constrain_item
  constrain_item-Still none h = refl
  constrain_item-Still (some item_id) h = if_rule (Still S h) (is_empty item_id) refl (
      shown-Still S (fabric_action S C row true) (would_constrain S C row)
        (C.constraint_translation p row h.services) h)

  to_fabric-One :
      (dry_run : Bool) (items : Outcome (List Json)) (h : Hub S)
      → One S (constraint_to_fabric S C p row dry_run items h)
  unfolding constraint_to_fabric
  to_fabric-One dry_run (raised e) h = refl
  to_fabric-One dry_run (ok items) h = constrain_item-One dry_run _ h

  to_fabric-Still :
      (items : Outcome (List Json)) (h : Hub S)
      → Still S h (constraint_to_fabric S C p row true items h)
  unfolding constraint_to_fabric
  to_fabric-Still (raised e) h = refl
  to_fabric-Still (ok items) h = constrain_item-Still _ h

  to_dbx-One : (dry_run : Bool) (h : Hub S) → One S (constraint_to_dbx S C p row dry_run h)
  unfolding constraint_to_dbx
  to_dbx-One dry_run h =
      if_rule (One S) dry_run
        (shown-One S (uc_action S C row true) (would_execute S C)
          (C.constraint_uc_sql p row h.services) h)
        (of_tried-One S (as_tried S C (uc_action S C row)) h.queue
          (C.grant_uc_constraint p row h.services))

  to_dbx-Still : (h : Hub S) → Still S h (constraint_to_dbx S C p row true h)
  unfolding constraint_to_dbx
  to_dbx-Still h =
      shown-Still S (uc_action S C row true) (would_execute S C)
        (C.constraint_uc_sql p row h.services) h

  module _ (direction : String) where
    pub apply_constraint-One :
        (dry_run : Bool) (h : Hub S) → One S (apply_constraint S C p direction row dry_run h)
    unfolding apply_constraint
    apply_constraint-One dry_run h =
        if_rule (One S) (text_of (get_field "source" row.constraint_details) == "databricks_abac")
          refl
          (if_rule (One S) (goes S C "dbx_to_fabric" direction row)
            (to_fabric-One dry_run (C.list_items p.fabric_workspace_id h.services) h)
            (if_rule (One S) (goes S C "fabric_to_dbx" direction row) (to_dbx-One dry_run h) refl))

    pub apply_constraint-Still :
        (h : Hub S) → Still S h (apply_constraint S C p direction row true h)
    unfolding apply_constraint
    apply_constraint-Still h =
        if_rule (Still S h)
          (text_of (get_field "source" row.constraint_details) == "databricks_abac") refl
          (if_rule (Still S h) (goes S C "dbx_to_fabric" direction row)
            (to_fabric-Still (C.list_items p.fabric_workspace_id h.services) h)
            (if_rule (Still S h) (goes S C "fabric_to_dbx" direction row) (to_dbx-Still h) refl))
