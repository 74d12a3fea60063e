-- ===== src/PairApply/ToFabric/Laws.antt =====
-- A row that goes to Fabric adds one action, and some rows change nothing
-- (app/services/pair_apply.py).
use fabric_unified_permissio.Base.{
  ℕ, String, Bool, true, false, not, ◌≡◌, ◌≢◌, refl, List, Option, none, some, if_rule, Bool-cases,
  inl, inr,
}
use fabric_unified_permissio.Base.{
  ◌==◌, string_eq, is_some, arith, ==_ne, text_ne, if◌then◌else◌, if_true, if_false, ap, sym, subst,
  ==_refl,
}
use fabric_unified_permissio.Base.Dict.{lookup}
use fabric_unified_permissio.Base.Json.{Json}
use fabric_unified_permissio.Base.Text.{is_empty, starts_with}
use fabric_unified_permissio.Base.Outcome.{Outcome, ok, raised}
use fabric_unified_permissio.Base.Http.{Services}
use fabric_unified_permissio.PairApply.Layers.{
  ApplyAction, plan_fabric_layer, access_to_fabric_role, is_dbx_internal_principal,
  access_to_dar_actions,
}
use fabric_unified_permissio.PairApply.Graph.{Resolved, resolve_entra}
use fabric_unified_permissio.PairApply.DataRoles.{Verdict}
use fabric_unified_permissio.PairApply.DataRoles.Write.{Identity}
use fabric_unified_permissio.PairApply.Clients.{Pairing, Clients, Hub}
use fabric_unified_permissio.PairApply.Clients.Laws.{One, Still, of_verdict-One}
use fabric_unified_permissio.PairApply.ToFabric.{
  for_resolved, to_principal, with_role, apply_workspace_role,
}
use fabric_unified_permissio.PairApply.ToFabric.{
  layer_of, role_action, write_role, dar_action, write_dar, at_item, apply_onelake_dar,
  apply_to_fabric,
}
use fabric_unified_permissio.PairDiff.{DiffRow}

module _ (S : Services) (i : Identity) (C : Clients S) (now : ℕ) (p : Pairing) (row : DiffRow) where
  module _ (reason : String) (act : Bool → Bool → String → ApplyAction)
      (write : Resolved → S.State → Outcome Verdict × S.State) where
    for_resolved-One :
        (r : Option Resolved) (h : Hub S)
        → One S (for_resolved S i C now p row reason act write r h)
    unfolding for_resolved
    for_resolved-One none h = refl
    for_resolved-One (some r) h = of_verdict-One S _ h.queue (write r h.services)

    to_principal-One :
        (dry_run : Bool) (h : Hub S)
        → One S (to_principal S i C now p row dry_run reason act write h)
    unfolding to_principal
    to_principal-One dry_run h =
        if_rule (One S) dry_run
          (if_rule (One S) (is_dbx_internal_principal row.principal_display) refl refl)
          (if_rule (One S) (is_dbx_internal_principal row.principal_display) refl
            (for_resolved-One (resolve_entra S row.principal_display h.services) h))

    to_principal-Still :
        (h : Hub S) → Still S h (to_principal S i C now p row true reason act write h)
    unfolding to_principal
    to_principal-Still h =
        if_rule (Still S h) (is_dbx_internal_principal row.principal_display) refl refl

  with_role-One :
      (dry_run : Bool) (role : Option String) (h : Hub S)
      → One S (with_role S i C now p row dry_run role h)
  unfolding with_role
  with_role-One dry_run none h = refl
  with_role-One dry_run (some role) h =
      to_principal-One "not found in Entra during workspace-role apply"
        (role_action S i C now p row role) (write_role S i C now p role) dry_run h

  with_role-Still :
      (role : Option String) (h : Hub S) → Still S h (with_role S i C now p row true role h)
  unfolding with_role
  with_role-Still none h = refl
  with_role-Still (some role) h =
      to_principal-Still "not found in Entra during workspace-role apply"
        (role_action S i C now p row role) (write_role S i C now p role) h

  at_item-One :
      (dry_run : Bool) (o : Option String) (h : Hub S) → One S (at_item S i C now p row dry_run o h)
  unfolding at_item
  at_item-One dry_run none h = refl
  at_item-One dry_run (some item_id) h = if_rule (One S) (is_empty item_id) refl (
      if_rule (One S) (not (row.access_class == "DATA_READ")) refl (
        to_principal-One "not found in Entra during OneLake DAR apply"
          (dar_action S i C now row item_id) (write_dar S i C now p row item_id) dry_run h))

  at_item-Still : (o : Option String) (h : Hub S) → Still S h (at_item S i C now p row true o h)
  unfolding at_item
  at_item-Still none h = refl
  at_item-Still (some item_id) h = if_rule (Still S h) (is_empty item_id) refl (
      if_rule (Still S h) (not (row.access_class == "DATA_READ")) refl (
        to_principal-Still "not found in Entra during OneLake DAR apply"
          (dar_action S i C now row item_id) (write_dar S i C now p row item_id) h))

  apply_onelake_dar-One :
      (dry_run : Bool) (items : Outcome (List Json)) (h : Hub S)
      → One S (apply_onelake_dar S i C now p row dry_run items h)
  unfolding apply_onelake_dar
  apply_onelake_dar-One dry_run (raised e) h = refl
  apply_onelake_dar-One dry_run (ok items) h = at_item-One dry_run _ h

  apply_onelake_dar-Still :
      (items : Outcome (List Json)) (h : Hub S)
      → Still S h (apply_onelake_dar S i C now p row true items h)
  unfolding apply_onelake_dar
  apply_onelake_dar-Still (raised e) h = refl
  apply_onelake_dar-Still (ok items) h = at_item-Still _ h

  pub apply_to_fabric-One :
      (dry_run : Bool) (h : Hub S) → One S (apply_to_fabric S i C now p row dry_run h)
  unfolding apply_to_fabric apply_workspace_role
  apply_to_fabric-One dry_run h =
      if_rule (One S) (layer_of S i C now row == "onelake_dar")
        (apply_onelake_dar-One dry_run (C.list_items p.fabric_workspace_id h.services) h)
        (if_rule (One S) (layer_of S i C now row == "unsupported_schema") refl (
          if_rule (One S) (row.access_class == "OBJECT_USE") refl
            (with_role-One dry_run (lookup row.access_class access_to_fabric_role) h)))

  pub apply_to_fabric-Still : (h : Hub S) → Still S h (apply_to_fabric S i C now p row true h)
  unfolding apply_to_fabric apply_workspace_role
  apply_to_fabric-Still h =
      if_rule (Still S h) (layer_of S i C now row == "onelake_dar")
        (apply_onelake_dar-Still (C.list_items p.fabric_workspace_id h.services) h)
        (if_rule (Still S h) (layer_of S i C now row == "unsupported_schema") refl (
          if_rule (Still S h) (row.access_class == "OBJECT_USE") refl
            (with_role-Still (lookup row.access_class access_to_fabric_role) h)))

  -- An item that is found is left alone by a row that does more than read.
  read_only_item :
      (dry_run : Bool) (o : Option String) (h : Hub S)
      → (row.access_class == "DATA_READ") ≡ false
      → Still S h (at_item S i C now p row dry_run o h)
  unfolding at_item
  read_only_item dry_run none h g = refl
  read_only_item dry_run (some item_id) h g =
      if_rule (Still S h) (is_empty item_id) refl
        (if_true (Still S h) (not (row.access_class == "DATA_READ")) _ (ap not g) refl)

  read_only-Still :
      (dry_run : Bool) (items : Outcome (List Json)) (h : Hub S)
      → (row.access_class == "DATA_READ") ≡ false
      → Still S h (apply_onelake_dar S i C now p row dry_run items h)
  unfolding apply_onelake_dar
  read_only-Still dry_run (raised e) h g = refl
  read_only-Still dry_run (ok items) h g = read_only_item dry_run _ h g

  no_role :
      (access : String)
      → (access == "DATA_READ") ≡ false
      → is_some (lookup access access_to_dar_actions) ≡ false
      → lookup access access_to_fabric_role ≡ none
  unfolding lookup
  no_role access g f = ground (arith, g, f)

  workspace_role-Still :
      (dry_run : Bool) (h : Hub S)
      → (row.access_class == "DATA_READ") ≡ false
      → is_some (lookup row.access_class access_to_dar_actions) ≡ false
      → Still S h (apply_workspace_role S i C now p row dry_run h)
  unfolding apply_workspace_role with_role
  workspace_role-Still dry_run h g f = if_rule (Still S h) (row.access_class == "OBJECT_USE") refl (
      subst (λ role. Still S h (with_role S i C now p row dry_run role h))
        (sym (no_role row.access_class g f)) refl)

  table_no_schema : (s : String) → starts_with "table:" s ≡ true → starts_with "schema:" s ≡ false
  unfolding starts_with
  table_no_schema String.[] t = refl
  table_no_schema (String.◌∷◌ c s) t = ground (arith, t)

  table_layer :
      (b : Bool)
      → starts_with "table:" row.securable_scope ≡ true
      → is_some (lookup row.access_class access_to_dar_actions) ≡ b
      → layer_of S i C now row ≡ (if b then "onelake_dar" else "workspace_role")
  unfolding plan_fabric_layer
  table_layer b t e = rw (table_no_schema row.securable_scope t, t, e) refl

  -- Applied to Fabric, dry run or not, a row of table scope changes nothing unless its class is
  -- DATA_READ.
  pub table_row-Still :
      (dry_run : Bool) (h : Hub S)
      → starts_with "table:" row.securable_scope ≡ true
      → row.access_class ≢ "DATA_READ"
      → Still S h (apply_to_fabric S i C now p row dry_run h)
  unfolding apply_to_fabric
  table_row-Still dry_run h t n =
      elim (Bool-cases (is_some (lookup row.access_class access_to_dar_actions))) [
        | inl e ↦
            if_true (Still S h) (layer_of S i C now row == "onelake_dar") _
              (rw (table_layer true t e) (==_refl {A = String} "onelake_dar"))
              (read_only-Still dry_run _ h (==_ne row.access_class "DATA_READ" n))
        | inr e ↦
            if_false (Still S h) (layer_of S i C now row == "onelake_dar") _
              (rw (table_layer false t e) (
                ==_ne {A = String} "workspace_role" "onelake_dar"
                  (text_ne "workspace_role" "onelake_dar" refl)))
              (if_rule (Still S h) (layer_of S i C now row == "unsupported_schema") refl
                (workspace_role-Still dry_run h (==_ne row.access_class "DATA_READ" n) e))
      ]
