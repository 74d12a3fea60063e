-- ===== src/PairApply/ToDbx/Laws.antt =====
-- A row that goes to Unity Catalog adds one action, and its dry run changes nothing
-- (app/services/pair_apply.py).
use fabric_unified_permissio.Base.{
  String, Bool, true, refl, List, [], ◌∷◌, Option, none, some, if_rule,
}
use fabric_unified_permissio.Base.Http.{Services}
use fabric_unified_permissio.PairApply.Layers.{ApplyAction, UcGrant}
use fabric_unified_permissio.PairApply.Clients.{Pairing, Clients, Hub}
use fabric_unified_permissio.PairApply.Clients.Laws.{One, Still, of_verdict-One}
use fabric_unified_permissio.PairApply.ToDbx.{
  to_uc_principal, apply_to_dbx, with_privileges, target_of, ops_of, dbx_action, privs_of,
}
use fabric_unified_permissio.PairDiff.{DiffRow}

module _ (S : Services) (C : Clients S) (p : Pairing) (row : DiffRow) where
  to_uc_principal-One :
      (ops : List UcGrant) (act : Bool → Bool → String → ApplyAction) (o : Option String)
      (h : Hub S)
      → One S (to_uc_principal S C p row ops act o h)
  unfolding to_uc_principal
  to_uc_principal-One ops act none h = refl
  to_uc_principal-One ops act (some principal) h = of_verdict-One S _ h.queue _

  with_privileges-One :
      (dry_run : Bool) (kind : String) (ops : List UcGrant)
      (act : Bool → Bool → String → ApplyAction) (privs : List String) (h : Hub S)
      → One S (with_privileges S C p row dry_run kind ops act privs h)
  unfolding with_privileges
  with_privileges-One dry_run kind ops act [] h = refl
  with_privileges-One dry_run kind ops act (priv ∷ privs) h =
      if_rule (One S) dry_run refl (to_uc_principal-One ops act _ h)

  with_privileges-Still :
      (kind : String) (ops : List UcGrant) (act : Bool → Bool → String → ApplyAction)
      (privs : List String) (h : Hub S)
      → Still S h (with_privileges S C p row true kind ops act privs h)
  unfolding with_privileges
  with_privileges-Still kind ops act [] h = refl
  with_privileges-Still kind ops act (priv ∷ privs) h = refl

  pub apply_to_dbx-One : (dry_run : Bool) (h : Hub S) → One S (apply_to_dbx S C p row dry_run h)
  unfolding apply_to_dbx
  apply_to_dbx-One dry_run h =
      with_privileges-One dry_run (target_of S C p row).securable_type (ops_of S C p row)
        (dbx_action S C p row) (privs_of S C p row) h

  pub apply_to_dbx-Still : (h : Hub S) → Still S h (apply_to_dbx S C p row true h)
  unfolding apply_to_dbx
  apply_to_dbx-Still h =
      with_privileges-Still (target_of S C p row).securable_type (ops_of S C p row)
        (dbx_action S C p row) (privs_of S C p row) h
