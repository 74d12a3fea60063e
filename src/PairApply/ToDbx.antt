-- ===== src/PairApply/ToDbx.antt =====
-- The rows of `apply_rows` in app/services/pair_apply.py that go to Unity Catalog.
pub mod Laws
use fabric_unified_permissio.Base.{
  ℕ, String, ◌<>◌, Bool, true, false, not, ◌&&◌, ◌||◌, List, [], ◌∷◌, ◌++◌, map,
}
use fabric_unified_permissio.Base.{Option, none, some, ◌==◌, string_eq, if◌then◌else◌}
use fabric_unified_permissio.Base.Outcome.{Outcome, ok, raised}
use fabric_unified_permissio.Base.Http.{Services}
use fabric_unified_permissio.Base.Text.{join}
use fabric_unified_permissio.PairApply.Layers.{ApplyAction, UcTarget, UcGrant}
use fabric_unified_permissio.PairApply.Layers.{
  uc_target_from_scope, uc_privileges_for_scope, uc_grant_operations,
}
use fabric_unified_permissio.PairApply.Graph.{resolve_fabric_principal_to_uc_principal}
use fabric_unified_permissio.PairApply.DataRoles.{Verdict, verdict}
use fabric_unified_permissio.PairApply.DataRoles.Write.{status_text}
use fabric_unified_permissio.PairDiff.{DiffRow}
use fabric_unified_permissio.PairApply.Clients.{
  Pairing, updated, status_error, value_error, other_error, Clients, action_of, Hub, Step, adds,
  of_verdict,
}

module _ (S : Services) (C : Clients S) where
  -- `_grant_uc_privileges`: the operations in their order, until one fails.
  pub grant_all : String → String → List UcGrant → S.State → Outcome Verdict × S.State
  grant_all url principal [] s = (ok (verdict true "granted (UC)"), s)
  grant_all url principal (g ∷ gs) s = elim g.privileges [
    | [] ↦ grant_all url principal gs s
    | _ ∷ _ ↦
        let (r, t) = C.update_grants url g principal s in
        elim r [
          | updated ↦ grant_all url principal gs t
          | status_error n text ↦ (ok (verdict false (status_text "" n text)), t)
          | value_error e ↦ (ok (verdict false e), t)
          | other_error e ↦ (raised e, t)
        ]
  ]

  abbrev shown_privs : List String → String
  shown_privs [] = "(none)"
  shown_privs (p ∷ ps) = join "," (p ∷ ps)

  abbrev shown_grant : UcGrant → String
  shown_grant g =
      "GRANT " <> shown_privs g.privileges <> " on " <> g.securable_type <> " " <> g.full_name

  to_uc_principal :
      Pairing
      → DiffRow
      → List UcGrant
      → (Bool → Bool → String → ApplyAction)
      → Option String
      → Hub S
      → Step S
  to_uc_principal p row ops act none h =
      adds S
        (act true true (
          "skipped: Fabric principal '" <> row.principal_display
          <> "' could not be resolved to a UC principal name"))
        h
  to_uc_principal p row ops act (some principal) h =
      of_verdict S (λ v. act v.ok false v.message) h.queue
        (grant_all p.dbx_workspace_url principal ops h.services)

  -- `if not privs: ... elif dry_run: ... else:`
  with_privileges :
      Pairing
      → DiffRow
      → Bool
      → String
      → List UcGrant
      → (Bool → Bool → String → ApplyAction)
      → List String
      → Hub S
      → Step S
  unfolding to_uc_principal
  with_privileges p row dry_run kind ops act [] h =
      adds S (act false false ("no UC mapping for " <> row.access_class <> " on " <> kind)) h
  with_privileges p row dry_run kind ops act (priv ∷ privs) h =
      if dry_run
      then adds S (act true false "dry-run (would apply)") h
      else to_uc_principal p row ops act
          (resolve_fabric_principal_to_uc_principal S row.principal_display row.principal_type
            h.services)
          h

  abbrev pub target_of : Pairing → DiffRow → UcTarget
  target_of p row = uc_target_from_scope row.securable_scope p.uc_catalog

  abbrev pub privs_of : Pairing → DiffRow → List String
  privs_of p row = uc_privileges_for_scope row.access_class (target_of p row).securable_type

  abbrev pub ops_of : Pairing → DiffRow → List UcGrant
  ops_of p row =
      uc_grant_operations (target_of p row).securable_type (target_of p row).full_name
        (privs_of p row)

  abbrev pub dbx_action : Pairing → DiffRow → Bool → Bool → String → ApplyAction
  dbx_action p row =
      action_of "fabric_to_dbx" row (join "; " (map shown_grant (ops_of p row)))
        (target_of p row).layer

  pub apply_to_dbx : Pairing → DiffRow → Bool → Hub S → Step S
  unfolding with_privileges
  apply_to_dbx p row dry_run h =
      with_privileges p row dry_run (target_of p row).securable_type (ops_of p row)
        (dbx_action p row) (privs_of p row) h
