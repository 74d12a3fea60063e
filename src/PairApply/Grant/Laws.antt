-- ===== src/PairApply/Grant/Laws.antt =====
-- What granting a constraint changes (app/services/pair_apply.py).
use fabric_unified_permissio.Base.{◌≡◌, refl, sym, subst, String, inl}
use fabric_unified_permissio.Base.Outcome.{Outcome, ok, raised}
use fabric_unified_permissio.Base.Http.{Services}
use fabric_unified_permissio.PairApply.Clients.{Pairing}
use fabric_unified_permissio.PairApply.DasRole.{upsert_das_constraint_role}
use fabric_unified_permissio.PairApply.DasRole.Changes.{ChangesOne, upsert-ChangesOne}
use fabric_unified_permissio.PairApply.DataRoles.{Verdict}
use fabric_unified_permissio.PairApply.DataRoles.Write.{Identity}
use fabric_unified_permissio.PairApply.Grant.{
  Settings, UcClient, grant_fabric_constraint, upsert_ready, Ready, constraint_role_name, ready,
  of_verdict,
}
use fabric_unified_permissio.PairDiff.{DiffRow}

of_verdict_state : {T : Type 0} (st : Outcome Verdict × T) → (of_verdict st).1 ≡ st.1
of_verdict_state (ok v, t) = refl
of_verdict_state (raised e, t) = refl

module _ (S : Services) (i : Identity) (settings : Settings) (D : UcClient S) (p : Pairing)
    (row : DiffRow) (item_id : String) (s : S.State) where
  upsert_ready-Changes :
      (r : Ready S i settings D)
      → ChangesOne S i p.fabric_workspace_id item_id s
          (upsert_ready S i settings D p row item_id r s).1
  unfolding upsert_ready
  upsert_ready-Changes (raised e) = inl refl
  upsert_ready-Changes (ok (table_path, t)) =
      let name = constraint_role_name S i settings D row.constraint_kind table_path t in
      let st = upsert_das_constraint_role S i p.fabric_workspace_id item_id name table_path t s in
      subst (ChangesOne S i p.fabric_workspace_id item_id s) (sym (of_verdict_state st))
        (upsert-ChangesOne S i p.fabric_workspace_id item_id s name table_path t)

  -- Granting a constraint in Fabric makes at most one request that changes anything. Either the
  -- services are as they were, or the data access roles that were just read are written back such
  -- that a role of one name is there and the roles of all other names are as they were, in their
  -- order.
  pub grant_fabric_constraint-ChangesOne :
      ChangesOne S i p.fabric_workspace_id item_id s
        (grant_fabric_constraint S i settings D p row item_id s).1
  unfolding grant_fabric_constraint
  grant_fabric_constraint-ChangesOne = upsert_ready-Changes (ready S i settings D p row s)
