-- ===== src/PairApply/Rows.antt =====
-- `apply_rows` of app/services/pair_apply.py: one action for each row that a direction handles.
pub mod Laws
use fabric_unified_permissio.Base.{ℕ, String, ◌<>◌, Bool, not, ◌&&◌, ◌||◌, List, [], ◌∷◌, ◌++◌}
use fabric_unified_permissio.Base.{◌==◌, string_eq, if◌then◌else◌}
use fabric_unified_permissio.Base.Outcome.{Outcome, ok, and_then}
use fabric_unified_permissio.Base.Http.{Services}
use fabric_unified_permissio.Base.Text.{is_empty}
use fabric_unified_permissio.PairApply.Layers.{ApplyReport}
use fabric_unified_permissio.PairApply.DataRoles.Write.{Identity}
use fabric_unified_permissio.PairDiff.{DiffRow}
use fabric_unified_permissio.PairApply.Clients.{Pairing, Clients, Hub, Step}
use fabric_unified_permissio.PairApply.Constraint.{apply_constraint}
use fabric_unified_permissio.PairApply.ToFabric.{apply_to_fabric}
use fabric_unified_permissio.PairApply.ToDbx.{apply_to_dbx}

module _ (S : Services) (i : Identity) (C : Clients S) (now : ℕ) where
  unfoldable pub apply_row : Pairing → String → DiffRow → Bool → Hub S → Step S
  apply_row p direction row dry_run h =
      if not (is_empty row.constraint_kind)
      then apply_constraint S C p direction row dry_run h
      else if direction == "dbx_to_fabric"
      then apply_to_fabric S i C now p row dry_run h
      else if direction == "fabric_to_dbx"
      then apply_to_dbx S C p row dry_run h
      else (ok [], h)

  -- `for row in rows`: an exception that a branch does not handle ends the apply.
  pub apply_all :
      Pairing → String → Bool → List DiffRow → ApplyReport → Hub S → Outcome ApplyReport × Hub S
  apply_all p direction dry_run [] report h = (ok report, h)
  apply_all p direction dry_run (row ∷ rows) report h =
      and_then (apply_row p direction row dry_run h) (λ more t.
        apply_all p direction dry_run rows (record report { actions = report.actions ++ more }) t)

  unfoldable pub apply_rows :
      Pairing → List DiffRow → String → Bool → Hub S → Outcome ApplyReport × Hub S
  unfolding apply_all
  apply_rows p rows direction dry_run h =
      apply_all p direction dry_run rows (record { dry_run = dry_run; actions = [] }) h
