-- ===== src/Tests/Hub.antt =====
-- The theorems about app/services at concrete data.
use fabric_unified_permissio.Base.{contains}
use fabric_unified_permissio.Base.{
  ◌≡◌, ◌+◌, refl, true, false, not, ◌&&◌, [], ◌∷◌, some, none, inl, text_ne, length, string_eq,
  if◌then◌else◌,
}
use fabric_unified_permissio.Base.Dict.{lookup}
use fabric_unified_permissio.Base.Json.{get_field}
use fabric_unified_permissio.Base.Text.{starts_with, lower, has_char, strip, first}
use fabric_unified_permissio.PairApply.Layers.{n_ok}
use fabric_unified_permissio.PairApply.Layers.{plan_fabric_layer, is_dbx_internal_principal}
use fabric_unified_permissio.PairApply.Graph.{find_mirrored_catalog_item}
use fabric_unified_permissio.PairApply.DataRoles.{already, role_of, merge_roles}
use fabric_unified_permissio.PairApply.DataRoles.Merge.{Kept, merge_roles-Kept}
use fabric_unified_permissio.PairApply.DataRoles.Again.{merge_roles_again}
use fabric_unified_permissio.PairApply.Clients.Laws.{Still}
use fabric_unified_permissio.PairApply.ToFabric.{apply_to_fabric, apply_onelake_dar}
use fabric_unified_permissio.PairApply.ToFabric.Laws.{table_row-Still}
use fabric_unified_permissio.PairApply.Rows.{apply_rows, apply_row}
use fabric_unified_permissio.PairApply.Rows.Laws.{
  Untouched, apply_rows-Untouched, apply_rows_actions,
}
use fabric_unified_permissio.PairDiff.{row_key_eq}
use fabric_unified_permissio.IdentityQueue.{enqueue}
use fabric_unified_permissio.IdentityQueue.Laws.{enqueue_no_pairing}
use fabric_unified_permissio.Audit.{build_plan, write_db_event, audit_event}
use fabric_unified_permissio.Audit.Laws.{step_count, build_plan_steps}
use fabric_unified_permissio.Drift.{drift_from, row_key, serialize_row}
use fabric_unified_permissio.Drift.Laws.{drift_from_keys, keys_of_rows}
use fabric_unified_permissio.Tests.HubData.{snapshot}
use fabric_unified_permissio.Tests.Data.{recorder}
use fabric_unified_permissio.Tests.HubData.{
  identity, clients, pairing, empty_queue, hub, table_row, member,
}
use fabric_unified_permissio.Tests.HubData.{
  other_role, unmapped_nowhere, report, applied, dry_report,
}

apply_rows-Untouched_example : Untouched recorder identity clients 0 pairing "dbx_to_fabric" hub (
    apply_rows recorder identity clients 0 pairing
      (table_row "DATA_READ" true false ∷ [])
      "dbx_to_fabric"
      true
      hub)
apply_rows-Untouched_example =
    apply_rows-Untouched recorder identity clients 0 pairing "dbx_to_fabric"
      (table_row "DATA_READ" true false ∷ []) hub

table_row-Still_example : Still recorder hub (
    apply_to_fabric recorder identity clients 0 pairing
      (table_row "DATA_WRITE" true false)
      false
      hub)
unfolding starts_with
table_row-Still_example =
    table_row-Still recorder identity clients 0 pairing (table_row "DATA_WRITE" true false) false
      hub refl (text_ne "DATA_WRITE" "DATA_READ" refl)

apply_rows_actions_example :
    length dry_report.actions ≡ length (table_row "DATA_READ" true false ∷ [])
unfolding apply_rows apply_row apply_to_fabric plan_fabric_layer apply_onelake_dar
    find_mirrored_catalog_item is_dbx_internal_principal starts_with lookup string_eq get_field
    lower has_char strip first
apply_rows_actions_example =
    apply_rows_actions recorder identity clients 0 pairing "dbx_to_fabric" (inl refl) true
      (table_row "DATA_READ" true false ∷ []) hub hub dry_report refl

merge_roles-Kept_example :
    Kept (other_role ∷ []) (other_role ∷ role_of "hub" "/Tables/s/t" ("Read" ∷ []) member ∷ [])
unfolding merge_roles string_eq lower get_field
merge_roles-Kept_example =
    merge_roles-Kept (role_of "hub" "/Tables/s/t" ("Read" ∷ []) member) member "hub" "/Tables/s/t"
      ("Read" ∷ []) (other_role ∷ [])
      (other_role ∷ role_of "hub" "/Tables/s/t" ("Read" ∷ []) member ∷ []) refl

merge_roles_again_example :
    merge_roles
      (role_of "hub" "/Tables/s/t" ("Read" ∷ []) member)
      member
      "hub"
      "/Tables/s/t"
      ("Read" ∷ [])
      (other_role ∷ role_of "hub" "/Tables/s/t" ("Read" ∷ []) member ∷ [])
    ≡ already
unfolding merge_roles string_eq lower get_field
merge_roles_again_example =
    merge_roles_again "hub" "/Tables/s/t" member (other_role ∷ [])
      (other_role ∷ role_of "hub" "/Tables/s/t" ("Read" ∷ []) member ∷ []) refl

enqueue_no_pairing_example :
    length (enqueue 1 unmapped_nowhere empty_queue).entries ≡ length empty_queue.entries + 1
enqueue_no_pairing_example = enqueue_no_pairing 1 unmapped_nowhere empty_queue refl refl

build_plan_steps_example :
    step_count
      (build_plan "e1" (write_db_event (audit_event "e1" 0 "permission_apply" none applied) []))
    ≡ (if applied.dry_run then 0 else n_ok report)
build_plan_steps_example = build_plan_steps "e1" "permission_apply" 0 none applied report [] refl

drift_from_keys_example :
    let current = serialize_row (table_row "DATA_WRITE" true false) ∷ [] in
    let key = row_key (serialize_row (table_row "DATA_WRITE" true false)) in
    let drift = drift_from (some snapshot) current in
    (contains (keys_of_rows drift.added) key
      ≡ (contains (keys_of_rows current) key && not (contains (keys_of_rows snapshot.rows) key)))
    × (contains (keys_of_rows drift.removed) key
        ≡ (contains (keys_of_rows snapshot.rows) key && not (contains (keys_of_rows current) key)))
drift_from_keys_example =
    drift_from_keys snapshot (serialize_row (table_row "DATA_WRITE" true false) ∷ [])
      (row_key (serialize_row (table_row "DATA_WRITE" true false)))
