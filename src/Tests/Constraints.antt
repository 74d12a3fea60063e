-- ===== src/Tests/Constraints.antt =====
-- The theorems about the roles of constraints and the collection of a catalog at concrete data.
use fabric_unified_permissio.Base.{
  false, ◌≡◌, ◌⊎◌, refl, true, false, String, [], ◌∷◌, none, some, string_eq, keep, any_of, All,
  ◌==◌,
}
use fabric_unified_permissio.Base.Http.{Services, reply}
use fabric_unified_permissio.Base.Json.{Json, str, arr, obj, nil, cons, end, field, get_field}
use fabric_unified_permissio.Base.Outcome.{ok, raised, Ensures}
use fabric_unified_permissio.Base.Text.{lower, is_empty}
use fabric_unified_permissio.FineGrained.Scope.{FabricConstraintTranslation}
use fabric_unified_permissio.PairApply.DataRoles.{role_of, written, object_of}
use fabric_unified_permissio.PairApply.DasRole.{
  constraint_role, place_role, members_for_fine_grained_policy, or_caller,
}
use fabric_unified_permissio.PairApply.DasRole.Changes.{ChangesOne}
use fabric_unified_permissio.PairApply.DasRole.Members.{constraint_members-Read, reads}
use fabric_unified_permissio.PairApply.DasRole.Place.{
  constraint_role-Placed, other_name, role_named,
}
use fabric_unified_permissio.PairApply.Grant.{UcClient, Settings, grant_fabric_constraint}
use fabric_unified_permissio.PairApply.Grant.Laws.{grant_fabric_constraint-ChangesOne}
use fabric_unified_permissio.PairDiff.{DiffRow}
use fabric_unified_permissio.PairDiff.Collect.{Reading}
use fabric_unified_permissio.PairDiff.FabricRows.{collect_fabric_rows}
use fabric_unified_permissio.PairDiff.FabricRows.Pairing.{InPairing, collect_fabric_rows-InPairing}
use fabric_unified_permissio.Tests.Data.{recorder}
use fabric_unified_permissio.Tests.HubData.{identity, pairing, table_row, member, other_role}

abbrev reader : Json
reader = role_of "reader" "/Tables/s/t" ("Read" ∷ []) member

abbrev columns : FabricConstraintTranslation
columns = record { table_path = "/Tables/s/t"; predicate = ""; column_names = "d" ∷ []; note = "" }

abbrev new_role : Json
new_role = constraint_role "hubfg1" "/Tables/s/t" columns (member ∷ [])

constraint_members-Read_example :
    (All
        (λ m. reads "/Tables/s/t" (reader ∷ other_role ∷ []) (object_of m) ≡ true)
        (members_for_fine_grained_policy "t" (reader ∷ other_role ∷ []) "/Tables/s/t" (some member))
      ⊎ (members_for_fine_grained_policy "t" (reader ∷ other_role ∷ []) "/Tables/s/t" (some member)
          ≡ or_caller [] (some member)))
    × ((oid : String)
        → is_empty (lower oid) ≡ false
        → reads "/Tables/s/t" (reader ∷ other_role ∷ []) oid ≡ true
        → any_of
            (λ m. lower (object_of m) == lower oid)
            (members_for_fine_grained_policy "t"
              (reader ∷ other_role ∷ [])
              "/Tables/s/t"
              (some member))
          ≡ true)
constraint_members-Read_example =
    constraint_members-Read "t" (reader ∷ other_role ∷ []) "/Tables/s/t" (some member)

constraint_role-Placed_example :
    (keep (other_name "hubfg1") (reader ∷ new_role ∷ []) ≡ keep (other_name "hubfg1") (reader ∷ []))
    × (role_named "hubfg1" (reader ∷ new_role ∷ []) ≡ some new_role)
    × (place_role new_role "hubfg1" "/Tables/s/t" (reader ∷ new_role ∷ [])
        ≡ written (reader ∷ new_role ∷ []))
unfolding place_role get_field string_eq lower
constraint_role-Placed_example =
    constraint_role-Placed "hubfg1" "/Tables/s/t" columns (member ∷ []) (reader ∷ [])
      (reader ∷ new_role ∷ []) refl

-- An item with one role, whatever is asked.
abbrev with_reader : Services
with_reader = record recorder {
  fetch = λ url params s. reply 200 "" (obj (field "value" (arr (cons reader nil)) end));
}

abbrev uc_client : UcClient with_reader
uc_client = record {
  get_function = λ url name s. raised "404";
  get_table = λ url name s. raised "404";
  ensure_sql_warehouse_running = λ url w s. (ok tt, s);
  execute_sql = λ url w q s. (ok tt, s);
}

abbrev settings : Settings
settings = record { warehouse_id = "w"; is_production = false }

abbrev mask_row : DiffRow
mask_row = record (table_row "DATA_READ" true false) {
  constraint_kind = "column_mask";
  constraint_details =
      field "column" (str "c")
        (field "table_columns" (arr (cons (str "c") (cons (str "d") nil))) end);
}

grant_fabric_constraint-ChangesOne_example :
    ChangesOne with_reader identity "w1" "i1" []
      (grant_fabric_constraint with_reader identity settings uc_client pairing mask_row "i1" []).1
grant_fabric_constraint-ChangesOne_example =
    grant_fabric_constraint-ChangesOne with_reader identity settings uc_client pairing mask_row "i1"
      []

abbrev reading : Reading with_reader
reading = record {
  hashing = record { dumps = λ j. ""; sha256 = λ t. "h" };
  python = record { compile = λ t. none };
  warehouse_id = "";
  is_production = false;
  read_governed_tags = λ w c s. raised "no warehouse";
}

collect_fabric_rows-InPairing_example :
    Ensures
      (All (λ r. InPairing "w1" "main" r.securable_scope ⊎ (is_empty r.constraint_kind ≡ false)))
      (collect_fabric_rows with_reader reading.hashing "w1" "main" [])
collect_fabric_rows-InPairing_example =
    collect_fabric_rows-InPairing with_reader reading.hashing "w1" "main" []
