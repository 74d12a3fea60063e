-- ===== src/PairDiff/Laws.antt =====
-- The tables of app/services/pair_diff.py against those of app/services/pair_apply.py.
use fabric_unified_permissio.Base.{String, ◌≡◌, refl, some, string_eq, arith, text_ne}
use fabric_unified_permissio.Base.Dict.{lookup}
use fabric_unified_permissio.PairDiff.{fabric_role_to_access}
use fabric_unified_permissio.PairApply.Layers.{access_to_fabric_role}

-- The role that an access class is written as reads back as that class.
pub role_round_trip :
    (access role : String)
    → lookup access access_to_fabric_role ≡ some role
    → lookup role fabric_role_to_access ≡ some access
unfolding lookup
role_round_trip access role h = ground (
  arith,
  h,
  text_ne "Contributor" "Viewer" refl,
  text_ne "Admin" "Viewer" refl,
  text_ne "Admin" "Contributor" refl,
  text_ne "Admin" "Member" refl,
)
