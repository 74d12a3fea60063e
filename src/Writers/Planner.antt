-- ===== src/Writers/Planner.antt =====
-- permission-sync/src/writers/fabric_write_planner.py
pub mod Laws
use fabric_unified_permissio.Base.{String, Bool, not, ◌&&◌, Option, none, some, [], ◌∷◌}
use fabric_unified_permissio.Base.{◌==◌, string_eq, if◌then◌else◌}
use fabric_unified_permissio.Base.Dict.{Dict, lookup}
use fabric_unified_permissio.Base.Json.{get_field, get, text?, Fields}
use fabric_unified_permissio.Base.Text.{is_empty}
use fabric_unified_permissio.Canonical.{CanonicalPermission}
use fabric_unified_permissio.Translation.Normalizer.{PrivilegeNormalizer, denormalize}

pub record FabricWritePlan : Type 0 where
  pub layer : String
  pub workspace_id : String
  pub item_id : Option String
  pub principal_entra_id : String
  pub principal_type : String
  pub role_or_action : String
  pub dry_run : Bool

-- The entry of an access class in `fabric_write_planner` of the settings.
pub record LayerConfig : Type 0 where
  pub primary_layer : Option String
  pub fallback_layer : Option String

pub record FabricWritePlanner : Type 0 where
  pub cfg : Dict String LayerConfig
  pub onelake_enabled : Bool
  pub normalizer : PrivilegeNormalizer
  pub dry_run : Bool

abbrev pub workspace_role : String
workspace_role = "workspace_role"

abbrev pub onelake_role : String
onelake_role = "onelake_data_access_role"

-- `d.get(k, "workspace_role")`
abbrev pub or_workspace : Option String → String
or_workspace none = workspace_role
or_workspace (some layer) = layer

abbrev pub layer_config : FabricWritePlanner → String → LayerConfig
layer_config w access = elim (lookup access w.cfg) [
  | none ↦ record { primary_layer = none; fallback_layer = none }
  | some c ↦ c
]

-- The layer before a privilege is looked up for it.
unfoldable pub choose_layer : FabricWritePlanner → String → String
choose_layer w access =
    let primary = or_workspace (layer_config w access).primary_layer in
    let fallback = or_workspace (layer_config w access).fallback_layer in
    if primary == onelake_role && not w.onelake_enabled then fallback else primary

abbrev skip_plan : FabricWritePlanner → CanonicalPermission → FabricWritePlan
skip_plan w p = record {
  layer = "skip";
  workspace_id = p.workspace_id;
  item_id = none;
  principal_entra_id = p.principal_entra_id;
  principal_type = p.principal_type;
  role_or_action = "";
  dry_run = w.dry_run;
}

-- `(permission.source_raw_object.get("item") or {}).get("id")`
abbrev pub raw_item_id : Fields → Option String
raw_item_id raw = text? (get (get_field "item" raw) "id")

abbrev layer_plan : FabricWritePlanner → CanonicalPermission → String → String → FabricWritePlan
layer_plan w p layer priv = record {
  layer = layer;
  workspace_id = p.workspace_id;
  item_id = if layer == onelake_role then raw_item_id p.source_raw_object else none;
  principal_entra_id = p.principal_entra_id;
  principal_type = p.principal_type;
  role_or_action = priv;
  dry_run = w.dry_run;
}

abbrev pub target_table : String → String
target_table layer =
    if layer == onelake_role then "fabric_onelake_role" else "fabric_workspace_role"

-- `if not target_priv`
abbrev plan_priv :
    FabricWritePlanner → CanonicalPermission → String → Option String → FabricWritePlan
plan_priv w p layer none = skip_plan w p
plan_priv w p layer (some priv) = if is_empty priv then skip_plan w p else layer_plan w p layer priv

unfoldable pub plan : FabricWritePlanner → CanonicalPermission → FabricWritePlan
plan w p =
    let layer = choose_layer w p.access_class in
    if layer == "none"
    then skip_plan w p
    else plan_priv w p layer (denormalize w.normalizer p.access_class (target_table layer))
