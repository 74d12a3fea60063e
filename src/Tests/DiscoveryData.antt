-- ===== src/Tests/DiscoveryData.antt =====
-- Data for the tests of the discoveries: a tenant with one workspace on either side and one grant in
-- each of them.
use fabric_unified_permissio.Base.{
  String, false, [], ◌∷◌, some, none, string_eq, ◌==◌, if◌then◌else◌,
}
use fabric_unified_permissio.Base.Dict.{Dict, lookup}
use fabric_unified_permissio.Base.Http.{Services, Request, reply, failed, put}
use fabric_unified_permissio.Base.Json.{Json, null, str, arr, obj, nil, cons, end, field, Fields}
use fabric_unified_permissio.Base.Outcome.{ok, raised}
use fabric_unified_permissio.Canonical.{CanonicalPermission}
use fabric_unified_permissio.Discovery.Fabric.{FabricDiscovery}
use fabric_unified_permissio.Discovery.Found.{Source}
use fabric_unified_permissio.Discovery.Snowflake.{Vault, SnowflakeDiscovery}
use fabric_unified_permissio.Discovery.UnityCatalog.{UnityCatalogDiscovery}
use fabric_unified_permissio.SyncEngine.{Config, Engine}
use fabric_unified_permissio.Tests.Data.{recorder, config}

abbrev one : Json → Json
one j = arr (cons j nil)

abbrev assigned : Json
assigned = obj (field "principal" (str "ada") (field "privileges" (one (str "SELECT")) end))

abbrev ada : Fields
ada = field "id" (str "u1") (field "displayName" (str "Ada") end)

abbrev viewer : Fields
viewer = field "role" (str "Viewer") (field "principal" (obj ada) end)

abbrev pages : Dict String Json
pages =
    ("f/workspaces", obj (field "value" (one (obj (field "id" (str "w") end))) end))
    ∷ ("f/workspaces/w/roleAssignments", obj (field "value" (one (obj viewer)) end))
    ∷ ("a/api/2.0/accounts/acc/workspaces", one (obj (field "workspace_url" (str "d") end)))
    ∷ (
      "d/api/2.1/unity-catalog/catalogs",
      obj (field "catalogs" (one (obj (field "name" (str "c") end))) end),
    )
    ∷ (
      "d/api/2.1/unity-catalog/permissions/catalog/c",
      obj (field "privilege_assignments" (one assigned) end),
    )
    ∷ ("d/api/2.1/unity-catalog/schemas", obj end)
    ∷ ("https://graph.microsoft.com/v1.0/users", obj (field "value" (one (obj ada)) end))
    ∷ []

abbrev pub tenant : Services
tenant = record recorder {
  fetch = λ url params s. elim (lookup url pages) [
    | none ↦ reply 404 "" null
    | some j ↦ reply 200 "" j
  ];
  secret = λ name s. ok "acc";
}

abbrev pub found_by : Source
found_by = record {
  normalizer = record {
    to_canonical =
        ("unity_catalog", ("SELECT", "DATA_READ") ∷ [])
        ∷ ("fabric", ("Viewer", "DATA_READ") ∷ [])
        ∷ [];
    from_canonical = [];
  };
  run_id = "r";
  now = 0;
}

abbrev pub uc : UnityCatalogDiscovery
uc = record { account_host = "a"; account_id_secret = "account"; source = found_by }

abbrev pub fabric : FabricDiscovery
fabric = record {
  api_base = "f";
  tag_key = "";
  tag_value = "";
  onelake_enabled = false;
  source = found_by;
}

-- What the two discoveries find.
abbrev pub granted_in_uc : CanonicalPermission
granted_in_uc = record {
  principal_entra_id = "u1";
  principal_type = "User";
  principal_display_name = "Ada";
  access_class = "DATA_READ";
  securable_type = "catalog";
  securable_fqn = "c";
  workspace_id = "d";
  source_platform = "unity_catalog";
  source_raw_privilege = "SELECT";
  source_raw_object = field "principal" (str "ada") (field "privileges" (one (str "SELECT")) end);
  sync_run_id = "r";
  discovered_at = 0;
  is_inherited = false;
}

abbrev pub granted_in_fabric : CanonicalPermission
granted_in_fabric = record {
  principal_entra_id = "u1";
  principal_type = "User";
  principal_display_name = "Ada";
  access_class = "DATA_READ";
  securable_type = "workspace";
  securable_fqn = "w";
  workspace_id = "w";
  source_platform = "fabric";
  source_raw_privilege = "Viewer";
  source_raw_object = viewer;
  sync_run_id = "r";
  discovered_at = 0;
  is_inherited = false;
}

abbrev pub vault : Vault recorder
vault = record { all_names = λ s. raised "403"; loads = λ t. raised t }

abbrev pub snowflake : SnowflakeDiscovery
snowflake = record { prefix = "snowflake-"; source = found_by }

abbrev pub uc_config : Config
uc_config = record config { source_platform = "unity_catalog"; direction = "source_to_fabric" }

-- A tenant that cannot be reached before something was sent to it.
abbrev pub recovering : Services
recovering = record tenant {
  fetch = λ url params s. elim s [ [] ↦ failed "timeout" | r ∷ rs ↦ tenant.fetch url params [] ];
}

abbrev pub sent : Request
sent = record { method = put; url = ""; body = null }

-- A service whose every listing is one page with one entry.
abbrev pub single : Services
single = record recorder {
  fetch = λ url params s. reply 200 "" (obj (field "value" (one (obj ada)) end));
}

-- A tenant whose account lists one workspace, which refuses everything.
abbrev pub refusing : Services
refusing = record recorder {
  fetch = λ url params s.
      if url == "a/api/2.0/accounts/acc/workspaces"
      then reply 200 "" (one (obj (field "workspace_url" (str "d") end)))
      else reply 403 "denied" null;
  secret = λ name s. ok "acc";
}

abbrev pub locked : Vault refusing
locked = record { all_names = λ s. raised "403"; loads = λ t. raised t }

abbrev pub engine : Engine refusing
engine = record {
  desk = record { logs = []; services = [] };
  audit = record { run_id = "r"; lines = []; closed = false };
  metrics = [];
}
