-- ===== src/Tests/Data.antt =====
-- Data that the tests share: services that answer 200 and keep what they were sent.
use fabric_unified_permissio.Base.{String, true, false, List, [], ◌∷◌, none, some}
use fabric_unified_permissio.Base.Json.{null, end}
use fabric_unified_permissio.Base.Outcome.{ok, raised}
use fabric_unified_permissio.Base.Http.{Services, Request, reply}
use fabric_unified_permissio.Canonical.{CanonicalPermission}
use fabric_unified_permissio.Reconciler.Diff.{Draws}
use fabric_unified_permissio.Reconciler.Resolver.{ConflictResolver, Desk}
use fabric_unified_permissio.Translation.Normalizer.{PrivilegeNormalizer}
use fabric_unified_permissio.Writers.Planner.{FabricWritePlanner}
use fabric_unified_permissio.Weaver.{PolicyWeaverClient}
use fabric_unified_permissio.SyncEngine.{Config}

abbrev pub recorder : Services
recorder = record {
  State = List Request;
  fetch = λ url params s. reply 404 "" null;
  send = λ r s. (reply 200 "" null, r ∷ s);
  secret = λ name s. raised name;
  has_connector = false;
  connect = λ params s. ok tt;
  run_sql = λ sql s. (ok [], s);
}

abbrev pub draws : Draws
draws = record { uuid4 = λ n. "id"; now = 0; isoformat = λ n. "t" }

abbrev pub permission : String → String → String → CanonicalPermission
permission who access fqn = record {
  principal_entra_id = who;
  principal_type = "User";
  principal_display_name = who;
  access_class = access;
  securable_type = "table";
  securable_fqn = fqn;
  workspace_id = "w";
  source_platform = "unity_catalog";
  source_raw_privilege = "";
  source_raw_object = end;
  sync_run_id = "";
  discovered_at = 0;
  is_inherited = false;
}

abbrev pub reads : CanonicalPermission
reads = permission "u1" "DATA_READ" "c.s.t"

abbrev pub writes : CanonicalPermission
writes = permission "u1" "DATA_WRITE" "c.s.t"

abbrev pub other : CanonicalPermission
other = permission "u2" "DATA_READ" "c.s.t"

abbrev pub target_wins : ConflictResolver
target_wins = record { strategy = "target_wins"; audit_url = ""; teams_webhook = "" }

abbrev pub desk : Desk recorder
desk = record { logs = []; services = [] }

abbrev pub matrix : PrivilegeNormalizer
matrix = record {
  to_canonical = ("snowflake", ("SELECT", "DATA_READ") ∷ ("USAGE", "OBJECT_USE") ∷ []) ∷ [];
  from_canonical =
      ("fabric_workspace_role", ("DATA_READ", some "Viewer") ∷ ("OBJECT_USE", none) ∷ []) ∷ [];
}

abbrev pub planner : FabricWritePlanner
planner = record { cfg = []; onelake_enabled = false; normalizer = matrix; dry_run = true }

abbrev pub client : PolicyWeaverClient
client = record {
  normalizer = matrix;
  planner = planner;
  fabric_writer = record { api = "https://api" };
  dry_run = true;
}

abbrev pub config : Config
config = record {
  dry_run = true;
  direction = "bidirectional";
  source_platform = "";
  resolver = target_wins;
  weaver = client;
  onesync_enabled = false;
  onesync = record { endpoint = ""; api_key = "" };
  onesync_direction = "bidirectional";
}
