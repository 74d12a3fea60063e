-- ===== src/Tests/HubData.antt =====
-- Data for the tests of app/services: a pairing, its clients, a few rows and data access roles.
use fabric_unified_permissio.Base.{String, Bool, true, false, [], ◌∷◌, none, some}
use fabric_unified_permissio.Base.Json.{Json, str, obj, end, field}
use fabric_unified_permissio.Base.Outcome.{ok}
use fabric_unified_permissio.PairApply.Layers.{ApplyAction, ApplyReport}
use fabric_unified_permissio.PairApply.DataRoles.{role_of}
use fabric_unified_permissio.PairApply.DataRoles.Write.{Identity}
use fabric_unified_permissio.PairApply.Clients.{Pairing, Clients, Hub, done, updated, Tried}
use fabric_unified_permissio.PairDiff.{DiffRow}
use fabric_unified_permissio.IdentityQueue.{Queue, Unmapped}
use fabric_unified_permissio.Approvals.{Approval}
use fabric_unified_permissio.Drift.{Snapshot, serialize_row}
use fabric_unified_permissio.Audit.{Applied}
use fabric_unified_permissio.Tests.Data.{recorder}

abbrev pub identity : Identity
identity = record { sha256 = λ s. "0123456789abcdef"; tenant_id = "t" }

abbrev catalog_item : Json
catalog_item = obj (
    field "id" (str "i1")
      (field "type" (str "MirroredAzureDatabricksCatalog") (field "displayName" (str "Main") end)))

abbrev tried : Tried
tried = record { ok = true; skipped = false; message = "" }

abbrev pub clients : Clients recorder
clients = record {
  list_items = λ w s. ok (catalog_item ∷ []);
  update_grants = λ url g principal s. (updated, s);
  constraint_translation = λ p row s. done (record { table_path = "/Tables/s/t"; note = "" });
  constraint_uc_sql = λ p row s. done [];
  grant_fabric_constraint = λ p row item s. (ok tried, s);
  grant_uc_constraint = λ p row s. (ok tried, s);
}

abbrev pub pairing : Pairing
pairing = record {
  id = some "p1";
  label = "main";
  dbx_workspace_url = "https://dbx";
  uc_catalog = "main";
  fabric_workspace_id = "w1";
}

abbrev pub empty_queue : Queue
empty_queue = record { next_id = 1; entries = [] }

abbrev pub hub : Hub recorder
hub = record { services = []; queue = empty_queue }

abbrev pub table_row : String → Bool → Bool → DiffRow
table_row access dbx fabric = record {
  principal_key = "ada@x.org";
  principal_display = "ada@x.org";
  principal_type = "User";
  securable_scope = "table:main.s.t";
  access_class = access;
  on_dbx = dbx;
  on_fabric = fabric;
  raw_dbx = [];
  raw_fabric = [];
  constraint_kind = "";
  constraint_key = "";
  constraint_details = end;
  has_row_col_diff = false;
}

abbrev pub member : Json
member = obj (field "objectId" (str "u1") end)

abbrev pub other_role : Json
other_role = role_of "other" "*" ("Read" ∷ []) member

abbrev pub unmapped_ada : String → Unmapped
unmapped_ada id = record {
  pairing_id = some id;
  principal = "ada";
  principal_type = "User";
  source_platform = "unity_catalog";
  reason = "";
}

abbrev pub unmapped_nowhere : Unmapped
unmapped_nowhere = record (unmapped_ada "") { pairing_id = none }

abbrev pub pending : Approval
pending = record {
  id = "a1";
  pairing_id = "p1";
  direction = "dbx_to_fabric";
  requested_by = "ada";
  requested_at = 0;
  status = "pending";
  row_keys = [];
  note = "";
  decided_by = none;
  decided_at = none;
}

abbrev action : Bool → Bool → ApplyAction
action b skip = record {
  direction = "dbx_to_fabric";
  principal = "ada";
  securable_scope = "table:main.s.t";
  access_class = "DATA_READ";
  target_action = "";
  layer = "onelake_dar";
  ok = b;
  skipped = skip;
  message = "";
}

abbrev pub report : ApplyReport
report = record {
  dry_run = false;
  actions = action true false ∷ action true true ∷ action false false ∷ [];
}

abbrev pub applied : Applied
applied = record {
  pairing = pairing;
  direction = "dbx_to_fabric";
  dry_run = false;
  selected_count = 3;
  report = some report;
  error = none;
}

abbrev pub dry_report : ApplyReport
dry_report = record {
  dry_run = true;
  actions =
      record {
        direction = "dbx_to_fabric";
        principal = "ada@x.org";
        securable_scope = "table:main.s.t";
        access_class = "DATA_READ";
        target_action = "GRANT OneLake DAR (DATA_READ) on item i1 scope table:main.s.t";
        layer = "onelake_dar";
        ok = true;
        skipped = false;
        message = "dry-run (would apply)";
      }
      ∷ [];
}

abbrev pub snapshot : Snapshot
snapshot = record {
  id = 1;
  pairing_id = "p1";
  taken_at = 0;
  row_count = 1;
  dbx_only = 1;
  fabric_only = 0;
  in_sync = 0;
  fingerprint = "";
  rows = serialize_row (table_row "DATA_READ" true false) ∷ [];
}
