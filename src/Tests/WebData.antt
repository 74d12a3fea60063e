-- ===== src/Tests/WebData.antt =====
-- Data for the tests of the apply route: a call, its environment, a site and its collectors.
use fabric_unified_permissio.Base.{String, true, false, [], ◌∷◌, none}
use fabric_unified_permissio.Base.Outcome.{Outcome, ok, raised}
use fabric_unified_permissio.Approvals.{Approval}
use fabric_unified_permissio.PairDiff.{DiffRow, selection_key}
use fabric_unified_permissio.PairDiff.Compare.{Buckets, no_buckets}
use fabric_unified_permissio.Web.Apply.{Call, Env, Site, Collectors}
use fabric_unified_permissio.Tests.Data.{recorder}
use fabric_unified_permissio.Tests.HubData.{pairing, hub, pending, table_row}

abbrev pub env : Env
env = record {
  require_approval = true;
  now = 7;
  new_approval_id = "r2";
  new_audit_id = "e1";
  start_failure = none;
  end_failure = none;
  start_row_failure = none;
  end_row_failure = none;
  mark_failure = none;
}

abbrev pub row : DiffRow
row = table_row "DATA_READ" true false

abbrev pub call : String → Call
call approval_id = record {
  pairing_id = "p1";
  pairing = pairing;
  direction = "dbx_to_fabric";
  dry_run = false;
  selected = selection_key row ∷ [];
  approval_id = approval_id;
  client_host = "";
}

abbrev pub live : Outcome Buckets
live = ok (record no_buckets { all = row ∷ []; dbx_only = row ∷ [] })

abbrev pub approved : Approval
approved = record pending { status = "approved" }

abbrev pub site : Site recorder
site = record { hub = hub; approvals = approved ∷ []; events = []; cached = none }

-- Databricks does not answer.
abbrev pub collectors : Collectors recorder
collectors = record { collect_dbx = λ p s. raised "timeout"; collect_fabric = λ p s. ok [] }
