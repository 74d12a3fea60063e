-- ===== src/Audit.antt =====
-- app/services/audit_log.py and app/services/rollback_service.py: the status of an apply, its record
-- and the plan that would undo it.
pub mod Laws
use fabric_unified_permissio.Base.{
  ℕ, String, ◌<>◌, Bool, false, not, ◌&&◌, ◌||◌, List, [], ◌∷◌, ◌++◌, Option, none, some,
}
use fabric_unified_permissio.Base.{◌==◌, string_eq, if◌then◌else◌, ltb, eqb, map}
use fabric_unified_permissio.Base.Text.{is_empty, lower}
use fabric_unified_permissio.PairApply.Layers.{ApplyAction, ApplyReport, n_ok, n_skipped, n_failed}
use fabric_unified_permissio.PairApply.Clients.{Pairing}

pub record Counts : Type 0 where
  pub ok : ℕ
  pub skipped : ℕ
  pub failed : ℕ

pub report_counts_of : Option ApplyReport → Counts
report_counts_of none = record { ok = 0; skipped = 0; failed = 0 }
report_counts_of (some r) = record { ok = n_ok r; skipped = n_skipped r; failed = n_failed r }

-- `if error:`
abbrev pub is_error : Option String → Bool
is_error none = false
is_error (some e) = not (is_empty e)

pub status_of : Option String → Counts → String
status_of error counts =
    if is_error error
    then "blocked"
    else if eqb counts.failed 0
    then "completed"
    else if ltb 0 counts.ok || ltb 0 counts.skipped
    then "partial"
    else "failed"

-- What an audit event keeps of an action.
pub record ActionDetail : Type 0 where
  pub principal : String
  pub scope : String
  pub layer : String
  pub ok : Bool
  pub skipped : Bool
  pub message : String

abbrev pub detail_of : ApplyAction → ActionDetail
detail_of a = record {
  principal = a.principal;
  scope = a.securable_scope;
  layer = a.layer;
  ok = a.ok;
  skipped = a.skipped;
  message = a.message;
}

pub record AuditEvent : Type 0 where
  pub id : String
  pub timestamp : ℕ
  pub event : String
  pub pairing_id : Option String
  pub direction : String
  pub dry_run : Bool
  pub status : String
  pub selected_count : ℕ
  pub counts : Counts
  pub error : Option String
  pub detail : List ActionDetail

-- What `record_permission_apply` is called with.
pub record Applied : Type 0 where
  pub pairing : Pairing
  pub direction : String
  pub dry_run : Bool
  pub selected_count : ℕ
  pub report : Option ApplyReport
  pub error : Option String

abbrev actions_of : Option ApplyReport → List ApplyAction
actions_of none = []
actions_of (some r) = r.actions

-- `status_override or _status(error, counts)`
abbrev or_status : Option String → String → String
or_status none s = s
or_status (some o) s = if is_empty o then s else o

pub audit_event : String → ℕ → String → Option String → Applied → AuditEvent
audit_event id now event override a = record {
  id = id;
  timestamp = now;
  event = event;
  pairing_id = a.pairing.id;
  direction = a.direction;
  dry_run = a.dry_run;
  status = or_status override (status_of a.error (report_counts_of a.report));
  selected_count = a.selected_count;
  counts = report_counts_of a.report;
  error = a.error;
  detail = map detail_of (actions_of a.report);
}

-- `INSERT OR REPLACE INTO audit_events`: the row of the same identifier goes.
pub write_db_event : AuditEvent → List AuditEvent → List AuditEvent
write_db_event e [] = e ∷ []
write_db_event e (f ∷ table) =
    let rest = write_db_event e table in if f.id == e.id then rest else f ∷ rest

-- `_write_db_event`: an exception of the database is passed over, and then the row is not written.
abbrev pub mirror : Option String → AuditEvent → List AuditEvent → List AuditEvent
mirror none e table = write_db_event e table
mirror (some x) e table = table

-- `SELECT * FROM audit_events WHERE id = ?`
pub find_event : String → List AuditEvent → Option AuditEvent
find_event id [] = none
find_event id (e ∷ table) = let rest = find_event id table in if e.id == id then some e else rest

pub record Reversal : Type 0 where
  pub operation : String
  pub principal : String
  pub scope : String
  pub description : String

pub reverse_action : ActionDetail → Option Reversal
reverse_action a =
    let layer = lower a.layer in
    if not a.ok || a.skipped
    then none
    else if layer == "workspace_role"
    then some (record {
      operation = "remove_workspace_role";
      principal = a.principal;
      scope = a.scope;
      description = "Remove workspace role granted to " <> a.principal;
    })
    else if layer == "onelake_dar"
    then some (record {
      operation = "remove_onelake_dar_member";
      principal = a.principal;
      scope = a.scope;
      description = "Remove " <> a.principal <> " from the OneLake DAR role on " <> a.scope;
    })
    else if layer == "row_filter" || layer == "column_mask"
    then some (record {
      operation = "remove_fine_grained_constraint";
      principal = a.principal;
      scope = a.scope;
      description = "Remove the " <> layer <> " constraint applied on " <> a.scope;
    })
    else some (record {
      operation = "manual_review";
      principal = a.principal;
      scope = a.scope;
      description = "Manual review required to reverse '" <> layer <> "' on " <> a.scope;
    })

abbrev cons_some : Option Reversal → List Reversal → List Reversal
cons_some none rs = rs
cons_some (some r) rs = r ∷ rs

pub reversals : List ActionDetail → List Reversal
reversals [] = []
reversals (a ∷ actions) = cons_some (reverse_action a) (reversals actions)

-- The plan; that of a dry run does not say what it was for.
pub record RollbackPlan : Type 0 where
  pub audit_id : String
  pub pairing_id : Option String
  pub direction : Option String
  pub applied_at : Option ℕ
  pub executable : Bool
  pub reason : String
  pub steps : List Reversal

plan_of : String → Option AuditEvent → Option RollbackPlan
plan_of audit_id none = none
plan_of audit_id (some e) =
    if e.dry_run
    then some (record {
      audit_id = audit_id;
      pairing_id = none;
      direction = none;
      applied_at = none;
      executable = false;
      reason = "This was a dry-run; nothing was applied, so there is nothing to roll back.";
      steps = [];
    })
    else some (record {
      audit_id = audit_id;
      pairing_id = e.pairing_id;
      direction = some e.direction;
      applied_at = some e.timestamp;
      executable = false;
      reason =
          "Review-only plan. Revoke operations are not auto-executed to protect production permission surfaces.";
      steps = reversals e.detail;
    })

pub build_plan : String → List AuditEvent → Option RollbackPlan
unfolding plan_of
build_plan audit_id table = plan_of audit_id (find_event audit_id table)
