-- ===== src/Web/Apply.antt =====
-- `apply_view` of app/routers/pairings.py: the approval gate, the fresh comparison, the apply and
-- its audit record. The page that shows the result is left out.
pub mod Gate
pub mod Replay
pub mod Unmarked
use fabric_unified_permissio.Base.{
  ℕ, String, ◌<>◌, Bool, true, false, not, ◌&&◌, List, [], ◌∷◌, ◌++◌, map,
}
use fabric_unified_permissio.Base.{Option, none, some, ◌==◌, string_eq, if◌then◌else◌, length}
use fabric_unified_permissio.Base.Dict.{Dict, lookup, insert}
use fabric_unified_permissio.Base.Http.{Services}
use fabric_unified_permissio.Base.Outcome.{Outcome, ok, raised}
use fabric_unified_permissio.Base.Sort.{sorted}
use fabric_unified_permissio.Base.Text.{is_empty, join, text_leb}
use fabric_unified_permissio.Approvals.{Approval, Wanted, create_request, get, mark_executed}
use fabric_unified_permissio.Audit.{AuditEvent, Applied, audit_event, mirror, is_error}
use fabric_unified_permissio.PairApply.Clients.{Pairing, Clients, Hub}
use fabric_unified_permissio.PairApply.DataRoles.Write.{Identity}
use fabric_unified_permissio.PairApply.Graph.{resolve_entra}
use fabric_unified_permissio.PairApply.Layers.{ApplyReport}
use fabric_unified_permissio.PairApply.Rows.{apply_rows}
use fabric_unified_permissio.PairDiff.{DiffRow, selection_key}
use fabric_unified_permissio.PairDiff.Compare.{Buckets, no_buckets, compare_sides}

-- A validated request for a pairing that was found. `selected` has the keys in the order in which
-- Python walks the set of them.
pub record Call : Type 0 where
  pub pairing_id : String
  pub pairing : Pairing
  pub direction : String
  pub dry_run : Bool
  pub selected : List String
  pub approval_id : String
  pub client_host : String

-- The setting, the clock and the identifiers drawn, and whether the audit file and the database can
-- be written before and after the apply.
pub record Env : Type 0 where
  pub require_approval : Bool
  pub now : ℕ
  pub new_approval_id : String
  pub new_audit_id : String
  pub start_failure : Option String
  pub end_failure : Option String
  -- What the database raises on the rows of the audit mirror and on marking the approval.
  pub start_row_failure : Option String
  pub end_row_failure : Option String
  pub mark_failure : Option String

pub record Page : Type 0 where
  pub report : Option ApplyReport
  pub error : Option String
  pub audit_id : Option String
  pub audit_error : Option String
  pub selected_row_keys : List String

pub data View : Type 0 where
  -- The redirect with the id of the approval that was requested.
  approval_requested : String → View
  page : Page → View

abbrev pub allows : String → Option Approval → Bool
allows pairing_id none = false
allows pairing_id (some a) = a.status == "approved" && a.pairing_id == pairing_id

-- `approvals.get(approval_id) if approval_id else None`, approved and for this pairing.
abbrev pub gate_open : Call → List Approval → Bool
gate_open c table = not (is_empty c.approval_id) && allows c.pairing_id (get c.approval_id table)

abbrev pub needs_gate : Env → Call → Bool
needs_gate e c = not c.dry_run && e.require_approval

-- `{_row_key(r): r for r in source_bucket}`
unfoldable pub by_selection_key : Dict String DiffRow → List DiffRow → Dict String DiffRow
by_selection_key d [] = d
by_selection_key d (r ∷ rs) = by_selection_key (insert (selection_key r) r d) rs

abbrev cons_found : Option DiffRow → List DiffRow → List DiffRow
cons_found none rs = rs
cons_found (some r) rs = r ∷ rs

-- `[live_by_key[k] for k in selected if k in live_by_key]`
unfoldable pub pick : Dict String DiffRow → List String → List DiffRow
pick d [] = []
pick d (k ∷ ks) = cons_found (lookup k d) (pick d ks)

abbrev pub source_bucket : Call → Buckets → List DiffRow
source_bucket c b = if c.direction == "dbx_to_fabric" then b.dbx_only else b.fabric_only

unfoldable pub rows_to_apply : Call → Buckets → List DiffRow
unfolding by_selection_key pick
rows_to_apply c b = pick (by_selection_key [] (source_bucket c b)) c.selected

-- The comparison that is used, and what went wrong.
pub record Compared : Type 0 where
  pub buckets : Buckets
  pub error : Option String

abbrev unverified : String
unverified = "Could not verify live permissions; real apply blocked. Run `az login` and retry."

abbrev joined_errors : Option String → List String → Option String
joined_errors error [] = error
joined_errors none (x ∷ xs) = some (join " | " (x ∷ xs))
joined_errors (some e) (x ∷ xs) =
    some ((if is_empty e then "" else e <> "; ") <> join " | " (x ∷ xs))

abbrev without_live : Bool → Option Buckets → Compared
without_live true (some b) = record { buckets = b; error = joined_errors none b.errors }
without_live _ _ = record { buckets = no_buckets; error = some unverified }

unfoldable pub compared : Bool → Outcome Buckets → Option Buckets → Compared
compared dry_run (ok b) cached = record { buckets = b; error = joined_errors none b.errors }
compared dry_run (raised e) cached = without_live dry_run cached

module _ (S : Services) where
  -- What the route may change. `cached` is the comparison of this pairing that the cache holds.
  pub record Site : Type 0 where
    pub hub : Hub S
    pub approvals : List Approval
    pub events : List AuditEvent
    pub cached : Option Buckets

  -- Where both sides of a pairing are collected.
  pub record Collectors : Type 0 where
    pub collect_dbx : Pairing → S.State → Outcome (List DiffRow)
    pub collect_fabric : Pairing → S.State → Outcome (List DiffRow)

  -- `compute_diff(..., use_cache=False)`: it handles the exceptions of both sides itself.
  pub live_diff : Collectors → Pairing → S.State → Buckets
  live_diff K p s =
      compare_sides (λ principal. resolve_entra S principal s) (K.collect_dbx p s)
        (K.collect_fabric p s)

  abbrev keep_live : Outcome Buckets → Option Buckets → Option Buckets
  keep_live (ok b) cached = some b
  keep_live (raised e) cached = cached

module _ (S : Services) (i : Identity) (C : Clients S) (e : Env) where
  abbrev the_record : Call → List DiffRow → Option ApplyReport → Option String → Applied
  the_record c rows report error = record {
    pairing = c.pairing;
    direction = c.direction;
    dry_run = c.dry_run;
    selected_count = length rows;
    report = report;
    error = error;
  }

  -- `start_id` is the id of the start record, where one was written.
  -- `record_permission_apply(...)`, `_cache.invalidate("diff::")` and the page.
  unfoldable pub finish :
      Call
      → List DiffRow
      → Option ApplyReport
      → Option String
      → Option String
      → Option String
      → Site S
      → Outcome View × Site S
  finish c rows report error audit_error start_id t =
      let event =
        audit_event e.new_audit_id e.now "permission_apply" none (the_record c rows report error) in
      let seen = record t { cached = if c.dry_run then t.cached else none } in
      elim e.end_failure [
        | none ↦ (
          ok (
              page (record {
                report = report;
                error = error;
                audit_id = some e.new_audit_id;
                audit_error = audit_error;
                selected_row_keys = map selection_key rows;
              })),
          record seen { events = mirror e.end_row_failure event t.events },
        )
        | some x ↦ (
          ok (
              page (record {
                report = report;
                error = error;
                audit_id = start_id;
                audit_error = some ("Audit log write failed: " <> x);
                selected_row_keys = map selection_key rows;
              })),
          seen,
        )
      ]

  -- `try: approvals.mark_executed(approval_note) except Exception: pass`
  abbrev marked : Option String → String → List Approval → List Approval
  marked none id table = mark_executed id table
  marked (some x) id table = table

  abbrev executed : Call → List Approval → List Approval
  executed c table = if needs_gate e c then marked e.mark_failure c.approval_id table else table

  -- After `apply_rows`: an exception that it raises ends the request.
  unfoldable pub after_apply :
      Call → List DiffRow → Site S → Outcome ApplyReport × Hub S → Outcome View × Site S
  unfolding finish
  after_apply c rows t (raised x, h) = (raised x, record t { hub = h })
  after_apply c rows t (ok report, h) =
      finish c rows (some report) none none (if c.dry_run then none else some e.new_audit_id)
        (record t { hub = h; approvals = executed c t.approvals })

  unfoldable pub run_rows : Call → List DiffRow → Site S → Outcome View × Site S
  unfolding after_apply
  run_rows c rows t =
      after_apply c rows t (apply_rows S i C e.now c.pairing rows c.direction c.dry_run t.hub)

  abbrev pub started : Call → List DiffRow → Site S → Site S
  started c rows t = record t {
    events =
        mirror e.start_row_failure
          (audit_event e.new_audit_id e.now "permission_apply_started" (some "started")
            (the_record c rows none none))
          t.events;
  }

  -- `record_permission_apply_start(...)`: without a start record, a real apply is blocked.
  unfoldable pub after_start : Call → List DiffRow → Option String → Site S → Outcome View × Site S
  unfolding run_rows
  after_start c rows none t = run_rows c rows (started c rows t)
  after_start c rows (some x) t =
      finish c rows none (some "Audit log unavailable; real apply blocked before changes.")
        (some ("Audit log write failed: " <> x)) none t

  -- The comparison is there; `if error:` blocks the apply.
  unfoldable pub after_compare : Call → Compared → Site S → Outcome View × Site S
  unfolding after_start
  after_compare c d t =
      let rows = rows_to_apply c d.buckets in
      if is_error d.error
      then finish c rows none d.error none none t
      else if c.dry_run
      then run_rows c rows t
      else after_start c rows e.start_failure t

  abbrev pub wanted : Call → Wanted
  wanted c = record {
    pairing_id = c.pairing_id;
    direction = c.direction;
    row_keys = sorted text_leb c.selected;
    requested_by = c.client_host;
    note = "auto-created from apply request";
  }

  -- A real apply behind a closed gate only asks for an approval.
  pub ask_approval : Call → Site S → Outcome View × Site S
  ask_approval c t = (
    ok (approval_requested e.new_approval_id),
    record t { approvals = create_request e.new_approval_id e.now (wanted c) t.approvals },
  )

  -- `live` is what `compute_diff(..., use_cache=False)` gives, which the cache then keeps.
  unfoldable pub apply_view : Call → Outcome Buckets → Site S → Outcome View × Site S
  unfolding ask_approval after_compare
  apply_view c live t =
      if needs_gate e c && not (gate_open c t.approvals)
      then ask_approval c t
      else after_compare c (compared c.dry_run live t.cached)
          (record t { cached = keep_live S live t.cached })
