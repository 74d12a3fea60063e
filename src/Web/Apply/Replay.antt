-- ===== src/Web/Apply/Replay.antt =====
-- One approval admits one apply, and a comparison that failed admits none
-- (app/routers/pairings.py with app/services/approvals.py and app/services/pair_diff.py).
use fabric_unified_permissio.Base.{
  ℕ, String, ◌<>◌, Bool, true, false, not, ◌&&◌, ◌≡◌, refl, List, ◌++◌,
}
use fabric_unified_permissio.Base.{
  Option, none, some, is_some, ◌==◌, string_eq, any_of, ==_refl, ==_ne, text_ne,
}
use fabric_unified_permissio.Base.{if_rule, if_true, if_false, arith, ◌∙◌, sym}
use mathlib.Core.Bool.{true≢false}
use fabric_unified_permissio.Base.Http.{Services}
use fabric_unified_permissio.Base.Text.{is_empty, join, append-is_empty}
use fabric_unified_permissio.Base.Outcome.{Outcome, ok, raised, is_ok}
use fabric_unified_permissio.Approvals.{Approval, get, decide, mark_executed}
use fabric_unified_permissio.Approvals.Laws.{get-mark_executed, get-decide}
use fabric_unified_permissio.Audit.{is_error}
use fabric_unified_permissio.PairApply.Clients.{Clients, Hub}
use fabric_unified_permissio.PairApply.DataRoles.Write.{Identity}
use fabric_unified_permissio.PairApply.Layers.{ApplyReport}
use fabric_unified_permissio.PairDiff.{DiffRow}
use fabric_unified_permissio.PairDiff.Compare.{Buckets, compare_sides, error_of}
use fabric_unified_permissio.Web.Apply.{
  Call, Env, View, approval_requested, page, Site, Compared, Collectors,
}
use fabric_unified_permissio.Web.Apply.{
  wanted, started, allows, gate_open, needs_gate, live_diff, compared,
}
use fabric_unified_permissio.Web.Apply.{
  finish, after_apply, run_rows, after_start, after_compare, ask_approval, apply_view,
}
use fabric_unified_permissio.Web.Apply.Gate.{apply_view-Untouched}

not_approved :
    (pairing_id : String) (a : Approval)
    → allows pairing_id (some (record a { status = "executed" })) ≡ false
not_approved pairing_id a =
    rw (==_ne {A = String} "executed" "approved" (text_ne "executed" "approved" refl)) refl

-- An executed request opens no gate.
executed_gate :
    (id pairing_id : String) (table : List Approval)
    → allows pairing_id (get id (mark_executed id table)) ≡ false
executed_gate id pairing_id table =
    get-mark_executed (λ o. allows pairing_id o ≡ false) id refl (not_approved pairing_id) table

-- A page with a report: the apply was run.
abbrev pub reported : Outcome View → Bool
reported (ok (page p)) = is_some p.report
reported (ok (approval_requested id)) = false
reported (raised x) = false

module _ (S : Services) (i : Identity) (C : Clients S) (e : Env) where
  -- If the outcome is a page with a report, the approval of the call is marked.
  abbrev Marks : Call → List Approval → Outcome View × Site S → Type 0
  Marks c table st = reported st.0 ≡ true → st.1.approvals ≡ mark_executed c.approval_id table

  finish_silent :
      (c : Call) (rows : List DiffRow) (error audit_error start_id : Option String) (t : Site S)
      (o : Option String)
      → e.end_failure ≡ o
      → reported (finish S i C e c rows none error audit_error start_id t).0 ≡ false
  unfolding finish
  finish_silent c rows error audit_error start_id t none h = rw h refl
  finish_silent c rows error audit_error start_id t (some x) h = rw h refl

  pub finish_approvals :
      (c : Call) (rows : List DiffRow) (report : Option ApplyReport)
      (error audit_error start_id : Option String) (t : Site S) (o : Option String)
      → e.end_failure ≡ o
      → (finish S i C e c rows report error audit_error start_id t).1.approvals ≡ t.approvals
  unfolding finish
  finish_approvals c rows report error audit_error start_id t none h = rw h refl
  finish_approvals c rows report error audit_error start_id t (some x) h = rw h refl

  finish-Marks :
      (c : Call) (table : List Approval) (rows : List DiffRow)
      (error audit_error start_id : Option String) (t : Site S)
      → Marks c table (finish S i C e c rows none error audit_error start_id t)
  finish-Marks c table rows error audit_error start_id t h =
      absurd
        (true≢false (sym h ∙ finish_silent c rows error audit_error start_id t e.end_failure refl))

  after_apply-Marks :
      (c : Call) (rows : List DiffRow) (t : Site S) (r : Outcome ApplyReport × Hub S)
      → needs_gate e c ≡ true
      → e.mark_failure ≡ none
      → Marks c t.approvals (after_apply S i C e c rows t r)
  unfolding after_apply
  after_apply-Marks c rows t (raised x, h) hg hm hr = absurd (true≢false (sym hr))
  after_apply-Marks c rows t (ok report, h) hg hm hr =
      finish_approvals c rows _ _ _ _ _ e.end_failure refl
      ∙ rw hm
          (if_true (λ l. l ≡ mark_executed c.approval_id t.approvals) (needs_gate e c) _ hg refl)

  after_start-Marks :
      (c : Call) (rows : List DiffRow) (t : Site S) (o : Option String)
      → needs_gate e c ≡ true
      → e.mark_failure ≡ none
      → Marks c t.approvals (after_start S i C e c rows o t)
  unfolding after_start run_rows
  after_start-Marks c rows t none hg hm =
      after_apply-Marks c rows (started S i C e c rows t) _ hg hm
  after_start-Marks c rows t (some x) hg hm = finish-Marks c t.approvals rows _ _ _ t

  after_compare-Marks :
      (c : Call) (d : Compared) (t : Site S)
      → needs_gate e c ≡ true
      → e.mark_failure ≡ none
      → Marks c t.approvals (after_compare S i C e c d t)
  unfolding after_compare
  after_compare-Marks c d t hg hm =
      let real : c.dry_run ≡ false = ground arith in
      if_rule (Marks c t.approvals) (is_error d.error) (finish-Marks c t.approvals _ _ _ _ t) (
        if_false (Marks c t.approvals) c.dry_run _ real
          (after_start-Marks c _ t e.start_failure hg hm))

  apply_view-Marks :
      (c : Call) (live : Outcome Buckets) (t : Site S)
      → needs_gate e c ≡ true
      → e.mark_failure ≡ none
      → Marks c t.approvals (apply_view S i C e c live t)
  unfolding apply_view ask_approval
  apply_view-Marks c live t hg hm =
      if_rule (Marks c t.approvals) (needs_gate e c && not (gate_open c t.approvals))
        (λ h. absurd (true≢false (sym h))) (after_compare-Marks c _ _ hg hm)

  -- An approval admits one apply, if the database does not raise when the approval is marked. Where
  -- approvals are required, once a real apply has been run to its report, no later request with the
  -- same approval changes the services or the identity queue, whatever it selects and in whichever
  -- direction.
  pub one_apply_per_approval :
      (c later : Call) (live live_later : Outcome Buckets) (t : Site S)
      → needs_gate e c ≡ true
      → e.mark_failure ≡ none
      → reported (apply_view S i C e c live t).0 ≡ true
      → later.approval_id ≡ c.approval_id
      → (apply_view S i C e later live_later (apply_view S i C e c live t).1).1.hub
        ≡ (apply_view S i C e c live t).1.hub
  one_apply_per_approval c later live live_later t hg hm hr hid =
      let u = (apply_view S i C e c live t).1 in
      let shut : allows later.pairing_id (get later.approval_id u.approvals) ≡ false =
        rw (hid, apply_view-Marks c live t hg hm hr)
          (executed_gate c.approval_id later.pairing_id t.approvals) in
      apply_view-Untouched S i C e later live_later u (ground arith)

  -- A request that was turned away at the gate passes it once an approver has accepted the request
  -- that it made, if the identifier drawn for that request is new. This is so for every later call
  -- that names the pairing and that identifier: its direction and its rows are not compared with the
  -- ones that were approved.
  pub approved_gate_opens :
      (c later : Call) (live : Outcome Buckets) (t : Site S) (by : String) (now : ℕ)
      → (needs_gate e c && not (gate_open c t.approvals)) ≡ true
      → any_of (λ a. a.id == e.new_approval_id) t.approvals ≡ false
      → is_empty e.new_approval_id ≡ false
      → later.approval_id ≡ e.new_approval_id
      → later.pairing_id ≡ c.pairing_id
      → gate_open later
          (decide e.new_approval_id true by now (apply_view S i C e c live t).1.approvals).1
        ≡ true
  unfolding apply_view ask_approval
  approved_gate_opens c later live t by now hg hn he hid hp =
      let found =
        get-decide e.new_approval_id by true e.now now (wanted S i C e c) t.approvals hn in
      if_true {A = Outcome View × Site S}
        (λ st. gate_open later (decide e.new_approval_id true by now st.1.approvals).1 ≡ true) _ _
        hg
        (rw (hid, hp, he, found) (rw (==_refl {A = String} "approved", ==_refl c.pairing_id) refl))

joined_sides :
    (dry : Bool) (b : Buckets) (cached : Option Buckets) (dbx fab : Outcome (List DiffRow))
    → b.errors ≡ (error_of "DBX" dbx ++ error_of "Fabric" fab)
    → (is_ok dbx && is_ok fab) ≡ false
    → is_error (compared dry (ok b) cached).error ≡ true
unfolding compared join
joined_sides dry b cached (ok r) (ok q) h k = absurd (true≢false k)
joined_sides dry b cached (ok r) (raised y) h k = rw (h, append-is_empty "Fabric" (": " <> y)) refl
joined_sides dry b cached (raised x) (ok q) h k = rw (h, append-is_empty "DBX" (": " <> x)) refl
joined_sides dry b cached (raised x) (raised y) h k =
    rw
      (
        h,
        append-is_empty ("DBX" <> ": " <> x) (" | " <> "Fabric" <> ": " <> y),
        append-is_empty "DBX" (": " <> x),
      )
      refl

module _ (S : Services) (i : Identity) (C : Clients S) (e : Env) (K : Collectors S) where
  -- If the permissions of Databricks or of Fabric cannot be read, an apply of the pairing changes
  -- neither the services nor the identity queue. `compute_diff` itself does not raise then: it puts
  -- the exception into the errors of its result, and the route stops at them.
  pub failed_side-Untouched :
      (c : Call) (t : Site S)
      → (is_ok (K.collect_dbx c.pairing t.hub.services)
          && is_ok (K.collect_fabric c.pairing t.hub.services))
        ≡ false
      → (apply_view S i C e c (ok (live_diff S K c.pairing t.hub.services)) t).1.hub ≡ t.hub
  unfolding live_diff compare_sides
  failed_side-Untouched c t h =
      let wrong =
        joined_sides c.dry_run (live_diff S K c.pairing t.hub.services) t.cached
          (K.collect_dbx c.pairing t.hub.services) (K.collect_fabric c.pairing t.hub.services) refl
          h in
      apply_view-Untouched S i C e c (ok (live_diff S K c.pairing t.hub.services)) t
        (rw wrong (ground arith))
