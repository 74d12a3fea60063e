-- ===== src/Web/Apply/Gate.antt =====
-- What the apply route leaves alone (app/routers/pairings.py).
use fabric_unified_permissio.Base.{
  String, Bool, true, false, not, ◌&&◌, ◌≡◌, refl, List, Option, none, some, ◌||◌, is_some,
}
use mathlib.Core.Bool.{true≢false}
use fabric_unified_permissio.Base.{if_true, if_false, arith, ◌∙◌, sym, subst, Bool-cases, inl, inr}
use fabric_unified_permissio.Base.Http.{Services}
use fabric_unified_permissio.Base.Outcome.{Outcome, ok, raised}
use fabric_unified_permissio.Audit.{is_error}
use fabric_unified_permissio.PairApply.Clients.{Clients, Hub}
use fabric_unified_permissio.PairApply.DataRoles.Write.{Identity}
use fabric_unified_permissio.PairApply.Rows.{apply_rows}
use fabric_unified_permissio.PairApply.Rows.Laws.{apply_rows-Untouched}
use fabric_unified_permissio.PairDiff.{DiffRow}
use fabric_unified_permissio.PairDiff.Compare.{Buckets}
use fabric_unified_permissio.Web.Apply.{Call, Env, View, Site, Compared, gate_open, needs_gate}
use fabric_unified_permissio.Web.Apply.{
  finish, after_apply, run_rows, after_start, after_compare, ask_approval, apply_view, compared,
}
use fabric_unified_permissio.PairApply.Layers.{ApplyReport}

module _ (S : Services) (i : Identity) (C : Clients S) (e : Env) where
  -- The services and the identity queue are as they were.
  abbrev pub SameHub : Site S → Outcome View × Site S → Type 0
  SameHub t st = st.1.hub ≡ t.hub

  finish_hub :
      (c : Call) (rows : List DiffRow) (report : Option ApplyReport)
      (error audit_error start_id : Option String) (t : Site S) (o : Option String)
      → e.end_failure ≡ o
      → (finish S i C e c rows report error audit_error start_id t).1.hub ≡ t.hub
  unfolding finish
  finish_hub c rows report error audit_error start_id t none h = rw h refl
  finish_hub c rows report error audit_error start_id t (some x) h = rw h refl

  after_apply_hub :
      (c : Call) (rows : List DiffRow) (t : Site S) (r : Outcome ApplyReport × Hub S)
      → (after_apply S i C e c rows t r).1.hub ≡ r.1
  unfolding after_apply
  after_apply_hub c rows t (raised x, h) = refl
  after_apply_hub c rows t (ok report, h) = finish_hub c rows _ _ _ _ _ e.end_failure refl

  dry_rows :
      (c : Call) (rows : List DiffRow) (t : Site S)
      → c.dry_run ≡ true
      → SameHub t (run_rows S i C e c rows t)
  unfolding run_rows
  dry_rows c rows t h =
      after_apply_hub c rows t _
      ∙ subst (λ b. (apply_rows S i C e.now c.pairing rows c.direction b t.hub).1 ≡ t.hub) (sym h)
          (apply_rows-Untouched S i C e.now c.pairing c.direction rows t.hub)

  -- What a request must have to change anything: it is real, its gate is open or no gate is needed,
  -- the comparison came without an error and the start of the apply could be recorded.
  abbrev pub may_change : Call → Outcome Buckets → Site S → Bool
  may_change c live t =
      not c.dry_run
      && (not e.require_approval || gate_open c t.approvals)
      && not (is_error (compared c.dry_run live t.cached).error)
      && not (is_some e.start_failure)

  after_start_hub :
      (c : Call) (rows : List DiffRow) (t : Site S) (o : Option String)
      → is_some o ≡ true
      → SameHub t (after_start S i C e c rows o t)
  unfolding after_start
  after_start_hub c rows t (some x) h = finish_hub c rows _ _ _ _ _ e.end_failure refl
  after_start_hub c rows t none h = absurd (true≢false (sym h))

  after_compare_hub :
      (c : Call) (d : Compared) (t : Site S)
      → (not c.dry_run && not (is_error d.error) && not (is_some e.start_failure)) ≡ false
      → SameHub t (after_compare S i C e c d t)
  unfolding after_compare
  after_compare_hub c d t h = elim (Bool-cases (is_error d.error)) [
    | inl he ↦ if_true (SameHub t) _ _ he (finish_hub c _ _ _ _ _ t e.end_failure refl)
    | inr he ↦ if_false (SameHub t) _ _ he (elim (Bool-cases c.dry_run) [
      | inl hd ↦ if_true (SameHub t) _ _ hd (dry_rows c _ t hd)
      | inr hd ↦ if_false (SameHub t) _ _ hd (after_start_hub c _ t e.start_failure (ground arith))
    ])
  ]

  -- A request that may not change anything leaves the services and the identity queue as they were:
  -- a dry run, a real apply without the approval it needs, a comparison that failed or has errors,
  -- or an audit log that cannot be written at the start.
  pub apply_view-Untouched :
      (c : Call) (live : Outcome Buckets) (t : Site S)
      → may_change c live t ≡ false
      → (apply_view S i C e c live t).1.hub ≡ t.hub
  unfolding apply_view ask_approval
  apply_view-Untouched c live t h =
      elim (Bool-cases (needs_gate e c && not (gate_open c t.approvals))) [
        | inl hg ↦ if_true (SameHub t) _ _ hg refl
        | inr hg ↦ if_false (SameHub t) _ _ hg (after_compare_hub c _ _ (ground arith))
      ]
