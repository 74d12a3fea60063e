-- ===== src/Audit/Laws.antt =====
-- What the audit record and the rollback plan say of an apply (app/services/audit_log.py,
-- app/services/rollback_service.py).
use fabric_unified_permissio.Base.{
  ℕ, ◌+◌, String, not, ◌&&◌, ◌≡◌, refl, List, [], ◌∷◌, Option, none, some,
}
use fabric_unified_permissio.Base.{
  ◌==◌, string_eq, if◌then◌else◌, length, arith, map, ap, ==_refl, ◌∙◌, count_of, eqb, text_ne,
}
use fabric_unified_permissio.PairApply.Layers.{ApplyAction, ApplyReport, n_ok, n_failed}
use fabric_unified_permissio.PairApply.Layers.Laws.{report_counts}
use fabric_unified_permissio.Audit.{
  ActionDetail, detail_of, AuditEvent, Applied, audit_event, write_db_event, find_event,
}
use fabric_unified_permissio.Audit.{
  reverse_action, reversals, RollbackPlan, build_plan, status_of, report_counts_of, plan_of,
  actions_of,
}

reverse_action_some :
    (a : ActionDetail) → length (reversals (a ∷ [])) ≡ (if a.ok && not a.skipped then 1 else 0)
unfolding reversals reverse_action
reverse_action_some a = ground arith

reversals_step :
    (a : ActionDetail) (rest : List ActionDetail)
    → length (reversals (a ∷ rest))
      ≡ (if a.ok && not a.skipped then 1 else 0) + length (reversals rest)
unfolding reversals reverse_action
reversals_step a rest = ground arith

reversals_count :
    (xs : List ApplyAction)
    → length (reversals (map detail_of xs)) ≡ count_of (λ a. a.ok && not a.skipped) xs
unfolding reversals
reversals_count [] = refl
reversals_count (a ∷ xs) =
    ground (arith, reversals_step (detail_of a) (map detail_of xs), reversals_count xs)

find-write :
    (e : AuditEvent) (table : List AuditEvent) → find_event e.id (write_db_event e table) ≡ some e
unfolding find_event write_db_event
find-write e [] = rw (==_refl e.id) refl
find-write e (f ∷ table) = ground (arith, find-write e table)

-- The steps of a plan, and none where there is no plan.
abbrev pub step_count : Option RollbackPlan → ℕ
step_count none = 0
step_count (some p) = length p.steps

plan_steps :
    (id : String) (e : AuditEvent)
    → step_count (plan_of id (some e)) ≡ (if e.dry_run then 0 else length (reversals e.detail))
unfolding plan_of
plan_steps id e = ground arith

detail_steps :
    (report : Option ApplyReport) (r : ApplyReport)
    → report ≡ some r
    → length (reversals (map detail_of (actions_of report))) ≡ n_ok r
detail_steps report r h = rw h (reversals_count r.actions)

-- The rollback plan of an apply that has been recorded with a report has one step for each action
-- that was applied, and none if it was a dry run.
pub build_plan_steps :
    (id event : String) (now : ℕ) (override : Option String) (a : Applied) (r : ApplyReport)
    (table : List AuditEvent)
    → a.report ≡ some r
    → step_count (build_plan id (write_db_event (audit_event id now event override a) table))
      ≡ (if a.dry_run then 0 else n_ok r)
unfolding build_plan audit_event
build_plan_steps id event now override a r table h =
    ap (λ o. step_count (plan_of id o)) (find-write (audit_event id now event override a) table)
    ∙ plan_steps id (audit_event id now event override a)
    ∙ ap (λ n. if a.dry_run then 0 else n) (detail_steps a.report r h)

-- Without an error, a report is recorded as completed exactly if none of its actions failed, and as
-- failed exactly if there are actions and all of them did.
pub status_of_report :
    (r : ApplyReport)
    → let status = status_of none (report_counts_of (some r)) in
      ((status == "completed") ≡ eqb (n_failed r) 0)
      × ((status == "failed") ≡ (not (eqb (n_failed r) 0) && eqb (n_failed r) (length r.actions)))
unfolding status_of report_counts_of
status_of_report r = (
  ground (arith, text_ne "partial" "completed" refl, text_ne "failed" "completed" refl),
  ground
      (arith, report_counts r, text_ne "completed" "failed" refl, text_ne "partial" "failed" refl),
)
