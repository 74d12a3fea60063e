-- ===== src/PairApply/Rows/Laws.antt =====
-- What `apply_rows` of app/services/pair_apply.py reports, and what its dry run leaves.
use fabric_unified_permissio.Base.{
  ℕ, ◌+◌, String, Bool, true, not, ◌≡◌, ◌⊎◌, refl, List, [], ◌∷◌, ◌++◌, length, length-append,
  if_rule, inl, inr, arith, ◌∙◌, subst, ◌==◌, string_eq,
}
use fabric_unified_permissio.Base.{if_true, ==_refl, ap, sym, if◌then◌else◌}
use fabric_unified_permissio.Base.Text.{is_empty}
use fabric_unified_permissio.Base.Outcome.{Outcome, ok, raised, and_then}
use fabric_unified_permissio.Base.Http.{Services}
use fabric_unified_permissio.PairApply.Layers.{ApplyAction, ApplyReport}
use fabric_unified_permissio.PairApply.DataRoles.Write.{Identity}
use fabric_unified_permissio.PairApply.Clients.{Pairing, Clients, Hub, Step}
use fabric_unified_permissio.PairApply.Clients.Laws.{One, Still}
use fabric_unified_permissio.PairApply.Constraint.Laws.{
  apply_constraint-One, apply_constraint-Still,
}
use fabric_unified_permissio.PairApply.ToFabric.Laws.{apply_to_fabric-One, apply_to_fabric-Still}
use fabric_unified_permissio.PairApply.ToDbx.Laws.{apply_to_dbx-One, apply_to_dbx-Still}
use fabric_unified_permissio.PairApply.Rows.{apply_row, apply_all, apply_rows}
use fabric_unified_permissio.PairDiff.{DiffRow}

module _ (S : Services) (i : Identity) (C : Clients S) (now : ℕ) (p : Pairing)
    (direction : String) where
  -- The report that is returned has `n` more actions.
  abbrev Adds : ApplyReport → ℕ → Outcome ApplyReport × Hub S → Type 0
  Adds r n (ok r', h) = length r'.actions ≡ length r.actions + n
  Adds r n (raised e, h) = Unit

  -- The services and the queue are as they were.
  abbrev pub Untouched : Hub S → Outcome ApplyReport × Hub S → Type 0
  Untouched h st = st.1 ≡ h

  apply_row-Still :
      (row : DiffRow) (h : Hub S) → Still S h (apply_row S i C now p direction row true h)
  unfolding apply_row
  apply_row-Still row h =
      if_rule (Still S h) (not (is_empty row.constraint_kind))
        (apply_constraint-Still S C p row direction h)
        (if_rule (Still S h) (direction == "dbx_to_fabric")
          (apply_to_fabric-Still S i C now p row h)
          (if_rule (Still S h) (direction == "fabric_to_dbx") (apply_to_dbx-Still S C p row h)
            refl))

  then_Still :
      (h : Hub S) (st : Step S) (f : List ApplyAction → Hub S → Outcome ApplyReport × Hub S)
      → Still S h st
      → ((xs : List ApplyAction) → Untouched h (f xs h))
      → Untouched h (and_then st f)
  then_Still h (ok xs, t) f e g = subst (λ u. Untouched h (f xs u)) (sym e) (g xs)
  then_Still h (raised x, t) f e g = e

  apply_all-Untouched :
      (rows : List DiffRow) (report : ApplyReport) (h : Hub S)
      → Untouched h (apply_all S i C now p direction true rows report h)
  unfolding apply_all
  apply_all-Untouched [] report h = refl
  apply_all-Untouched (row ∷ rows) report h =
      then_Still h (apply_row S i C now p direction row true h) _ (apply_row-Still row h)
        (λ xs. apply_all-Untouched rows (record report { actions = report.actions ++ xs }) h)

  -- A dry run leaves the services and the identity queue as they were, whatever the rows and the
  -- direction, and whether it returns or raises.
  pub apply_rows-Untouched :
      (rows : List DiffRow) (h : Hub S) → Untouched h (apply_rows S i C now p rows direction true h)
  unfolding apply_rows
  apply_rows-Untouched rows h = apply_all-Untouched rows _ h

  module _ (known : (direction ≡ "dbx_to_fabric") ⊎ (direction ≡ "fabric_to_dbx")) where
    by_direction :
        (x y z : Step S)
        → One S x
        → One S y
        → One S (
            if direction == "dbx_to_fabric"
            then x
            else if direction == "fabric_to_dbx"
            then y
            else z)
    by_direction x y z hx hy = elim known [
      | inl e ↦
          if_true (One S) (direction == "dbx_to_fabric") _
            (rw e (==_refl {A = String} "dbx_to_fabric")) hx
      | inr e ↦ if_rule (One S) (direction == "dbx_to_fabric") hx (
          if_true (One S) (direction == "fabric_to_dbx") _
            (rw e (==_refl {A = String} "fabric_to_dbx")) hy)
    ]

    apply_row-One :
        (row : DiffRow) (dry_run : Bool) (h : Hub S)
        → One S (apply_row S i C now p direction row dry_run h)
    unfolding apply_row
    apply_row-One row dry_run h =
        if_rule (One S) (not (is_empty row.constraint_kind))
          (apply_constraint-One S C p row direction dry_run h)
          (by_direction _ _ _ (apply_to_fabric-One S i C now p row dry_run h)
            (apply_to_dbx-One S C p row dry_run h))

    Adds-step :
        (r r' : ApplyReport) (n : ℕ) (o : Outcome ApplyReport × Hub S)
        → length r'.actions ≡ length r.actions + 1
        → Adds r' n o
        → Adds r (1 + n) o
    Adds-step r r' n (ok q, h) e g = omega arith
    Adds-step r r' n (raised x, h) e g = tt

    then_Adds :
        (r : ApplyReport) (n : ℕ) (st : Step S)
        (f : List ApplyAction → Hub S → Outcome ApplyReport × Hub S)
        → One S st
        → ((xs : List ApplyAction) (t : Hub S)
            → Adds (record r { actions = r.actions ++ xs }) n (f xs t))
        → Adds r (1 + n) (and_then st f)
    then_Adds r n (ok xs, t) f e g =
        Adds-step r (record r { actions = r.actions ++ xs }) n (f xs t)
          (length-append r.actions xs ∙ ap (λ m. length r.actions + m) e) (g xs t)
    then_Adds r n (raised x, t) f e g = tt

    apply_all-Adds :
        (dry_run : Bool) (rows : List DiffRow) (report : ApplyReport) (h : Hub S)
        → Adds report (length rows) (apply_all S i C now p direction dry_run rows report h)
    unfolding apply_all
    apply_all-Adds dry_run [] report h = omega arith
    apply_all-Adds dry_run (row ∷ rows) report h =
        subst
          (λ n. Adds report n (
            and_then (apply_row S i C now p direction row dry_run h) (λ more t.
              apply_all S i C now p direction dry_run rows
                (record report { actions = report.actions ++ more }) t)))
          (omega arith)
          (then_Adds report (length rows) (apply_row S i C now p direction row dry_run h) _
            (apply_row-One row dry_run h)
            (λ xs t.
              apply_all-Adds dry_run rows (record report { actions = report.actions ++ xs }) t))

    -- In either direction, a report that is returned has one action for each row, dry run or not.
    pub apply_rows_actions :
        (dry_run : Bool) (rows : List DiffRow) (h h' : Hub S) (r : ApplyReport)
        → apply_rows S i C now p rows direction dry_run h ≡ (ok r, h')
        → length r.actions ≡ length rows
    unfolding apply_rows
    apply_rows_actions dry_run rows h h' r e = omega (
      arith,
      subst (Adds (record { dry_run = dry_run; actions = [] }) (length rows)) e
          (apply_all-Adds dry_run rows (record { dry_run = dry_run; actions = [] }) h),
    )
