-- ===== src/Tests/Sync.antt =====
-- The theorems about permission-sync at concrete data.
use fabric_unified_permissio.Base.{◌≡◌, refl, true, false, [], ◌∷◌, contains}
use fabric_unified_permissio.Base.{All, text_ne, inl, string_eq}
use fabric_unified_permissio.Base.Json.{end}
use fabric_unified_permissio.Base.Text.{has_char, upper}
use fabric_unified_permissio.Canonical.{key, key_eq}
use fabric_unified_permissio.Reconciler.Diff.{compute_diff}
use fabric_unified_permissio.Reconciler.Diff.Keys.{keys_of, held_after, compute_diff_reconciles}
use fabric_unified_permissio.Reconciler.Diff.Conflicts.{IsGenuine, compute_diff_conflicts}
use fabric_unified_permissio.Reconciler.Diff.Conflicts.{
  InConflictWithItself, compute_diff_two_classes,
}
use fabric_unified_permissio.Writers.Snowflake.{statement, safe_ident, grantee_type, is_ident}
use fabric_unified_permissio.Writers.Snowflake.Safe.{statement-Lacks}
use fabric_unified_permissio.Weaver.{no_result, dispatch, dispatch_all}
use fabric_unified_permissio.Weaver.DryRun.{Quiet, dry_grants-Quiet, dispatch-with_dry, with_dry}
use fabric_unified_permissio.SyncEngine.Strategy.{reconcile_any_strategy, applied_diff}
use fabric_unified_permissio.Tests.Data.{recorder, draws, reads, writes, other, target_wins, desk}
use fabric_unified_permissio.Tests.Data.{client}

reconcile_any_strategy_example :
    held_after
      (reads ∷ [])
      (applied_diff recorder draws target_wins (reads ∷ []) (writes ∷ []) desk)
      (key reads)
    ≡ contains (keys_of (writes ∷ [])) (key reads)
reconcile_any_strategy_example =
    reconcile_any_strategy recorder draws target_wins (reads ∷ []) (writes ∷ []) desk (key reads)

compute_diff_reconciles_example :
    held_after (reads ∷ []) (compute_diff draws (reads ∷ []) (writes ∷ other ∷ [])) (key other)
    ≡ contains (keys_of (writes ∷ other ∷ [])) (key other)
compute_diff_reconciles_example =
    compute_diff_reconciles draws (reads ∷ []) (writes ∷ other ∷ []) (key other)

compute_diff_conflicts_example :
    All
      (IsGenuine (reads ∷ []) (writes ∷ []))
      (compute_diff draws (reads ∷ []) (writes ∷ [])).conflicts
compute_diff_conflicts_example = compute_diff_conflicts draws (reads ∷ []) (writes ∷ [])

compute_diff_two_classes_example : InConflictWithItself draws (reads ∷ writes ∷ []) reads
compute_diff_two_classes_example =
    compute_diff_two_classes draws reads writes refl (text_ne "DATA_READ" "DATA_WRITE" refl)

dry_grants-Quiet_example :
    Quiet
      (key reads ∷ key other ∷ [])
      no_result
      []
      (dispatch_all recorder client (reads ∷ other ∷ []) "fabric" true end no_result [])
dry_grants-Quiet_example =
    dry_grants-Quiet recorder client (reads ∷ other ∷ []) end no_result [] refl

dispatch-with_dry_example :
    dispatch recorder (with_dry recorder true client) reads "fabric" false end no_result []
    ≡ dispatch recorder client reads "fabric" false end no_result []
dispatch-with_dry_example =
    dispatch-with_dry recorder true client reads "fabric" false end no_result [] (inl refl)

statement-Lacks_example : has_char 59 "GRANT SELECT ON TABLE c.s.t TO USER u1" ≡ false
unfolding statement safe_ident is_ident grantee_type upper string_eq
statement-Lacks_example =
    statement-Lacks reads "SELECT" "u1" true 59 "GRANT SELECT ON TABLE c.s.t TO USER u1" (inl refl)
      refl
