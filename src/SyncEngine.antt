-- ===== src/SyncEngine.antt =====
-- permission-sync/src/orchestrator/sync_engine.py: one full reconcile.
pub mod Strategy
pub mod Source
pub mod Apart
use fabric_unified_permissio.Base.{ℕ, ◌+◌, String, Bool, List, [], ◌∷◌, ◌++◌}
use fabric_unified_permissio.Base.{◌==◌, string_eq, if◌then◌else◌, contains, length}
use fabric_unified_permissio.Base.Json.{str, bool, Fields, end, field}
use fabric_unified_permissio.Base.Outcome.{Outcome, ok, raised, ◌>>=◌}
use fabric_unified_permissio.Base.Http.{Services}
use fabric_unified_permissio.Canonical.{CanonicalPermission, Key, key, key_eq}
use fabric_unified_permissio.Reconciler.Diff.{
  PermissionDiff, PermissionConflict, Draws, compute_diff,
}
use fabric_unified_permissio.Reconciler.Diff.Keys.{keys_of}
use fabric_unified_permissio.Reconciler.Resolver.{ConflictResolver, Desk, resolve_all}
use fabric_unified_permissio.Observability.{AuditLogger, emit, close, Metrics, inc, set}
use fabric_unified_permissio.Weaver.{PolicyWeaverClient, ApplyResult, apply_diff}
use fabric_unified_permissio.OneSync.{OneSyncClient, run_onesync}

-- What the engine reads from its settings.
pub record Config : Type 0 where
  pub dry_run : Bool
  pub direction : String
  pub source_platform : String
  pub resolver : ConflictResolver
  pub weaver : PolicyWeaverClient
  pub onesync_enabled : Bool
  pub onesync : OneSyncClient
  -- The direction that the OneSync orchestrator reads, whose default is another one.
  pub onesync_direction : String

-- `desired, current, target_platform`
pub record Sides : Type 0 where
  pub desired : List CanonicalPermission
  pub current : List CanonicalPermission
  pub target_platform : String

pub sides : Config → List CanonicalPermission → List CanonicalPermission → Sides
sides c source target =
    if c.direction == "fabric_to_source"
    then record { desired = target; current = source; target_platform = c.source_platform }
    else record { desired = source; current = target; target_platform = "fabric" }

-- `for w in winners: if w.key() not in existing_grant_keys`. The keys are read before the loop.
pub add_winners :
    List Key → List CanonicalPermission → List CanonicalPermission → List CanonicalPermission
add_winners existing grants [] = grants
add_winners existing grants (w ∷ ws) =
    add_winners existing (if contains existing (key w) then grants else grants ++ (w ∷ [])) ws

pub with_winners : PermissionDiff → List CanonicalPermission → PermissionDiff
unfolding add_winners
with_winners diff winners = record diff {
  to_grant = add_winners (keys_of diff.to_grant) diff.to_grant winners;
}

pub record Summary : Type 0 where
  pub run_id : String
  pub direction : String
  pub source_platform : String
  pub target_platform : String
  pub source_count : ℕ
  pub target_count : ℕ
  pub to_grant : ℕ
  pub to_revoke : ℕ
  pub conflicts : ℕ
  pub granted : ℕ
  pub revoked : ℕ
  pub skipped : ℕ
  pub errors : ℕ
  pub onesync_results : ℕ
  pub dry_run : Bool

abbrev conflict_fields : PermissionConflict → Fields
conflict_fields c = field "action" (str "conflict") (
    field "principal" (str c.principal_entra_id) (
      field "securable" (str c.securable_fqn) (
        field "source_access_class" (str c.source_access_class)
          (field "target_access_class" (str c.target_access_class) end))))

abbrev change_fields : String → Bool → String → CanonicalPermission → Fields
change_fields action dry_run target p = field "action" (str action) (
    field "dry_run" (bool dry_run) (
      field "principal" (str p.principal_entra_id) (
        field "securable" (str p.securable_fqn)
          (field "access_class" (str p.access_class) (field "target_platform" (str target) end)))))

-- `for x in xs: self.audit.emit(...)`
pub emit_all : {A : Type 0} → Draws → (A → Fields) → List A → AuditLogger → AuditLogger
emit_all e f [] a = a
emit_all e f (x ∷ xs) a = emit_all e f xs (emit e (f x) a)

module _ (S : Services) where
  pub record Engine : Type 0 where
    pub desk : Desk S
    pub audit : AuditLogger
    pub metrics : Metrics

  -- `_discover_source_sync`, over the two discoveries.
  pub discover_source :
      Config
      → (S.State → Outcome (List CanonicalPermission))
      → (S.State → Outcome (List CanonicalPermission))
      → S.State
      → Outcome (List CanonicalPermission)
  discover_source c unity_catalog snowflake s =
      if c.source_platform == "unity_catalog"
      then unity_catalog s
      else if c.source_platform == "snowflake"
      then snowflake s
      else ok []

  -- What stands after `apply_diff` has returned.
  finish :
      Config
      → Draws
      → ℕ
      → ℕ
      → Sides
      → PermissionDiff
      → ℕ
      → ApplyResult
      → Engine
      → S.State
      → Outcome Summary × Engine
  finish c e n_source n_target sd diff duration applied g s =
      let metrics = inc "permissions_skipped_total" (length applied.skipped) (
        inc "permissions_revoked_total" (length applied.revoked)
          (inc "permissions_granted_total" (length applied.granted) g.metrics)) in
      let grants =
        emit_all e (change_fields "grant" c.dry_run sd.target_platform) diff.to_grant g.audit in
      let audit =
        emit_all e (change_fields "revoke" c.dry_run sd.target_platform) diff.to_revoke grants in
      let (results, t) = run_onesync S c.onesync c.dry_run c.onesync_direction s in
      (
        ok (record {
          run_id = audit.run_id;
          direction = c.direction;
          source_platform = c.source_platform;
          target_platform = sd.target_platform;
          source_count = n_source;
          target_count = n_target;
          to_grant = length diff.to_grant;
          to_revoke = length diff.to_revoke;
          conflicts = length diff.conflicts;
          granted = length applied.granted;
          revoked = length applied.revoked;
          skipped = length applied.skipped;
          errors = length applied.errors;
          onesync_results = if c.onesync_enabled then length results else 0;
          dry_run = c.dry_run;
        }),
        record {
          desk = record g.desk { services = if c.onesync_enabled then t else s };
          audit = close audit;
          metrics = set "reconcile_duration_seconds" duration metrics;
        },
      )

  -- An exception of `apply_diff` ends the run: what was sent before it stays.
  after_dispatch :
      Config
      → Draws
      → ℕ
      → ℕ
      → ℕ
      → Sides
      → PermissionDiff
      → Engine
      → Outcome ApplyResult × S.State
      → Outcome Summary × Engine
  unfolding finish
  after_dispatch c e duration n_source n_target sd full g (ok r, s) =
      finish c e n_source n_target sd full duration r g s
  after_dispatch c e duration n_source n_target sd full g (raised x, s) =
      (raised x, record g { desk = record g.desk { services = s } })

  -- The diff is known: resolve, apply, report.
  apply_and_report :
      Config → Draws → ℕ → ℕ → ℕ → Sides → PermissionDiff → Engine → Outcome Summary × Engine
  unfolding after_dispatch
  apply_and_report c e duration n_source n_target sd diff g =
      let metrics =
        inc "conflict_total" (length diff.conflicts)
          (inc "permissions_discovered_total" (n_source + n_target) g.metrics) in
      let audit = emit_all e conflict_fields diff.conflicts g.audit in
      let (winners, desk) = resolve_all S e c.resolver diff.conflicts [] g.desk in
      let full = with_winners diff winners in
      after_dispatch c e duration n_source n_target sd full
        (record { desk = desk; audit = audit; metrics = metrics })
        (apply_diff S c.weaver full sd.target_platform end desk.services)

  -- Both sides are known.
  pub reconcile :
      Config
      → Draws
      → ℕ
      → List CanonicalPermission
      → List CanonicalPermission
      → Engine
      → Outcome Summary × Engine
  unfolding apply_and_report
  reconcile c e duration source target g =
      let sd = sides c source target in
      apply_and_report c e duration (length source) (length target) sd
        (compute_diff e sd.current sd.desired) g

  -- An exception in either discovery ends the run before anything is changed.
  after_discovery :
      Config
      → Draws
      → ℕ
      → Outcome (List CanonicalPermission)
      → Outcome (List CanonicalPermission)
      → Engine
      → Outcome Summary × Engine
  unfolding reconcile
  after_discovery c e duration (raised x) target g = (raised x, g)
  after_discovery c e duration (ok source) (raised x) g = (raised x, g)
  after_discovery c e duration (ok source) (ok target) g = reconcile c e duration source target g

  pub full_reconcile :
      Config
      → Draws
      → ℕ
      → (S.State → Outcome (List CanonicalPermission))
      → (S.State → Outcome (List CanonicalPermission))
      → (S.State → Outcome (List CanonicalPermission))
      → Engine
      → Outcome Summary × Engine
  unfolding after_discovery discover_source
  full_reconcile c e duration unity_catalog snowflake fabric g =
      after_discovery c e duration (discover_source c unity_catalog snowflake g.desk.services)
        (fabric g.desk.services) g
