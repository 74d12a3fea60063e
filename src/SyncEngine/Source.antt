-- ===== src/SyncEngine/Source.antt =====
-- A run of permission-sync/src/orchestrator/sync_engine.py whose source reads as empty: an unknown
-- `source_platform`, and a source that refuses to answer.
use fabric_unified_permissio.Base.{
  ◌≡◌, ◌≢◌, ◌⊎◌, inl, inr, refl, text_ne, false, List, [], none, ap, contains,
}
use fabric_unified_permissio.Base.{string_eq, ==_ne, ==_refl, String}
use fabric_unified_permissio.Base.Outcome.{Outcome, ok}
use fabric_unified_permissio.Base.Http.{Services}
use fabric_unified_permissio.Canonical.{CanonicalPermission, Key, key_eq}
use fabric_unified_permissio.Reconciler.Diff.{PermissionDiff, Draws, compute_diff}
use fabric_unified_permissio.Reconciler.Diff.Keys.{keys_of}
use fabric_unified_permissio.Discovery.UnityCatalog.{UnityCatalogDiscovery, discover_all}
use fabric_unified_permissio.Discovery.UnityCatalog.Laws.{AllRefuse, discover_all_refused}
use fabric_unified_permissio.Discovery.Snowflake
use fabric_unified_permissio.Discovery.Snowflake.{Vault, SnowflakeDiscovery}
use fabric_unified_permissio.Discovery.Snowflake.Laws.{Unreachable, discover_all-Unreachable}
use fabric_unified_permissio.Base.{ℕ, ◌+◌, subst, sym, length}
use fabric_unified_permissio.Base.Json.{end}
use fabric_unified_permissio.Base.Outcome.{raised, is_ok}
use fabric_unified_permissio.Reconciler.Diff.{empty_diff}
use fabric_unified_permissio.Reconciler.Diff.Keys.{nothing_desired}
use fabric_unified_permissio.Reconciler.Resolver.{resolve_all}
use fabric_unified_permissio.Observability.{inc}
use fabric_unified_permissio.Weaver.{ApplyResult, no_result, dispatch_all, apply_diff}
use fabric_unified_permissio.SyncEngine.{
  Config, Summary, Sides, Engine, after_discovery, emit_all, apply_and_report, after_dispatch,
  sides, discover_source, finish, with_winners, add_winners, reconcile, full_reconcile,
}

-- The diff of a run over what the two discoveries returned.
abbrev pub run_diff :
    Config → Draws → List CanonicalPermission → List CanonicalPermission → PermissionDiff
run_diff c e source target =
    compute_diff e (sides c source target).current (sides c source target).desired

-- What is revoked has the keys of the target, and the run does to the services what revoking these
-- permissions in turn does: it grants nothing, and it returns exactly if no revocation raises.
abbrev pub RevokesAll :
    (S : Services)
    → Config
    → List CanonicalPermission
    → S.State
    → Outcome Summary × Engine S
    → Type 0
RevokesAll S c target s run =
    (revoked : List CanonicalPermission) × (((k : Key)
        → contains (keys_of revoked) k ≡ contains (keys_of target) k)
      × ((run.1.desk.services ≡ (dispatch_all S c.weaver revoked "fabric" false end no_result s).1)
          × (is_ok run.0
              ≡ is_ok (dispatch_all S c.weaver revoked "fabric" false end no_result s).0)))

-- The source discovery of an engine whose resolver is new: its cache is empty.
abbrev pub unity_catalog_source :
    (S : Services) → UnityCatalogDiscovery → S.State → Outcome (List CanonicalPermission)
unity_catalog_source S d s = (discover_all S d s none []).0

abbrev pub snowflake_source :
    (S : Services) → Vault S → SnowflakeDiscovery → S.State → Outcome (List CanonicalPermission)
snowflake_source S v d s = (Snowflake.discover_all S v d ([], s)).0

-- A source that has nothing to say: a platform that the engine does not know, a Unity Catalog
-- whose workspaces all refuse the list of their catalogs with 401 or 403, or a Snowflake none of
-- whose accounts can be connected to.
abbrev pub IsSilent :
    (S : Services)
    → Config
    → UnityCatalogDiscovery
    → Vault S
    → SnowflakeDiscovery
    → S.State
    → Type 0
IsSilent S c u v d s =
    ((c.source_platform ≢ "unity_catalog") × (c.source_platform ≢ "snowflake"))
    ⊎ (((c.source_platform ≡ "unity_catalog") × AllRefuse S u s)
        ⊎ ((c.source_platform ≡ "snowflake") × Unreachable S v d s))

silent_source :
    (S : Services) (c : Config) (u : UnityCatalogDiscovery) (v : Vault S) (d : SnowflakeDiscovery)
    (s : S.State)
    → IsSilent S c u v d s
    → discover_source S c (unity_catalog_source S u) (snowflake_source S v d) s ≡ ok []
unfolding discover_source
silent_source S c u v d s (inl (not_uc, not_sf)) =
    rw (==_ne c.source_platform "unity_catalog" not_uc, ==_ne c.source_platform "snowflake" not_sf)
silent_source S c u v d s (inr (inl (uc, h))) =
    rw (uc, ==_refl {A = String} "unity_catalog") (ap (λ r. r.0) (discover_all_refused S u s [] h))
silent_source S c u v d s (inr (inr (sf, h))) =
    rw
      (
        sf,
        ==_refl {A = String} "snowflake",
        ==_ne "snowflake" "unity_catalog" (text_ne "snowflake" "unity_catalog" refl),
      )
      (ap (λ r. r.0) (discover_all-Unreachable S v d ([], s) h))

module _ (S : Services) (c : Config) (e : Draws) (n : ℕ) where
  towards_fabric :
      (target : List CanonicalPermission)
      → c.direction ≢ "fabric_to_source"
      → sides c [] target ≡ record { desired = []; current = target; target_platform = "fabric" }
  unfolding sides
  towards_fabric target towards = rw (==_ne c.direction "fabric_to_source" towards) refl

  -- What the run does to the services, and whether it returns, is what `apply_diff` did.
  abbrev AsApplied : Outcome ApplyResult × S.State → Outcome Summary × Engine S → Type 0
  AsApplied x run = (run.1.desk.services ≡ x.1) × (is_ok run.0 ≡ is_ok x.0)

  after_dispatch-AsApplied :
      (n_source n_target : ℕ) (sd : Sides) (diff : PermissionDiff) (g : Engine S)
      (x : Outcome ApplyResult × S.State)
      → c.onesync_enabled ≡ false
      → AsApplied x (after_dispatch S c e n n_source n_target sd diff g x)
  unfolding after_dispatch finish
  after_dispatch-AsApplied n_source n_target sd diff g (ok r, t) off = rw off (refl, refl)
  after_dispatch-AsApplied n_source n_target sd diff g (raised y, t) off = (refl, refl)

  -- The revocations of an empty source are all that a reconcile does to the services.
  empty_source-RevokesAll :
      (target : List CanonicalPermission) (g : Engine S)
      → c.direction ≢ "fabric_to_source"
      → c.onesync_enabled ≡ false
      → RevokesAll S c target g.desk.services (reconcile S c e n [] target g)
  unfolding reconcile apply_and_report with_winners add_winners resolve_all apply_diff dispatch_all
      emit_all
  empty_source-RevokesAll target g towards off =
      let (revoked, (same, held)) = nothing_desired e target in
      let x = dispatch_all S c.weaver revoked "fabric" false end no_result g.desk.services in
      let run : Sides → PermissionDiff → Outcome Summary × Engine S =
        λ sd diff. apply_and_report S c e n 0 (length target) sd diff g in
      let sd : Sides = record { desired = []; current = target; target_platform = "fabric" } in
      let over_diff : AsApplied x (run sd (record empty_diff { to_revoke = revoked })) =
        after_dispatch-AsApplied 0 (length target) sd (record empty_diff { to_revoke = revoked })
          (record g {
            metrics =
                inc "conflict_total" 0
                  (inc "permissions_discovered_total" (0 + length target) g.metrics);
          })
          x off in
      (
        revoked,
        (
          held,
          subst (λ z. AsApplied x (run z (compute_diff e z.current z.desired)))
              (sym (towards_fabric target towards))
              (subst (λ d. AsApplied x (run sd d)) (sym same) over_diff),
        ),
      )

  -- A full reconcile towards Fabric, with OneSync off, whose source is silent (an unknown platform, a
  -- Unity Catalog whose workspaces, as far as the account lists any, all answer 401 or 403, or a
  -- Snowflake that refuses every connection), where the discovery of Fabric returns. It takes the
  -- source for empty: it grants nothing and dispatches a revocation of every key of Fabric, in turn
  -- until one raises. The services are as these revocations leave them, and the run returns exactly
  -- if none of them raises.
  pub silent_source-RevokesAll :
      (u : UnityCatalogDiscovery) (v : Vault S) (d : SnowflakeDiscovery)
      (fabric : S.State → Outcome (List CanonicalPermission)) (g : Engine S)
      (target : List CanonicalPermission)
      → c.direction ≢ "fabric_to_source"
      → c.onesync_enabled ≡ false
      → IsSilent S c u v d g.desk.services
      → fabric g.desk.services ≡ ok target
      → RevokesAll S c target g.desk.services
          (full_reconcile S c e n (unity_catalog_source S u) (snowflake_source S v d) fabric g)
  unfolding full_reconcile after_discovery
  silent_source-RevokesAll u v d fabric g target towards off silent found =
      subst
        (λ o.
          RevokesAll S c target g.desk.services
            (after_discovery S c e n o (fabric g.desk.services) g))
        (sym (silent_source S c u v d g.desk.services silent))
        (subst (λ o. RevokesAll S c target g.desk.services (after_discovery S c e n (ok []) o g))
          (sym found) (empty_source-RevokesAll target g towards off))
