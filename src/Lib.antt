-- ===== src/Lib.antt =====
-- The permission hub: it mirrors permissions between Microsoft Fabric and Databricks Unity Catalog or
-- Snowflake. It has two programs. permission-sync/src is a batch engine: it discovers the permissions
-- of both sides, compares them, settles conflicts and writes what is missing. app is a web service:
-- it compares the two sides of one pairing, applies the rows that an operator selects, and keeps an
-- audit log, a queue of unknown principals and requests for approval.
--
-- The batch engine, permission-sync/src:
--   Canonical                  model/canonical_permission.py, CanonicalPermission and its key
--   Reconciler.Diff            reconciler/diff_engine.py, compute_diff
--   Reconciler.Resolver        reconciler/conflict_resolver.py, ConflictResolver
--   Translation.Normalizer     translation/privilege_normalizer.py, PrivilegeNormalizer
--   Translation.Identity       translation/identity_resolver.py, IdentityResolver and its cache
--   Discovery.UnityCatalog, Discovery.Fabric, Discovery.Snowflake
--                              discovery/, discover_all of the three discoveries, and two functions of
--                              auth/identity.py; Discovery.Found is what they share
--   Writers                    writers/, FabricWritePlanner, FabricWriter, UnityCatalogWriter and
--                              SnowflakeWriter
--   Weaver                     policy_weaver/policy_weaver_client.py, _dispatch and apply_diff
--   Observability, OneSync     observability/ and onesync/
--   SyncEngine                 orchestrator/sync_engine.py, full_reconcile over all of these;
--                              SyncEngine.Source and SyncEngine.Apart put the discoveries in
--
-- The web service, app/services:
--   PairApply.Layers           pair_apply.py, the tables, the planners and the report
--   PairApply.Graph            pair_apply.py, the lookups of principals and items
--   PairApply.DataRoles        pair_apply.py, _dar_role_matches, _grant_onelake_dar and
--                              _grant_fabric_workspace_role
--   PairApply.Clients          the operations that apply_rows calls, and what it may change
--   PairApply.Constraint, PairApply.ToFabric, PairApply.ToDbx, PairApply.Rows
--                              pair_apply.py, apply_rows branch by branch
--   PairApply.DasRole, PairApply.Grant
--                              pair_apply.py, the role that carries a constraint, and the grants of
--                              constraints on both sides
--   DbxClient, FabricRest      databricks_rest.py and fabric_rest.py, what the comparison reads
--   PairApply.UcSql            pair_apply.py, the SQL that gives Unity Catalog a constraint of Fabric
--   PairDiff                   pair_diff.py, the rows of a comparison and their merge
--   IdentityQueue, Approvals   identity_queue.py and approvals.py, their SQLite tables as lists
--   Audit                      audit_log.py and rollback_service.py
--   Drift                      drift_service.py, the drift between two snapshots
--   PairDiff.Compare           pair_diff.py, compute_diff from what both sides collected
--   PairDiff.UcGrants, PairDiff.UcRows, PairDiff.AbacRows, PairDiff.Collect
--                              pair_diff.py, the rows of grants, filters, masks and policies, and
--                              collect_dbx_rows
--   PairDiff.FabricRows        pair_diff.py, collect_fabric_rows
--   PairDiff.Constraints       pair_diff.py, the rows of constraints and the scopes of paths
--   FineGrained                fine_grained_policy.py: Scope, Predicate, Columns and Rows
--   Abac                       abac_resolver.py: Condition (tokens and their meaning), Parse (texts) and
--                              Resolve (tags, policies and targets)
--
-- The web routes, app/routers:
--   Web.Apply                  pairings.py, apply_view over the approvals, the comparison, apply_rows
--                              and the audit log; Web.Apply.Gate, Web.Apply.Replay and
--                              Web.Apply.Unmarked have the proofs
--   Web.Validation, Web.Route  validation.py and the front of apply_view
--   Pairings, Cache            app/services/pairings.py and cache.py, their stores as lists
--
-- Base holds what the modules share: decided equality, dictionaries in insertion order, JSON values,
-- Python's text methods, calls that may raise, and the services. The services are a record with an
-- unknown state: a read answers from it, a request may change it, so what a function does to the
-- world is the state it returns. Tokens and the signing of requests belong to the services.
-- Parameters are also sha256, json.dumps, json.loads, uuid4 and the clock, Python's compile and
-- eval (for the texts that are no tag condition, or one with deep parentheses), the names of the
-- secrets in the vault, the reading of governed tags on a warehouse, the client that runs
-- statements there, and the clients of PairApply.Clients, whose operations on constraints
-- PairApply.Grant fills. Base.Scan has the regular expressions.
--
-- A loop over a list is a recursion on it. Two loops follow the pages of a service. The one of
-- databricks_rest.py stops after fifty pages, which is its recursion. The one of fabric_discovery.py
-- has no bound: it takes fuel, one unit for a page, and as much as the longest listing has pages is
-- enough. Texts are compared and folded over ASCII letters. A lookup that lru_cache remembers asks
-- again; the cache of IdentityResolver is modelled. Requests that only read do not change the
-- services, so that the threads of a collection are a sequence and a retry is one request. Logging is
-- left out.
-- Not modelled: tokens and the pools of the REST clients, configuration and sign-in, the web routes
-- other than the apply, the wizard and the scheduler, the agent, and the scripts.
--
-- Tests runs the theorems on concrete data.
pub mod Base
pub mod Canonical
pub mod Reconciler
pub mod Translation
pub mod Discovery
pub mod Writers
pub mod Weaver
pub mod Observability
pub mod OneSync
pub mod SyncEngine
pub mod PairApply
pub mod DbxClient
pub mod FabricRest
pub mod PairDiff
pub mod IdentityQueue
pub mod Approvals
pub mod Audit
pub mod Drift
pub mod FineGrained
pub mod Abac
pub mod Cache
pub mod Pairings
pub mod Web
mod Tests
