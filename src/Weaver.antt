-- ===== src/Weaver.antt =====
-- permission-sync/src/policy_weaver/policy_weaver_client.py: each permission goes to its writer.
pub mod Counts
pub mod DryRun
use fabric_unified_permissio.Base.{
  ℕ, String, ◌<>◌, Bool, true, false, Option, none, some, List, [], ◌∷◌,
}
use fabric_unified_permissio.Base.{◌++◌, ◌==◌, string_eq, if◌then◌else◌}
use fabric_unified_permissio.Base.Json.{Json, str, Fields, get_field, fields, text_of}
use fabric_unified_permissio.Base.Outcome.{Outcome, ok, raised, and_then}
use fabric_unified_permissio.Base.Http.{Services}
use fabric_unified_permissio.Base.Text.{is_empty}
use fabric_unified_permissio.Canonical.{CanonicalPermission, Key, key}
use fabric_unified_permissio.Reconciler.Diff.{PermissionDiff}
use fabric_unified_permissio.Translation.Normalizer.{PrivilegeNormalizer, denormalize}
use fabric_unified_permissio.Writers.Planner.{FabricWritePlanner, plan}
use fabric_unified_permissio.Writers.Fabric.{FabricWriter, write, revoke_workspace_role}
use fabric_unified_permissio.Writers.UnityCatalog.{update_uc}
use fabric_unified_permissio.Writers.Snowflake.{execute_sf}

-- `{"permission": key, "outcome": outcome}` and `{"permission": key, "reason": reason}`.
pub data ApplyRecord : Type 0 where
  outcome : Key → Fields → ApplyRecord
  reason : Key → String → ApplyRecord

pub record ApplyResult : Type 0 where
  pub granted : List ApplyRecord
  pub revoked : List ApplyRecord
  pub skipped : List ApplyRecord
  pub errors : List ApplyRecord

abbrev pub no_result : ApplyResult
no_result = record { granted = []; revoked = []; skipped = []; errors = [] }

pub record PolicyWeaverClient : Type 0 where
  pub normalizer : PrivilegeNormalizer
  pub planner : FabricWritePlanner
  pub fabric_writer : FabricWriter
  pub dry_run : Bool

-- `outcome.get("action", "error")`
abbrev pub action_or_error : Json → String
action_or_error (str a) = a
action_or_error _ = "error"

-- The last lines of `_dispatch`: the list that an action goes to.
pub file : ApplyResult → Key → Fields → ApplyResult
file result k out =
    let action = action_or_error (get_field "action" out) in
    let rec = outcome k out in
    if action == "granted"
    then record result { granted = result.granted ++ (rec ∷ []) }
    else if action == "revoked"
    then record result { revoked = result.revoked ++ (rec ∷ []) }
    else if action == "skipped"
    then record result { skipped = result.skipped ++ (rec ∷ []) }
    else if action == "dry_run_would_apply"
    then record result { skipped = result.skipped ++ (rec ∷ []) }
    else record result { errors = result.errors ++ (rec ∷ []) }

pub skip : ApplyResult → Key → String → ApplyResult
skip result k why = record result { skipped = result.skipped ++ (reason k why ∷ []) }

-- `_dispatch` after the writer has answered.
unfoldable pub filed {ℓ} :
    {T : Type ℓ} → ApplyResult → Key → Outcome Fields × T → Outcome ApplyResult × T
filed result k (ok out, t) = (ok (file result k out), t)
filed result k (raised e, t) = (raised e, t)

module _ (S : Services) where
  send_fabric : PolicyWeaverClient → CanonicalPermission → Bool → S.State → Outcome Fields × S.State
  send_fabric c p grant s =
      let q = plan c.planner p in
      if grant then write S c.fabric_writer q s else revoke_workspace_role S c.fabric_writer q s

  -- `if not priv` ahead of the writer of a catalog.
  with_priv :
      ApplyResult
      → Key
      → String
      → Option String
      → (String → S.State → Outcome Fields × S.State)
      → S.State
      → Outcome ApplyResult × S.State
  with_priv result k why none call s = (ok (skip result k why), s)
  with_priv result k why (some priv) call s =
      if is_empty priv then (ok (skip result k why), s) else filed result k (call priv s)

  unfoldable pub dispatch :
      PolicyWeaverClient
      → CanonicalPermission
      → String
      → Bool
      → Fields
      → ApplyResult
      → S.State
      → Outcome ApplyResult × S.State
  unfolding send_fabric with_priv
  dispatch c p target_platform grant ctx result s =
      if target_platform == "fabric"
      then filed result (key p) (send_fabric c p grant s)
      else if target_platform == "unity_catalog"
      then with_priv result (key p) "no UC mapping"
          (denormalize c.normalizer p.access_class "unity_catalog")
          (λ priv. update_uc S (text_of (get_field "databricks_workspace_url" ctx)) p priv grant) s
      else if target_platform == "snowflake"
      then with_priv result (key p) "no Snowflake mapping"
          (denormalize c.normalizer p.access_class "snowflake")
          (λ priv. execute_sf S (fields (get_field "snowflake_connection_params" ctx)) p priv grant)
          s
      else (ok (skip result (key p) ("unknown target " <> target_platform)), s)

  -- One of the two loops of `apply_diff`; an exception ends it.
  unfoldable pub dispatch_all :
      PolicyWeaverClient
      → List CanonicalPermission
      → String
      → Bool
      → Fields
      → ApplyResult
      → S.State
      → Outcome ApplyResult × S.State
  dispatch_all c [] target grant ctx result s = (ok result, s)
  dispatch_all c (p ∷ ps) target grant ctx result s =
      and_then (dispatch c p target grant ctx result s)
        (λ r t. dispatch_all c ps target grant ctx r t)

  unfoldable pub apply_diff :
      PolicyWeaverClient
      → PermissionDiff
      → String
      → Fields
      → S.State
      → Outcome ApplyResult × S.State
  unfolding dispatch_all
  apply_diff c diff target ctx s =
      and_then (dispatch_all c diff.to_grant target true ctx no_result s)
        (λ r t. dispatch_all c diff.to_revoke target false ctx r t)
