-- ===== src/Weaver/DryRun.antt =====
-- What the dry-run flag of permission-sync/src/policy_weaver/policy_weaver_client.py holds back.
use fabric_unified_permissio.Base.{
  String, Bool, true, false, ◌≡◌, ◌≢◌, refl, ◌⊎◌, inl, inr, List, [],
}
use fabric_unified_permissio.Base.{◌∷◌, ◌==◌, string_eq, if_rule, ◌∙◌, ==_ne, ◌<>◌}
use mathlib.Core.List.{append_assoc, append-nil, map-append}
use fabric_unified_permissio.Base.{◌++◌, map, ap, sym}
use fabric_unified_permissio.Base.Json.{Fields, get_field, str, null}
use fabric_unified_permissio.Base.Outcome.{Outcome, ok}
use fabric_unified_permissio.Base.Http.{Services, delete}
use fabric_unified_permissio.Canonical.{CanonicalPermission, Key, key}
use fabric_unified_permissio.Writers.Planner.{FabricWritePlan, FabricWritePlanner, plan}
use fabric_unified_permissio.Writers.Planner.Laws.{IsFaithful, plan-IsFaithful}
use fabric_unified_permissio.Writers.Fabric.{
  FabricWriter, write, revoke_workspace_role, revoke_result,
}
use fabric_unified_permissio.Weaver.{ApplyRecord, outcome, reason}
use fabric_unified_permissio.Weaver.{ApplyResult, PolicyWeaverClient, file, filed, dispatch}
use fabric_unified_permissio.Weaver.{dispatch_all}

abbrev key_of : ApplyRecord → Key
key_of (outcome k out) = k
key_of (reason k why) = k

-- The same lists of what was done and of what failed, and the given keys added to what was skipped.
pub record SameEffects (ks : List Key) (r r' : ApplyResult) : Type 0 where
  pub granted : r'.granted ≡ r.granted
  pub revoked : r'.revoked ≡ r.revoked
  pub errors : r'.errors ≡ r.errors
  pub skipped : map key_of r'.skipped ≡ map key_of r.skipped ++ ks

-- The call returns, leaves the services alone, files nothing as done or failed, and files the keys as
-- skipped, in their order.
abbrev pub Quiet {ℓ} : {T : Type ℓ} → List Key → ApplyResult → T → Outcome ApplyResult × T → Type ℓ
Quiet ks r s o = (r' : ApplyResult) × (o ≡ (ok r', s)) × SameEffects ks r r'

file-SameEffects :
    (r : ApplyResult) (k : Key) (out : Fields) (a : String)
    → get_field "action" out ≡ str a
    → (a ≡ "skipped") ⊎ (a ≡ "dry_run_would_apply")
    → SameEffects (k ∷ []) r (file r k out)
unfolding file string_eq
file-SameEffects r k out a e (inl h) =
    rw (e, h)
      (record {
        granted = refl;
        revoked = refl;
        errors = refl;
        skipped = map-append key_of r.skipped (outcome k out ∷ []);
      })
file-SameEffects r k out a e (inr h) =
    rw (e, h)
      (record {
        granted = refl;
        revoked = refl;
        errors = refl;
        skipped = map-append key_of r.skipped (outcome k out ∷ []);
      })

module _ (S : Services) where
  write-Quiet :
      (w : FabricWriter) (q : FabricWritePlan) (r : ApplyResult) (k : Key) (s : S.State)
      → q.dry_run ≡ true
      → Quiet (k ∷ []) r s (filed r k (write S w q s))
  unfolding write filed get_field string_eq
  write-Quiet w q r k s h =
      if_rule (λ o. Quiet (k ∷ []) r s (filed r k o)) (q.layer == "skip")
        (_, refl, file-SameEffects r k _ "skipped" refl (inl refl))
        (rw h (_, refl, file-SameEffects r k _ "dry_run_would_apply" refl (inr refl)))

  dispatch-Quiet :
      (c : PolicyWeaverClient) (p : CanonicalPermission) (ctx : Fields) (r : ApplyResult)
      (s : S.State)
      → c.planner.dry_run ≡ true
      → Quiet (key p ∷ []) r s (dispatch S c p "fabric" true ctx r s)
  unfolding dispatch string_eq
  dispatch-Quiet c p ctx r s h =
      write-Quiet c.fabric_writer (plan c.planner p) r (key p) s
        (IsFaithful.dry (plan-IsFaithful c.planner p) ∙ h)

  -- A dry run of grants to Fabric returns, sends no request, leaves the lists of what was granted,
  -- revoked and failed as they are, and adds to the skipped the key of every permission, in order.
  pub dry_grants-Quiet :
      (c : PolicyWeaverClient) (ps : List CanonicalPermission) (ctx : Fields) (r : ApplyResult)
      (s : S.State)
      → c.planner.dry_run ≡ true
      → Quiet (map key ps) r s (dispatch_all S c ps "fabric" true ctx r s)
  unfolding dispatch_all
  dry_grants-Quiet c [] ctx r s h = (
    r,
    refl,
    record { granted = refl; revoked = refl; errors = refl; skipped = sym (append-nil _) },
  )
  dry_grants-Quiet c (p ∷ ps) ctx r s h =
      let (r', e, same) = dispatch-Quiet c p ctx r s h in
      let (q, f, same') = dry_grants-Quiet c ps ctx r' s h in
      (
        q,
        rw e f,
        record {
          granted = same'.granted ∙ same.granted;
          revoked = same'.revoked ∙ same.revoked;
          errors = same'.errors ∙ same.errors;
          skipped =
              same'.skipped
              ∙ ap (λ l. l ++ map key ps) same.skipped
              ∙ append_assoc (map key_of r.skipped) (key p ∷ []) (map key ps);
        },
      )

  -- The client with its dry-run flags set to a value.
  abbrev pub with_dry : Bool → PolicyWeaverClient → PolicyWeaverClient
  with_dry b c = record c { planner = record c.planner { dry_run = b }; dry_run = b }

  -- A revocation on Fabric sends the DELETE of the principal's role assignment, whatever the plan.
  revoke-plan :
      (w : FabricWriter) (f : FabricWritePlanner) (p : CanonicalPermission) (s : S.State)
      → revoke_workspace_role S w (plan f p) s ≡ (
          let (r, t) =
            S.send
              (record {
                method = delete;
                url =
                    (w.api <> "/workspaces/" <> p.workspace_id <> "/roleAssignments")
                    <> "/"
                    <> p.principal_entra_id;
                body = null;
              })
              s in
          (revoke_result r, t))
  unfolding revoke_workspace_role
  revoke-plan w f p s =
      rw (IsFaithful.workspace (plan-IsFaithful f p), IsFaithful.principal (plan-IsFaithful f p))

  -- No dry-run flag holds a revocation back, nor any write to a platform other than Fabric.
  pub dispatch-with_dry :
      (b : Bool) (c : PolicyWeaverClient) (p : CanonicalPermission) (target : String) (grant : Bool)
      (ctx : Fields) (r : ApplyResult) (s : S.State)
      → (grant ≡ false) ⊎ (target ≢ "fabric")
      → dispatch S (with_dry b c) p target grant ctx r s ≡ dispatch S c p target grant ctx r s
  unfolding dispatch
  dispatch-with_dry b c p target grant ctx r s (inl e) = rw e (
      rw (
        revoke-plan c.fabric_writer (record c.planner { dry_run = b }) p s,
        revoke-plan c.fabric_writer c.planner p s,
      ))
  dispatch-with_dry b c p target grant ctx r s (inr ne) = rw (==_ne target "fabric" ne)
