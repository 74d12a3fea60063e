-- ===== src/Writers/Planner/Laws.antt =====
-- What a plan of permission-sync/src/writers/fabric_write_planner.py promises.
use fabric_unified_permissio.Base.{String, ◌≡◌, ◌≢◌, refl, false, some, arith}
use fabric_unified_permissio.Base.{
  text_ne, ◌==◌, string_eq, ◌⊎◌, inl, inr, Option-cases, Bool-cases,
}
use fabric_unified_permissio.Base.Text.{is_empty}
use fabric_unified_permissio.Canonical.{CanonicalPermission}
use fabric_unified_permissio.Translation.Normalizer.{denormalize}
use fabric_unified_permissio.Writers.Planner.{FabricWritePlan, FabricWritePlanner, choose_layer}
use fabric_unified_permissio.Writers.Planner.{target_table, plan, onelake_role}
use fabric_unified_permissio.Writers.Planner.{layer_config, or_workspace}

choose_layer-ne :
    (w : FabricWritePlanner) (access : String)
    → w.onelake_enabled ≡ false
    → or_workspace (layer_config w access).fallback_layer ≢ onelake_role
    → choose_layer w access ≢ onelake_role
unfolding choose_layer
choose_layer-ne w access h f =
    elim (Bool-cases (or_workspace (layer_config w access).primary_layer == onelake_role)) [
      | inl e ↦ rw (e, h) f
      | inr e ↦ rw e (λ x. ground (arith, x))
    ]

module _ (w : FabricWritePlanner) (p : CanonicalPermission) where
  -- What every plan says of its permission, whatever the layer.
  pub record IsFaithful (q : FabricWritePlan) : Type 0 where
    pub workspace : q.workspace_id ≡ p.workspace_id
    pub principal : q.principal_entra_id ≡ p.principal_entra_id
    pub kind : q.principal_type ≡ p.principal_type
    pub dry : q.dry_run ≡ w.dry_run

  plan_layer : ((plan w p).layer ≡ "skip") ⊎ ((plan w p).layer ≡ choose_layer w p.access_class)
  unfolding plan
  plan_layer = ground arith

  -- A plan keeps the permission's workspace, principal and type and the planner's dry-run flag.
  pub plan-IsFaithful : IsFaithful (plan w p)
  unfolding plan
  plan-IsFaithful = ground arith

  -- A plan that is not skipped writes the layer that was chosen, with the privilege that the
  -- layer's table has for the access class, which is not empty.
  pub plan_written :
      (plan w p).layer ≢ "skip"
      → ((plan w p).layer ≡ choose_layer w p.access_class)
        × (denormalize w.normalizer p.access_class (target_table (plan w p).layer)
            ≡ some (plan w p).role_or_action)
        × (is_empty (plan w p).role_or_action ≡ false)
  unfolding plan
  plan_written h =
      elim (Option-cases
        (denormalize w.normalizer p.access_class (target_table (choose_layer w p.access_class)))) [
          | inl e ↦ ground arith
          | inr (priv, e) ↦ ground arith
        ]

  -- With OneLake roles disabled, a plan is for a OneLake role only if the settings name that layer
  -- as the fallback of the access class.
  pub plan_onelake_disabled :
      w.onelake_enabled ≡ false
      → or_workspace (layer_config w p.access_class).fallback_layer ≢ onelake_role
      → (plan w p).layer ≢ onelake_role
  plan_onelake_disabled h f = elim plan_layer [
    | inl e ↦ rw e (text_ne "skip" onelake_role refl)
    | inr e ↦ rw e (choose_layer-ne w p.access_class h f)
  ]
