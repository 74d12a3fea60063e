-- ===== src/Tests/Discovery.antt =====
-- The theorems about the discoveries at concrete data.
use fabric_unified_permissio.Base.{
  ◌≡◌, refl, false, true, sym, subst, String, [], ◌∷◌, none, some, text_ne, string_eq, inl, inr,
  arith,
}
use fabric_unified_permissio.Base.Dict.{lookup, insert}
use fabric_unified_permissio.Base.Json.{null, Json, get_field, field?}
use fabric_unified_permissio.Base.Outcome.{Outcome, ok, raised}
use fabric_unified_permissio.Base.Text.{is_empty, lower, rstrip_slash, strip}
use fabric_unified_permissio.Translation.Normalizer.{normalize}
use fabric_unified_permissio.Canonical.{key}
use fabric_unified_permissio.Discovery.Fabric
use fabric_unified_permissio.Discovery.Fabric.Laws.{discover_all-Settled}
use fabric_unified_permissio.Discovery.Fabric.Paging.{
  Settled, FinitePages, bind, catch, unless_run, each_run, paged, next_url,
}
use fabric_unified_permissio.Discovery.Found.{
  Collects, for_each, both, unless, listed, permissions_of,
}
use fabric_unified_permissio.Discovery.UnityCatalog
use fabric_unified_permissio.Discovery.UnityCatalog.Laws.{discover_all-IsReported, IsReported}
use fabric_unified_permissio.SyncEngine.{full_reconcile}
use fabric_unified_permissio.SyncEngine.Apart.{SwapsAll, discovered_sides-SwapsAll}
use fabric_unified_permissio.SyncEngine.Source.{
  RevokesAll, silent_source-RevokesAll, unity_catalog_source, snowflake_source,
}
use fabric_unified_permissio.Translation.Identity.{resolve_to_entra_id, ask_graph}
use fabric_unified_permissio.Translation.Identity.Laws.{resolve_settled, later}
use fabric_unified_permissio.Tests.Data.{draws, other}
use fabric_unified_permissio.Tests.DiscoveryData.{
  refusing, locked, engine, tenant, uc, fabric, granted_in_uc, granted_in_fabric, snowflake,
  uc_config, single, recovering, sent,
}

found_in_uc : unity_catalog_source tenant uc [] ≡ ok (granted_in_uc ∷ [])
unfolding UnityCatalog.discover_all UnityCatalog.discover_workspace UnityCatalog.workspace_address
    UnityCatalog.list_workspaces UnityCatalog.grants_to_canonical UnityCatalog.assignment for_each
    both unless listed permissions_of resolve_to_entra_id ask_graph lookup insert get_field
    string_eq lower rstrip_slash normalize strip
found_in_uc = refl

found_in_fabric : Fabric.discover_all tenant fabric [] 1 ≡ some (ok (granted_in_fabric ∷ []))
unfolding Fabric.discover_all Fabric.of_workspace Fabric.of_lakehouses Fabric.list_workspaces
    Fabric.list_role_assignments Fabric.of_assignment bind catch unless_run each_run paged
    permissions_of lookup get_field string_eq normalize strip field?
found_in_fabric = refl

discovered_sides-SwapsAll_example :
    SwapsAll uc_config draws (granted_in_uc ∷ []) (granted_in_fabric ∷ []) (key granted_in_fabric)
discovered_sides-SwapsAll_example =
    discovered_sides-SwapsAll tenant uc_config draws uc fabric [] 1 (granted_in_uc ∷ [])
      (granted_in_fabric ∷ []) (text_ne "source_to_fabric" "fabric_to_source" refl) found_in_uc
      found_in_fabric (key granted_in_fabric)

discover_all-IsReported_example :
    Collects (IsReported uc) [] (UnityCatalog.discover_all tenant uc [] none [])
discover_all-IsReported_example = discover_all-IsReported tenant uc [] none []

abbrev next_of : Outcome Json → String
next_of (ok body) = next_url body
next_of (raised e) = ""

not_both : true ≡ false → ⊥
not_both h = cc

one_page : FinitePages single [] 1
unfolding get_field string_eq
one_page = record {
  pages_left = λ url. 0;
  bounded = λ url. omega arith;
  falls =
      λ url body h more. absurd (not_both (subst (λ r. is_empty (next_of r) ≡ false) (sym h) more));
}

discover_all-Settled_example : Settled 1 (λ n. Fabric.discover_all single fabric [] n)
discover_all-Settled_example = discover_all-Settled single fabric [] 1 one_page

silent_source-RevokesAll_example : RevokesAll refusing uc_config (other ∷ []) [] (
    full_reconcile refusing uc_config draws 0
      (unity_catalog_source refusing uc)
      (snowflake_source refusing locked snowflake)
      (λ s. ok (other ∷ []))
      engine)
unfolding UnityCatalog.list_workspaces UnityCatalog.workspace_address get_field string_eq
    rstrip_slash
silent_source-RevokesAll_example =
    silent_source-RevokesAll refusing uc_config draws 0 uc locked snowflake (λ s. ok (other ∷ []))
      engine (other ∷ []) (text_ne "source_to_fabric" "fabric_to_source" refl) refl
      (inr (inl (refl, (("denied", null, inr refl), tt)))) refl

-- The lookup fails, and its answer stays when the services are back.
resolve_settled_example :
    resolve_to_entra_id recovering "ADA" "unity_catalog"
      (sent ∷ [])
      (later recovering [] (resolve_to_entra_id recovering "ada" "unity_catalog" [] []).1)
    ≡ (ok none, later recovering [] (resolve_to_entra_id recovering "ada" "unity_catalog" [] []).1)
unfolding resolve_to_entra_id ask_graph lookup insert lower get_field string_eq
resolve_settled_example =
    resolve_settled recovering "ada" "ADA" "unity_catalog" [] (sent ∷ []) [] [] none refl refl refl
