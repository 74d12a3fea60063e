-- ===== src/SyncEngine/Apart.antt =====
-- A run of permission-sync/src/orchestrator/sync_engine.py over what the discoveries of Unity
-- Catalog and Fabric return.
use fabric_unified_permissio.Base.{
  ◌≡◌, ◌≢◌, refl, false, true, ℕ, ◌&&◌, not, String, List, [], ◌∷◌, none, some, arith, contains,
  All,
}
use fabric_unified_permissio.Base.{
  string_eq, ==_ne, ◌==◌, All-imp, text_ne, subst, Bool, Bool-cases, inl, inr,
}
use fabric_unified_permissio.Base.Outcome.{ok, Ensures}
use fabric_unified_permissio.Base.Http.{Services}
use fabric_unified_permissio.Canonical.{CanonicalPermission, Key, key, key_eq}
use fabric_unified_permissio.Discovery.Fabric
use fabric_unified_permissio.Discovery.UnityCatalog
use fabric_unified_permissio.Discovery.Fabric.{FabricDiscovery}
use fabric_unified_permissio.Discovery.Fabric.Laws as FabricLaws
use fabric_unified_permissio.Discovery.UnityCatalog.{UnityCatalogDiscovery}
use fabric_unified_permissio.Discovery.UnityCatalog.Laws as UcLaws
use fabric_unified_permissio.Reconciler.Diff.{Draws}
use fabric_unified_permissio.Reconciler.Diff.Keys.{keys_of, compute_diff_keys}
use fabric_unified_permissio.SyncEngine.{Config, sides}
use fabric_unified_permissio.SyncEngine.Source.{run_diff, unity_catalog_source}

-- A key of the list has a securable type of the list of types.
key_typed :
    (types : List String) (ps : List CanonicalPermission) (k : Key)
    → All (λ p. contains types p.securable_type ≡ true) ps
    → contains (keys_of ps) k ≡ true
    → contains types k.kind ≡ true
key_typed types [] k h m = cc
key_typed types (p ∷ ps) k h m = elim (Bool-cases (k == key p)) [
  | inl s ↦ (let same : k ≡ key p = ground arith in rw same h.0)
  | inr n ↦ key_typed types ps k h.1 (ground arith)
]

types_apart :
    (t : String)
    → contains UcLaws.securable_types t ≡ true
    → contains FabricLaws.securable_types t ≡ true
    → ⊥
types_apart t h g = ground (
  arith,
  text_ne "catalog" "workspace" refl,
  text_ne "schema" "workspace" refl,
  text_ne "table" "workspace" refl,
  text_ne "catalog" "lakehouse" refl,
  text_ne "schema" "lakehouse" refl,
  text_ne "table" "lakehouse" refl,
)

-- Where no key of the one state is a key of the other, the keys of the desired one are granted,
-- those of the current one are revoked, and none is unchanged.
abbrev pub SwapsAll :
    Config → Draws → List CanonicalPermission → List CanonicalPermission → Key → Type 0
SwapsAll c e source target k =
    (contains (keys_of (run_diff c e source target).to_grant) k ≡ contains (keys_of source) k)
    × (contains (keys_of (run_diff c e source target).to_revoke) k ≡ contains (keys_of target) k)
    × (contains (keys_of (run_diff c e source target).unchanged) k ≡ false)

swaps :
    (had wanted grant revoke same : Bool)
    → (wanted ≡ true → had ≡ true → ⊥)
    → grant ≡ (wanted && not had)
    → revoke ≡ (had && not wanted)
    → same ≡ (wanted && had)
    → (grant ≡ wanted) × (revoke ≡ had) × (same ≡ false)
swaps true true g r s h a b c = absurd (h refl refl)
swaps true false g r s h a b c = (a, b, c)
swaps false true g r s h a b c = (a, b, c)
swaps false false g r s h a b c = (a, b, c)

-- Whatever the services answer, no key that the discovery of Unity Catalog returns is one that the
-- discovery of Fabric returns, since a key holds the kind of its securable. So the diff of a run
-- towards Fabric grants everything that it found in Unity Catalog and revokes everything that it
-- found in Fabric, whatever earlier runs have written, and nothing is ever unchanged.
pub discovered_sides-SwapsAll :
    (S : Services) (c : Config) (e : Draws) (u : UnityCatalogDiscovery) (f : FabricDiscovery)
    (s : S.State) (fuel : ℕ) (source target : List CanonicalPermission)
    → c.direction ≢ "fabric_to_source"
    → unity_catalog_source S u s ≡ ok source
    → Fabric.discover_all S f s fuel ≡ some (ok target)
    → (k : Key) → SwapsAll c e source target k
unfolding sides
discovered_sides-SwapsAll S c e u f s fuel source target v hs ht k =
    let from_source : All (λ p. contains UcLaws.securable_types p.securable_type ≡ true) source =
      All-imp (UcLaws.IsReported u (UnityCatalog.discover_all S u s none []).1) _ source
        (λ p h. h.2)
        (subst (Ensures (All (UcLaws.IsReported u (UnityCatalog.discover_all S u s none []).1))) hs
          (UcLaws.discover_all-IsReported S u s none []).1) in
    let from_target : All (λ p. contains FabricLaws.securable_types p.securable_type ≡ true)
        target =
      All-imp (FabricLaws.IsReported f) _ target (λ p h. h.1)
        (FabricLaws.discovered_fabric-IsReported S f s fuel target ht) in
    let split = compute_diff_keys e target source k in
    rw (==_ne c.direction "fabric_to_source" v) (
      swaps (contains (keys_of target) k) (contains (keys_of source) k) _ _ _
        (λ w h.
          types_apart k.kind (key_typed UcLaws.securable_types source k from_source w)
            (key_typed FabricLaws.securable_types target k from_target h))
        split.0 split.1 split.2)
