-- ===== src/Discovery/UnityCatalog/Laws.antt =====
-- What permission-sync/src/discovery/unity_catalog_discovery.py returns, and what it makes of a
-- workspace that refuses to answer.
use fabric_unified_permissio.Base.{
  ◌≡◌, refl, String, ◌<>◌, true, false, ◌⊎◌, inl, inr, List, [], ◌∷◌, Option, none, some, All,
  string_eq,
}
use fabric_unified_permissio.Base.{map, Bool, All-imp}
use fabric_unified_permissio.Base.{contains}
use fabric_unified_permissio.Base.Dict.{lookup}
use fabric_unified_permissio.Base.Json.{Json, obj, end, get_field, text_of, get, elements}
use fabric_unified_permissio.Base.Http.{Services, reply}
use fabric_unified_permissio.Base.Outcome.{Outcome, ok, raised, and_then}
use fabric_unified_permissio.Base.Text.{is_empty, rstrip_slash}
use fabric_unified_permissio.Canonical.{CanonicalPermission}
use fabric_unified_permissio.Discovery.Found.{
  no_permissions, for_each, unless, unless-Collects, listed, listed-Collects, IsClassified,
  Collects, both-Collects, for_each-Collects, permissions_of-IsOf, IsOf,
}
use fabric_unified_permissio.Discovery.UnityCatalog.{
  UnityCatalogDiscovery, assignment, grants_to_canonical, of_table, of_schema, of_catalog,
  discover_workspace, discover_all, of_workspace, of_principal, reported, list_workspaces,
  workspace_address, ws_get,
}
use fabric_unified_permissio.Translation.Identity.{
  Cache, EntraIdentity, cache_key, resolve_to_entra_id,
}
use fabric_unified_permissio.Translation.Identity.Laws.{Grows, resolve-Grows, resolve_somebody}

-- The principal that an assignment names.
abbrev pub principal_of : CanonicalPermission → String
principal_of p = text_of (get_field "principal" p.source_raw_object)

unless_nothing : (b : Bool) (c : Cache) → unless {T = Cache} b no_permissions c ≡ (ok [], c)
unfolding unless
unless_nothing true c = refl
unless_nothing false c = refl

-- The permission goes to the Entra object that the cache has for the principal of the assignment.
abbrev pub IsSettled : Cache → CanonicalPermission → Type 0
IsSettled c p =
    (who : EntraIdentity) × (lookup (cache_key "unity_catalog" (principal_of p)) c
      ≡ some (some who))
    × (p.principal_entra_id ≡ who.object_id)

abbrev pub securable_types : List String
securable_types = "catalog" ∷ "schema" ∷ "table" ∷ []

abbrev pub IsReported : UnityCatalogDiscovery → Cache → CanonicalPermission → Type 0
IsReported d c p =
    IsClassified d.source.normalizer p
    × IsSettled c p
    × (contains securable_types p.securable_type ≡ true)

IsReported-stays :
    (d : UnityCatalogDiscovery) (c e : Cache) (p : CanonicalPermission)
    → Grows c e
    → IsReported d c p
    → IsReported d e p
IsReported-stays d c e p g (k, (who, found, same), t) = (k, (who, g _ _ found, same), t)

typed :
    (contains securable_types "catalog" ≡ true)
    × (contains securable_types "schema" ≡ true)
    × (contains securable_types "table" ≡ true)
unfolding string_eq
typed = (refl, refl, refl)

module _ (S : Services) (d : UnityCatalogDiscovery) (s : S.State) where
  assigned :
      (workspace_id securable_type full_name : String) (pa : Json) (c e : Cache)
      (r : Outcome (Option EntraIdentity))
      → contains securable_types securable_type ≡ true
      → Grows c e
      → ((who : EntraIdentity)
          → r ≡ ok (some who)
          → lookup (cache_key "unity_catalog" (text_of (get pa "principal"))) e ≡ some (some who))
      → Collects (IsReported d) c (
          and_then
            (r, e)
            λ who e'. (ok (of_principal S d s pa workspace_id securable_type full_name who), e'))
  unfolding of_principal
  assigned w t f pa c e (raised x) y g h = (g, tt)
  assigned w t f pa c e (ok none) y g h = (g, tt)
  assigned w t f pa c e (ok (some who)) y g h = (
    g,
    All-imp (IsOf d.source (reported S d s pa w t f who)) (IsReported d e) _
        (λ p k. (k.0, (who, rw k.1 (h who refl), k.2), rw k.3 y))
        (permissions_of-IsOf d.source (reported S d s pa w t f who)
          (map text_of (elements (get pa "privileges")))),
  )

  assignment-Collects :
      (w t f : String)
      → contains securable_types t ≡ true
      → (pa : Json) (c : Cache) → Collects (IsReported d) c (assignment S d s w t f pa c)
  unfolding assignment
  assignment-Collects w t f y pa c =
      let name = text_of (get pa "principal") in
      assigned w t f pa c (resolve_to_entra_id S name "unity_catalog" s c).1
        (resolve_to_entra_id S name "unity_catalog" s c).0 y
        (resolve-Grows S name "unity_catalog" s c)
        (λ who. resolve_somebody S name "unity_catalog" s c who)

  grants-Collects :
      (w t f : String)
      → contains securable_types t ≡ true
      → (c : Cache) → Collects (IsReported d) c (grants_to_canonical S d s w t f c)
  unfolding grants_to_canonical
  grants-Collects w t f y = listed-Collects (IsReported d) (IsReported-stays d) _ _ (λ body.
      for_each-Collects (IsReported d) (IsReported-stays d) _ (assignment-Collects w t f y) _)

  of_table-Collects :
      (w f : String) (t : Json) (c : Cache) → Collects (IsReported d) c (of_table S d s w f t c)
  unfolding of_table
  of_table-Collects w f t =
      unless-Collects (IsReported d) (IsReported-stays d) _ _ (grants-Collects w "table" _ typed.2)

  of_schema-Collects :
      (w n : String) (j : Json) (c : Cache) → Collects (IsReported d) c (of_schema S d s w n j c)
  unfolding of_schema
  of_schema-Collects w n j = unless-Collects (IsReported d) (IsReported-stays d) _ _ (
      both-Collects (IsReported d) (IsReported-stays d) _ _ (grants-Collects w "schema" _ typed.1) (
        listed-Collects (IsReported d) (IsReported-stays d) _ _ (λ body.
          for_each-Collects (IsReported d) (IsReported-stays d) _ (of_table-Collects w _) _)))

  of_catalog-Collects :
      (w : String) (j : Json) (c : Cache) → Collects (IsReported d) c (of_catalog S d s w j c)
  unfolding of_catalog
  of_catalog-Collects w j = unless-Collects (IsReported d) (IsReported-stays d) _ _ (
      both-Collects (IsReported d) (IsReported-stays d) _ _ (grants-Collects w "catalog" _ typed.0)
        (listed-Collects (IsReported d) (IsReported-stays d) _ _ (λ body.
          for_each-Collects (IsReported d) (IsReported-stays d) _ (of_schema-Collects w _) _)))

  of_workspace-Collects :
      (ws : Json) (c : Cache) → Collects (IsReported d) c (of_workspace S d s ws c)
  unfolding of_workspace discover_workspace
  of_workspace-Collects ws = unless-Collects (IsReported d) (IsReported-stays d) _ _ (
      listed-Collects (IsReported d) (IsReported-stays d) _ _
        (λ body. for_each-Collects (IsReported d) (IsReported-stays d) _ (of_catalog-Collects _) _))

  -- Whatever the services answer, and whichever workspaces are discovered: a discovery forgets
  -- nothing that the cache knew, and of what it returns each permission has the access class that
  -- the matrix gives its privilege, which is no blank, is on a catalog, a schema or a table, and goes to the Entra object that the cache,
  -- as the discovery leaves it, has for the principal of its assignment. So one principal never
  -- ends on two Entra objects.
  pub discover_all-IsReported :
      (only : Option String) (c : Cache) → Collects (IsReported d) c (discover_all S d s only c)
  unfolding discover_all
  discover_all-IsReported none c =
      for_each-Collects (IsReported d) (IsReported-stays d) _ of_workspace-Collects _ c
  discover_all-IsReported (some url) c =
      for_each-Collects (IsReported d) (IsReported-stays d) _ of_workspace-Collects _ c

  -- The workspace answers the request for its catalogs with 401 or 403.
  abbrev pub RefusesCatalogs : String → Type 0
  RefusesCatalogs url =
      (text : String) × (body : Json) × (S.fetch
            (rstrip_slash url <> "/api/2.1/unity-catalog/catalogs") end s
          ≡ reply 401 text body
        ⊎ S.fetch (rstrip_slash url <> "/api/2.1/unity-catalog/catalogs") end s
          ≡ reply 403 text body)

  -- So does every workspace that the account lists, if it lists any.
  abbrev pub AllRefuse : Type 0
  AllRefuse = All (λ ws. RefusesCatalogs (workspace_address ws)) (list_workspaces S d s)

  ws_get_refused :
      (url : String)
      → RefusesCatalogs url
      → ws_get S d s url "/api/2.1/unity-catalog/catalogs" end ≡ ok (obj end)
  unfolding ws_get
  ws_get_refused url h = let (t, b, e) = h in elim e [ inl e ↦ rw e | inr e ↦ rw e ]

  refused_workspace :
      (ws : Json) (c : Cache)
      → RefusesCatalogs (workspace_address ws)
      → of_workspace S d s ws c ≡ (ok [], c)
  unfolding of_workspace discover_workspace listed for_each get_field
  refused_workspace ws c h =
      rw (ws_get_refused (workspace_address ws) h)
        (unless_nothing (is_empty (workspace_address ws)) c)

  refused_each :
      (wss : List Json) (c : Cache)
      → All (λ ws. RefusesCatalogs (workspace_address ws)) wss
      → for_each (of_workspace S d s) wss c ≡ (ok [], c)
  unfolding for_each
  refused_each [] c h = refl
  refused_each (ws ∷ wss) c h = rw (refused_workspace ws c h.0) (rw (refused_each wss c h.1))

  pub discover_all_refused : (c : Cache) → AllRefuse → discover_all S d s none c ≡ (ok [], c)
  unfolding discover_all
  discover_all_refused c h = refused_each (list_workspaces S d s) c h
