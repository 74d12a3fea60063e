-- ===== src/Discovery/Fabric/Laws.antt =====
-- The discovery of permission-sync/src/discovery/fabric_discovery.py: it ends, and what it returns.
use fabric_unified_permissio.Base.{
  ◌≡◌, refl, ℕ, String, Bool, true, false, List, [], ◌∷◌, ◌++◌, none, some, string_eq,
}
use fabric_unified_permissio.Base.{All, All-append, All-imp, contains, not, subst}
use fabric_unified_permissio.Base.Json.{Json, get, text_of, elements}
use fabric_unified_permissio.Base.Http.{Services}
use fabric_unified_permissio.Base.Outcome.{ok, raised, Ensures}
use fabric_unified_permissio.Canonical.{CanonicalPermission}
use fabric_unified_permissio.Discovery.Found.{
  Reported, IsOf, IsClassified, permissions_of, permissions_of-IsOf,
}
use fabric_unified_permissio.Discovery.Fabric.{
  FabricDiscovery, flat, of_assignment, of_role, of_member, of_rule, of_permission, of_item,
  reported_member, list_workspaces, list_role_assignments, list_items, list_data_access_roles,
  of_lakehouses, of_workspace, discover_all,
}
use fabric_unified_permissio.Discovery.Fabric.Paging.{
  Run, bind, each_run, Settled, FinitePages, bind-Settled, catch-Settled, each_run-Settled,
  paged-Settled, unless_run, unless_run-Settled,
}

module _ (S : Services) (d : FabricDiscovery) (s : S.State) (k : ℕ)
    (finite : FinitePages S s k) where
  list_workspaces-Settled : Settled k (λ n. list_workspaces S d s n)
  unfolding list_workspaces
  list_workspaces-Settled =
      bind-Settled k _ _ (paged-Settled S s k finite _) (λ ws. (ok _, λ n m. refl))

  of_lakehouses-Settled : (ws : Json) → Settled k (λ n. of_lakehouses S d s n ws)
  unfolding of_lakehouses list_items
  of_lakehouses-Settled ws = unless_run-Settled k (not d.onelake_enabled) _ (
      bind-Settled k _ _ (catch-Settled k _ (paged-Settled S s k finite _))
        (λ items. (ok _, λ n m. refl)))

  of_workspace-Settled : (ws : Json) → Settled k (λ n. of_workspace S d s n ws)
  unfolding of_workspace list_role_assignments
  of_workspace-Settled ws =
      bind-Settled k _ _ (catch-Settled k _ (paged-Settled S s k finite _))
        (λ ras. bind-Settled k _ _ (of_lakehouses-Settled ws) (λ more. (ok _, λ n m. refl)))

  -- If no listing of the service has more than `k` pages, then the discovery ends: with `k` units
  -- of fuel, one for a page, and with any more, it returns or raises, and always the same.
  pub discover_all-Settled : Settled k (λ n. discover_all S d s n)
  unfolding discover_all
  discover_all-Settled =
      bind-Settled k _ _ list_workspaces-Settled
        (λ wss. each_run-Settled k (λ n. of_workspace S d s n) of_workspace-Settled wss)

-- What a call returns, if it returns, meets the condition throughout.
abbrev AllRun : {A : Type 0} → (A → Type 0) → Run (List A) → Type 0
AllRun P none = Unit
AllRun P (some r) = Ensures (All P) r

append-AllRun :
    {A : Type 0} (P : A → Type 0) (here : List A) (r : Run (List A))
    → All P here
    → AllRun P r
    → AllRun P (bind r λ more. some (ok (here ++ more)))
unfolding bind
append-AllRun P here none h k = tt
append-AllRun P here (some (raised e)) h k = tt
append-AllRun P here (some (ok more)) h k = All-append P here more h k

bind-AllRun :
    {A B : Type 0} (P : B → Type 0) (r : Run A) (f : A → Run (List B))
    → ((a : A) → AllRun P (f a))
    → AllRun P (bind r f)
unfolding bind
bind-AllRun P none f h = tt
bind-AllRun P (some (raised e)) f h = tt
bind-AllRun P (some (ok a)) f h = h a

both-AllRun :
    {A : Type 0} (P : A → Type 0) (r q : Run (List A))
    → AllRun P r
    → AllRun P q
    → AllRun P (bind r λ here. bind q λ more. some (ok (here ++ more)))
unfolding bind
both-AllRun P none q h k = tt
both-AllRun P (some (raised e)) q h k = tt
both-AllRun P (some (ok here)) q h k = append-AllRun P here q h k

each_run-AllRun :
    {A B : Type 0} (P : B → Type 0) (f : A → Run (List B)) (xs : List A)
    → ((a : A) → AllRun P (f a))
    → AllRun P (each_run f xs)
unfolding each_run
each_run-AllRun P f [] h = tt
each_run-AllRun P f (x ∷ xs) h =
    both-AllRun P (f x) (each_run f xs) (h x) (each_run-AllRun P f xs h)

unless_run-AllRun :
    {A : Type 0} (P : A → Type 0) (b : Bool) (r : Run (List A))
    → AllRun P r
    → AllRun P (unless_run b r)
unfolding unless_run
unless_run-AllRun P true r h = tt
unless_run-AllRun P false r h = h

All-flat :
    {A : Type 0} (P : CanonicalPermission → Type 0) (f : A → List CanonicalPermission) (xs : List A)
    → ((a : A) → All P (f a))
    → All P (flat f xs)
unfolding flat
All-flat P f [] h = tt
All-flat P f (x ∷ xs) h = All-append P (f x) (flat f xs) (h x) (All-flat P f xs h)

abbrev pub securable_types : List String
securable_types = "workspace" ∷ "lakehouse" ∷ []

-- A permission of Fabric has the class of its privilege, on a workspace or a lakehouse.
abbrev pub IsReported : FabricDiscovery → CanonicalPermission → Type 0
IsReported d p =
    IsClassified d.source.normalizer p × (contains securable_types p.securable_type ≡ true)

typed :
    (contains securable_types "workspace" ≡ true) × (contains securable_types "lakehouse" ≡ true)
unfolding string_eq
typed = (refl, refl)

module _ (S : Services) (d : FabricDiscovery) (s : S.State) (fuel : ℕ) where
  reported :
      (g : Reported) (ps : List String)
      → contains securable_types g.securable_type ≡ true
      → All (IsReported d) (permissions_of d.source g ps)
  reported g ps t =
      All-imp (IsOf d.source g) (IsReported d) _ (λ p h. (h.0, rw h.3 t))
        (permissions_of-IsOf d.source g ps)

  of_assignment-IsReported : (ws ra : Json) → All (IsReported d) (of_assignment d ws ra)
  unfolding of_assignment
  of_assignment-IsReported ws ra = reported _ _ typed.0

  of_permission-IsReported :
      (ws item dar member perm : Json)
      → All (IsReported d) (of_permission d ws item dar member perm)
  unfolding of_permission
  of_permission-IsReported ws item dar member perm =
      reported (reported_member d ws item dar member) _ typed.1

  of_rule-IsReported :
      (ws item dar member rule : Json) → All (IsReported d) (of_rule d ws item dar member rule)
  unfolding of_rule
  of_rule-IsReported ws item dar member rule =
      All-flat (IsReported d) (of_permission d ws item dar member)
        (elements (get rule "permission")) (of_permission-IsReported ws item dar member)

  of_member-IsReported :
      (ws item dar member : Json) → All (IsReported d) (of_member d ws item dar member)
  unfolding of_member
  of_member-IsReported ws item dar member =
      All-flat (IsReported d) (of_rule d ws item dar member) (elements (get dar "decisionRules"))
        (of_rule-IsReported ws item dar member)

  of_role-IsReported : (ws item dar : Json) → All (IsReported d) (of_role d ws item dar)
  unfolding of_role
  of_role-IsReported ws item dar =
      All-flat (IsReported d) (of_member d ws item dar)
        (elements (get (get dar "members") "entraMembers")) (of_member-IsReported ws item dar)

  of_item-IsReported : (ws item : Json) → All (IsReported d) (of_item S d s fuel ws item)
  unfolding of_item
  of_item-IsReported ws item =
      All-flat (IsReported d) (of_role d ws item)
        (list_data_access_roles S d s fuel (text_of (get ws "id")) (text_of (get item "id")))
        (of_role-IsReported ws item)

  of_lakehouses-AllRun : (ws : Json) → AllRun (IsReported d) (of_lakehouses S d s fuel ws)
  unfolding of_lakehouses
  of_lakehouses-AllRun ws = unless_run-AllRun (IsReported d) (not d.onelake_enabled) _ (
      bind-AllRun (IsReported d) (list_items S d s fuel (text_of (get ws "id"))) _
        (λ items. All-flat (IsReported d) (of_item S d s fuel ws) items (of_item-IsReported ws)))

  of_workspace-AllRun : (ws : Json) → AllRun (IsReported d) (of_workspace S d s fuel ws)
  unfolding of_workspace
  of_workspace-AllRun ws =
      bind-AllRun (IsReported d) (list_role_assignments S d s fuel (text_of (get ws "id"))) _
        (λ ras.
          append-AllRun (IsReported d) _ (of_lakehouses S d s fuel ws)
            (All-flat (IsReported d) (of_assignment d ws) ras (of_assignment-IsReported ws))
            (of_lakehouses-AllRun ws))

  pub discover_all-AllRun : AllRun (IsReported d) (discover_all S d s fuel)
  unfolding discover_all
  discover_all-AllRun =
      bind-AllRun (IsReported d) (list_workspaces S d s fuel) _
        (λ wss. each_run-AllRun (IsReported d) (of_workspace S d s fuel) wss of_workspace-AllRun)

  -- Every permission that the discovery returns has the class that the matrix gives its privilege,
  -- and is on a workspace or a lakehouse.
  pub discovered_fabric-IsReported :
      (found : List CanonicalPermission)
      → discover_all S d s fuel ≡ some (ok found)
      → All (IsReported d) found
  discovered_fabric-IsReported found h = subst (AllRun (IsReported d)) h discover_all-AllRun
