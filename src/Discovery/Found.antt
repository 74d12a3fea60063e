-- ===== src/Discovery/Found.antt =====
-- What the discoveries of permission-sync/src/discovery share: loops that collect permissions, and
-- the permission of one privilege.
use fabric_unified_permissio.Base.{
  Bool, ◌≡◌, refl, String, ℕ, false, true, List, [], ◌∷◌, ◌++◌, Option, none, some, All, All-append,
  All-imp,
}
use fabric_unified_permissio.Base.{if◌then◌else◌}
use fabric_unified_permissio.Base.Json.{Json, Fields}
use fabric_unified_permissio.Base.Outcome.{Outcome, ok, raised, and_then, Ensures}
use fabric_unified_permissio.Base.Text.{is_empty}
use fabric_unified_permissio.Canonical.{CanonicalPermission}
use fabric_unified_permissio.Translation.Identity.{Cache, EntraIdentity}
use fabric_unified_permissio.Translation.Identity.Laws.{Grows, Grows-trans}
use fabric_unified_permissio.Translation.Normalizer.{PrivilegeNormalizer, normalize}

-- A call that returns permissions and keeps what it changed, such as the cache of principals, also
-- if it raises.
abbrev pub Collect : Type 0 → Type 0
Collect T = T → Outcome (List CanonicalPermission) × T

abbrev pub no_permissions : {T : Type 0} → Collect T
no_permissions c = (ok [], c)

-- `if skipped: continue`
unfoldable pub unless : {T : Type 0} → Bool → Collect T → Collect T
unless true f = no_permissions
unless false f = f

-- What is listed, or the error of the request that lists it.
unfoldable pub listed : {T : Type 0} → Outcome Json → (Json → Collect T) → Collect T
listed (ok body) f = f body
listed (raised e) f = λ c. (raised e, c)

-- `out.extend(f()); out.extend(g())`
unfoldable pub both : {T : Type 0} → Collect T → Collect T → Collect T
both f g c = and_then (f c) λ here d. and_then (g d) λ more e. (ok (here ++ more), e)

-- `for x in xs: out.extend(f(x))`
unfoldable pub for_each : {A T : Type 0} → (A → Collect T) → List A → Collect T
unfolding both
for_each f [] = no_permissions
for_each f (x ∷ xs) = both (f x) (for_each f xs)

-- What a discovery is constructed with, and the clock of the dataclass's default.
pub record Source : Type 0 where
  pub normalizer : PrivilegeNormalizer
  pub run_id : String
  pub now : ℕ

-- What a permission is built from, but for its access class and its privilege.
pub record Reported : Type 0 where
  pub principal_entra_id : String
  pub principal_type : String
  pub principal_display_name : String
  pub securable_type : String
  pub securable_fqn : String
  pub workspace_id : String
  pub platform : String
  pub raw : Fields

abbrev pub canonical : Source → Reported → String → String → CanonicalPermission
canonical d g privilege access = record {
  principal_entra_id = g.principal_entra_id;
  principal_type = g.principal_type;
  principal_display_name = g.principal_display_name;
  access_class = access;
  securable_type = g.securable_type;
  securable_fqn = g.securable_fqn;
  workspace_id = g.workspace_id;
  source_platform = g.platform;
  source_raw_privilege = privilege;
  source_raw_object = g.raw;
  sync_run_id = d.run_id;
  discovered_at = d.now;
  is_inherited = false;
}

abbrev with_access : Source → Reported → String → Option String → List CanonicalPermission
with_access d g privilege none = []
with_access d g privilege (some access) =
    if is_empty access then [] else canonical d g privilege access ∷ []

-- `access = normalizer.normalize(privilege, platform)`, and no permission `if not access`.
pub permission_of : Source → Reported → String → List CanonicalPermission
permission_of d g privilege =
    with_access d g privilege (normalize d.normalizer privilege g.platform)

-- `for privilege in privileges`
unfoldable pub permissions_of : Source → Reported → List String → List CanonicalPermission
unfolding permission_of
permissions_of d g [] = []
permissions_of d g (p ∷ ps) = permission_of d g p ++ permissions_of d g ps

-- `ident.display_name or name`
abbrev pub display_of : EntraIdentity → String → String
display_of who name = if is_empty who.display_name then name else who.display_name

-- The access class of a permission is the one that the matrix gives its privilege, and no blank.
abbrev pub IsClassified : PrivilegeNormalizer → CanonicalPermission → Type 0
IsClassified n p =
    (normalize n p.source_raw_privilege p.source_platform ≡ some p.access_class)
    × (is_empty p.access_class ≡ false)

-- A collection keeps what the cache knew, and what it returns meets a condition on the cache that
-- it leaves.
abbrev pub Collects :
    (Cache → CanonicalPermission → Type 0)
    → Cache
    → Outcome (List CanonicalPermission) × Cache
    → Type 0
Collects P c (r, d) = Grows c d × Ensures (All (P d)) r

module _ (P : Cache → CanonicalPermission → Type 0)
    (stays : (c d : Cache) (p : CanonicalPermission) → Grows c d → P c p → P d p) where
  after_both :
      (c d : Cache) (here : List CanonicalPermission)
      (r : Outcome (List CanonicalPermission) × Cache)
      → Grows c d
      → All (P d) here
      → Collects P d r
      → Collects P c (and_then r λ more e. (ok (here ++ more), e))
  after_both c d here (ok more, e) g h (g', h') = (
    Grows-trans c d e g g',
    All-append (P e) here more (All-imp (P d) (P e) here (λ p. stays d e p g') h) h',
  )
  after_both c d here (raised x, e) g h (g', h') = (Grows-trans c d e g g', tt)

  both-from :
      (c : Cache) (r : Outcome (List CanonicalPermission) × Cache) (g : Collect Cache)
      → Collects P c r
      → ((d : Cache) → Collects P d (g d))
      → Collects P c (and_then r λ here d. and_then (g d) λ more e. (ok (here ++ more), e))
  both-from c (ok here, d) g (grows, h) k = after_both c d here (g d) grows h (k d)
  both-from c (raised x, d) g h k = h

  pub both-Collects :
      (f g : Collect Cache)
      → ((d : Cache) → Collects P d (f d))
      → ((d : Cache) → Collects P d (g d))
      → (c : Cache) → Collects P c (both f g c)
  unfolding both
  both-Collects f g h k c = both-from c (f c) g (h c) k

  pub for_each-Collects :
      {A : Type 0} (f : A → Collect Cache)
      → ((x : A) (d : Cache) → Collects P d (f x d))
      → (xs : List A) (c : Cache) → Collects P c (for_each f xs c)
  unfolding for_each
  for_each-Collects f h [] c = (λ j r q. q, tt)
  for_each-Collects f h (x ∷ xs) c =
      both-from c (f x c) (for_each f xs) (h x c) (for_each-Collects f h xs)

  pub unless-Collects :
      (b : Bool) (f : Collect Cache)
      → ((d : Cache) → Collects P d (f d))
      → (c : Cache) → Collects P c (unless b f c)
  unfolding unless
  unless-Collects true f h c = (λ j r q. q, tt)
  unless-Collects false f h c = h c

  pub listed-Collects :
      (r : Outcome Json) (f : Json → Collect Cache)
      → ((body : Json) (d : Cache) → Collects P d (f body d))
      → (c : Cache) → Collects P c (listed r f c)
  unfolding listed
  listed-Collects (ok body) f h c = h body c
  listed-Collects (raised x) f h c = (λ j r q. q, tt)

-- The permission is classified, and built from what was reported.
abbrev pub IsOf : Source → Reported → CanonicalPermission → Type 0
IsOf d g p =
    IsClassified d.normalizer p
    × (p.source_raw_object ≡ g.raw)
    × (p.principal_entra_id ≡ g.principal_entra_id)
    × (p.securable_type ≡ g.securable_type)

with_access-IsOf :
    (d : Source) (g : Reported) (privilege : String) (access : Option String)
    → normalize d.normalizer privilege g.platform ≡ access
    → All (IsOf d g) (with_access d g privilege access)
with_access-IsOf d g privilege none h = tt
with_access-IsOf d g privilege (some String.[]) h = tt
with_access-IsOf d g privilege (some (String.◌∷◌ x access)) h = (((h, refl), refl, refl, refl), tt)

pub permissions_of-IsOf :
    (d : Source) (g : Reported) (ps : List String) → All (IsOf d g) (permissions_of d g ps)
unfolding permissions_of
permissions_of-IsOf d g [] = tt
permissions_of-IsOf d g (p ∷ ps) =
    All-append (IsOf d g) (permission_of d g p) (permissions_of d g ps)
      (with_access-IsOf d g p (normalize d.normalizer p g.platform) refl)
      (permissions_of-IsOf d g ps)
