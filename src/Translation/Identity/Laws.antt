-- ===== src/Translation/Identity/Laws.antt =====
-- The cache of permission-sync/src/translation/identity_resolver.py over a run.
use fabric_unified_permissio.Base.{
  ◌≡◌, refl, sym, subst, ◌∙◌, String, ◌<>◌, false, List, [], ◌∷◌, Option, none, some, arith,
  string_eq,
}
use fabric_unified_permissio.Base.Dict.{lookup, insert, lookup-insert}
use fabric_unified_permissio.Base.Http.{Services}
use fabric_unified_permissio.Base.Outcome.{Outcome, ok, raised}
use fabric_unified_permissio.Base.Text.{is_empty, lower}
use fabric_unified_permissio.Translation.Identity.{
  EntraIdentity, Cache, cache_key, cached_or, resolve_to_entra_id,
}

-- What one cache knows, another one knows too.
abbrev pub Grows : Cache → Cache → Type 0
Grows c d = (j : String) (r : Option EntraIdentity) → lookup j c ≡ some r → lookup j d ≡ some r

pub Grows-trans : (c d e : Cache) → Grows c d → Grows d e → Grows c e
Grows-trans c d e f g = λ j r h. g j r (f j r h)

insert-Grows :
    (k : String) (r : Option EntraIdentity) (c : Cache) → lookup k c ≡ none → Grows c (insert k r c)
insert-Grows k r c new = λ j q h. ground (arith, lookup-insert j k r c)

cached_or-Grows :
    (k : String) (asked : Outcome (Option EntraIdentity)) (c : Cache)
    (o : Option (Option EntraIdentity))
    → lookup k c ≡ o
    → Grows c (cached_or o k asked c).1
cached_or-Grows k asked c (some hit) old = λ j r h. h
cached_or-Grows k (ok result) c none new = insert-Grows k result c new
cached_or-Grows k (raised e) c none new = λ j r h. h

cached_or_known :
    (k : String) (asked : Outcome (Option EntraIdentity)) (c : Cache)
    (o : Option (Option EntraIdentity)) {r : Option EntraIdentity}
    → lookup k c ≡ o
    → (cached_or o k asked c).0 ≡ ok r
    → lookup k (cached_or o k asked c).1 ≡ some r
cached_or_known k asked c (some hit) old h = ground arith
cached_or_known k (ok result) c none new h = ground (arith, lookup-insert k k result c)
cached_or_known k (raised e) c none new h = ground arith

lower-is_empty : (s t : String) → lower s ≡ lower t → is_empty s ≡ is_empty t
unfolding lower
lower-is_empty String.[] String.[] h = refl
lower-is_empty String.[] (String.◌∷◌ c t) h = cc
lower-is_empty (String.◌∷◌ c s) String.[] h = cc
lower-is_empty (String.◌∷◌ c s) (String.◌∷◌ d t) h = refl

-- A name that is looked up: the name, its platform and how the services stand then.
pub record Question (S : Services) : Type 0 where
  pub name : String
  pub platform : String
  pub services : S.State

module _ (S : Services) where
  pub resolve-Grows :
      (name platform : String) (s : S.State) (c : Cache)
      → Grows c (resolve_to_entra_id S name platform s c).1
  unfolding resolve_to_entra_id
  resolve-Grows String.[] platform s c = λ j r h. h
  resolve-Grows (String.◌∷◌ x name) platform s c =
      cached_or-Grows (cache_key platform (String.◌∷◌ x name)) _ c _ refl

  pub resolve_known :
      (name platform : String) (s : S.State) (c : Cache) {r : Option EntraIdentity}
      → is_empty name ≡ false
      → (resolve_to_entra_id S name platform s c).0 ≡ ok r
      → lookup (cache_key platform name) (resolve_to_entra_id S name platform s c).1 ≡ some r
  unfolding resolve_to_entra_id
  resolve_known String.[] platform s c full h = cc
  resolve_known (String.◌∷◌ x name) platform s c full h =
      cached_or_known (cache_key platform (String.◌∷◌ x name)) _ c _ refl h

  pub resolve_somebody :
      (name platform : String) (s : S.State) (c : Cache) (who : EntraIdentity)
      → (resolve_to_entra_id S name platform s c).0 ≡ ok (some who)
      → lookup (cache_key platform name) (resolve_to_entra_id S name platform s c).1
        ≡ some (some who)
  unfolding resolve_to_entra_id
  resolve_somebody String.[] platform s c who h = cc
  resolve_somebody (String.◌∷◌ x name) platform s c who h =
      resolve_known (String.◌∷◌ x name) platform s c refl h

  -- A name that the cache knows is not asked again.
  known_resolve :
      (name platform : String) (s : S.State) (c : Cache) (r : Option EntraIdentity)
      → is_empty name ≡ false
      → lookup (cache_key platform name) c ≡ some r
      → resolve_to_entra_id S name platform s c ≡ (ok r, c)
  unfolding resolve_to_entra_id
  known_resolve name platform s c r full h = rw (full, h)

  -- The cache after more lookups.
  abbrev pub later : List (Question S) → Cache → Cache
  later [] c = c
  later (q ∷ qs) c = later qs (resolve_to_entra_id S q.name q.platform q.services c).1

  later-Grows : (qs : List (Question S)) (c : Cache) → Grows c (later qs c)
  later-Grows [] c = λ j r h. h
  later-Grows (q ∷ qs) c =
      Grows-trans c _ _ (resolve-Grows q.name q.platform q.services c)
        (later-Grows qs (resolve_to_entra_id S q.name q.platform q.services c).1)

  -- The first answer for a name stands for the run: once a lookup of it has returned, with a
  -- principal or with nobody, a later lookup of the same name on the same platform, case aside,
  -- returns the same and leaves the cache alone, whatever was looked up in between, however each
  -- of those lookups ended, and however the services have changed.
  pub resolve_settled :
      (name again platform : String) (s t : S.State) (c : Cache) (qs : List (Question S))
      (r : Option EntraIdentity)
      → is_empty name ≡ false
      → lower again ≡ lower name
      → (resolve_to_entra_id S name platform s c).0 ≡ ok r
      → resolve_to_entra_id S again platform t
          (later qs (resolve_to_entra_id S name platform s c).1)
        ≡ (ok r, later qs (resolve_to_entra_id S name platform s c).1)
  resolve_settled name again platform s t c qs r full same h =
      known_resolve again platform t _ r (lower-is_empty again name same ∙ full) (
        subst
          (λ n.
            lookup (platform <> ":" <> n) (later qs (resolve_to_entra_id S name platform s c).1)
            ≡ some r)
          (sym same) (later-Grows qs _ _ r (resolve_known name platform s c full h)))
