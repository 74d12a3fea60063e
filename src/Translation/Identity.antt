-- ===== src/Translation/Identity.antt =====
-- permission-sync/src/translation/identity_resolver.py: whom a platform's name stands for in Entra.
-- The cache is a dictionary that the resolver keeps for a run.
pub mod Laws
use fabric_unified_permissio.Base.{String, ◌<>◌, Bool, ◌&&◌, List, [], ◌∷◌, Option, none, some}
use fabric_unified_permissio.Base.{◌==◌, string_eq, if◌then◌else◌, eqb, leb, ◌||◌}
use fabric_unified_permissio.Base.Dict.{Dict, lookup, insert}
use fabric_unified_permissio.Base.Json.{
  Json, Fields, end, field, str, get, elements, text?, text_of,
}
use fabric_unified_permissio.Base.Http.{Services, Response, reply, failed}
use fabric_unified_permissio.Base.Outcome.{Outcome, ok, raised}
use fabric_unified_permissio.Base.Text.{
  is_empty, lower, replace_char, is_digit, all_chars, split, text_length,
}
use Prim.Native.Char.{Char, code}
use Prim.Native.Nat.{ℕ}

pub record EntraIdentity : Type 0 where
  pub object_id : String
  pub upn : String
  pub principal_type : String
  pub display_name : String

-- `_get`: what is no answer has no rows.
rows_of : Response → List Json
rows_of (reply status text body) =
    if eqb status 404
    then []
    else if leb 200 status && leb status 299
    then elements (get body "value")
    else []
rows_of (failed e) = []

-- The first row; a row with no id is a KeyError.
found : String → (Json → String) → List Json → Outcome (Option EntraIdentity)
found kind upn [] = ok none
found kind upn (u ∷ us) = elim (text? (get u "id")) [
  | none ↦ raised "id"
  | some id ↦ ok (
      some (record {
        object_id = id;
        upn = upn u;
        principal_type = kind;
        display_name = text_of (get u "displayName");
      }))
]

-- `x or y`: the next lookup is made only if this one found nobody.
abbrev pub or_try :
    Outcome (Option EntraIdentity) → Outcome (Option EntraIdentity) → Outcome (Option EntraIdentity)
or_try (ok none) y = y
or_try (ok (some who)) y = ok (some who)
or_try (raised e) y = raised e

abbrev is_hex : Char → Bool
is_hex c =
    is_digit c || (leb 65 (code c) && leb (code c) 70) || (leb 97 (code c) && leb (code c) 102)

hex_group : ℕ → String → Bool
hex_group n s = eqb (text_length s) n && all_chars is_hex s

guid_groups : List String → Bool
guid_groups (a ∷ b ∷ c ∷ d ∷ e ∷ []) =
    hex_group 8 a && hex_group 4 b && hex_group 4 c && hex_group 4 d && hex_group 12 e
guid_groups _ = Bool.false

pub looks_like_guid : String → Bool
unfolding guid_groups hex_group
looks_like_guid s = guid_groups (split b'-' s)

abbrev pub Cache : Type 0
Cache = Dict String (Option EntraIdentity)

abbrev pub cache_key : String → String → String
cache_key source_platform platform_identity = source_platform <> ":" <> lower platform_identity

-- What is known is not asked again; what raises is not kept.
abbrev pub cached_or :
    Option (Option EntraIdentity)
    → String
    → Outcome (Option EntraIdentity)
    → Cache
    → Outcome (Option EntraIdentity) × Cache
cached_or (some hit) k asked c = (ok hit, c)
cached_or none k (ok result) c = (ok result, insert k result c)
cached_or none k (raised e) c = (raised e, c)

module _ (S : Services) where
  rows : String → String → String → S.State → List Json
  unfolding rows_of
  rows path filter_query select s = rows_of (
      S.fetch ("https://graph.microsoft.com/v1.0" <> path)
        (field "$filter" (str filter_query) (field "$select" (str select) end)) s)

  find_user : String → S.State → Outcome (Option EntraIdentity)
  unfolding rows found
  find_user filter_query s =
      found "User" (λ u. text_of (get u "userPrincipalName"))
        (rows "/users" filter_query "id,userPrincipalName,displayName,mail" s)

  find_group : String → S.State → Outcome (Option EntraIdentity)
  unfolding rows found
  find_group filter_query s =
      found "Group" (λ g. "") (rows "/groups" filter_query "id,displayName" s)

  find_sp : String → S.State → Outcome (Option EntraIdentity)
  unfolding rows found
  find_sp filter_query s =
      found "ServicePrincipal" (λ p. "")
        (rows "/servicePrincipals" filter_query "id,displayName,appId" s)

  -- The lookups of a platform. A principal of Fabric that is a GUID stands for itself.
  unfoldable pub ask_graph : String → String → S.State → Outcome (Option EntraIdentity)
  unfolding find_user find_group find_sp looks_like_guid
  ask_graph platform_identity source_platform s =
      let quoted = "'" <> replace_char b'\'' "''" platform_identity <> "'" in
      if source_platform == "unity_catalog"
      then or_try (find_user ("userPrincipalName eq " <> quoted) s) (
          or_try (find_group ("displayName eq " <> quoted) s)
            (find_sp ("displayName eq " <> quoted) s))
      else if source_platform == "snowflake"
      then or_try (find_user ("mail eq " <> quoted) s) (
          or_try (find_user ("userPrincipalName eq " <> quoted) s) (
            or_try (find_user ("displayName eq " <> quoted) s)
              (find_group ("displayName eq " <> quoted) s)))
      else if source_platform == "fabric"
      then (if looks_like_guid platform_identity
          then ok (
              some (record {
                object_id = platform_identity;
                upn = "";
                principal_type = "User";
                display_name = "";
              }))
          else find_user ("userPrincipalName eq " <> quoted) s)
      else ok none

  unfoldable pub resolve_to_entra_id :
      String → String → S.State → Cache → Outcome (Option EntraIdentity) × Cache
  resolve_to_entra_id platform_identity source_platform s c =
      let k = cache_key source_platform platform_identity in
      if is_empty platform_identity
      then (ok none, c)
      else cached_or (lookup k c) k (ask_graph platform_identity source_platform s) c
