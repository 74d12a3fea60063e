-- ===== src/PairApply/Layers.antt =====
-- The tables and planners of app/services/pair_apply.py, and its report.
pub mod Laws
use fabric_unified_permissio.Base.{
  ℕ, String, ◌<>◌, Bool, true, false, not, ◌&&◌, ◌||◌, List, [], ◌∷◌, ◌++◌,
}
use fabric_unified_permissio.Base.{
  Option, none, some, ◌==◌, string_eq, if◌then◌else◌, leb, length, keep,
}
use fabric_unified_permissio.Base.{count_of, eqb, is_some}
use fabric_unified_permissio.Base.Dict.{Dict, lookup}
use fabric_unified_permissio.Base.Text.{
  is_empty, starts_with, before, after, split, strip, lower, has_char,
}
use fabric_unified_permissio.Base.Text.{all_chars, is_digit, text_length}
use Prim.Native.Char.{Char, code}

abbrev pub access_to_fabric_role : Dict String String
access_to_fabric_role =
    ("DATA_READ", "Viewer") ∷ ("DATA_WRITE", "Contributor") ∷ ("DATA_ADMIN", "Admin") ∷ []

abbrev pub access_to_uc_priv : Dict String (List String)
access_to_uc_priv =
    ("DATA_READ", "SELECT" ∷ [])
    ∷ ("DATA_WRITE", "MODIFY" ∷ [])
    ∷ ("DATA_ADMIN", "ALL_PRIVILEGES" ∷ [])
    ∷ ("OBJECT_USE", "USE_CATALOG" ∷ [])
    ∷ []

abbrev catalog_privs : Dict String (List String)
catalog_privs =
    ("DATA_READ", "USE_CATALOG" ∷ "SELECT" ∷ [])
    ∷ ("DATA_WRITE", "USE_CATALOG" ∷ "MODIFY" ∷ [])
    ∷ ("DATA_ADMIN", "ALL_PRIVILEGES" ∷ [])
    ∷ ("OBJECT_USE", "USE_CATALOG" ∷ [])
    ∷ []

abbrev schema_privs : Dict String (List String)
schema_privs =
    ("DATA_READ", "USE_SCHEMA" ∷ "SELECT" ∷ [])
    ∷ ("DATA_WRITE", "USE_SCHEMA" ∷ "MODIFY" ∷ [])
    ∷ ("DATA_ADMIN", "ALL_PRIVILEGES" ∷ [])
    ∷ ("OBJECT_USE", "USE_SCHEMA" ∷ [])
    ∷ []

abbrev table_privs : Dict String (List String)
table_privs =
    ("DATA_READ", "SELECT" ∷ [])
    ∷ ("DATA_WRITE", "MODIFY" ∷ [])
    ∷ ("DATA_ADMIN", "ALL_PRIVILEGES" ∷ [])
    ∷ ("OBJECT_USE", [])
    ∷ []

abbrev pub uc_priv_by_scope : Dict String (Dict String (List String))
uc_priv_by_scope =
    ("catalog", catalog_privs) ∷ ("schema", schema_privs) ∷ ("table", table_privs) ∷ []

abbrev pub access_to_dar_actions : Dict String (List String)
access_to_dar_actions =
    ("DATA_READ", "Read" ∷ [])
    ∷ ("DATA_WRITE", "Read" ∷ "Write" ∷ [])
    ∷ ("DATA_ADMIN", "Read" ∷ "Write" ∷ "Reshare" ∷ [])
    ∷ []

pub record ApplyAction : Type 0 where
  pub direction : String
  pub principal : String
  pub securable_scope : String
  pub access_class : String
  pub target_action : String
  pub layer : String
  pub ok : Bool
  pub skipped : Bool
  pub message : String

pub record ApplyReport : Type 0 where
  pub dry_run : Bool
  pub actions : List ApplyAction

abbrev pub n_ok : ApplyReport → ℕ
n_ok r = count_of (λ a. a.ok && not a.skipped) r.actions

abbrev pub n_skipped : ApplyReport → ℕ
n_skipped r = count_of (λ a. a.skipped) r.actions

abbrev pub n_failed : ApplyReport → ℕ
n_failed r = count_of (λ a. not a.ok && not a.skipped) r.actions

is_hex : Char → Bool
is_hex c =
    is_digit c || (leb 65 (code c) && leb (code c) 70) || (leb 97 (code c) && leb (code c) 102)

pieces_match : List ℕ → List String → Bool
pieces_match [] [] = true
pieces_match [] (p ∷ ps) = false
pieces_match (n ∷ ns) [] = false
pieces_match (n ∷ ns) (p ∷ ps) = eqb (text_length p) n && all_chars is_hex p && pieces_match ns ps

-- `_GUID.match(s)`, on a stripped text.
unfoldable pub is_guid : String → Bool
unfolding pieces_match is_hex all_chars text_length split
is_guid s = pieces_match (8 ∷ 4 ∷ 4 ∷ 4 ∷ 12 ∷ []) (split b'-' s)

-- `_is_dbx_internal_principal`, its patterns read without regard to case.
unfoldable pub is_dbx_internal_principal : String → Bool
is_dbx_internal_principal name =
    let n = strip name in
    let l = lower n in
    if has_char b'@' n
    then false
    else if is_guid n
    then false
    else starts_with "_workspace_users_" l || l == "account users" || l == "admins" || l == "users"

unfoldable pub plan_fabric_layer : String → String → String
plan_fabric_layer scope access =
    if starts_with "schema:" scope
    then "unsupported_schema"
    else if starts_with "table:" scope && is_some (lookup access access_to_dar_actions)
    then "onelake_dar"
    else "workspace_role"

-- `(securable_type, full_name, layer)`
pub record UcTarget : Type 0 where
  pub securable_type : String
  pub full_name : String
  pub layer : String

-- `[part for part in name.split(".") if part]`
abbrev pub name_parts : String → List String
name_parts name = keep (λ p. not (is_empty p)) (split b'.' name)

pub uc_target_from_scope : String → String → UcTarget
uc_target_from_scope scope default_catalog =
    let scope_type = before b':' scope in
    let name = strip (after b':' scope) in
    if is_empty scope_type || scope_type == "workspace" || scope_type == "catalog"
    then record {
      securable_type = "catalog";
      full_name = if scope_type == "catalog" && not (is_empty name) then name else default_catalog;
      layer = "uc_catalog_grant";
    }
    else if scope_type == "schema"
    then record {
      securable_type = "schema";
      full_name = if leb 2 (length (name_parts name)) then name else default_catalog <> "." <> name;
      layer = "uc_schema_grant";
    }
    else if scope_type == "table"
    then record {
      securable_type = "table";
      full_name = if leb 3 (length (name_parts name)) then name else default_catalog <> "." <> name;
      layer = "uc_table_grant";
    }
    else record {
      securable_type = "catalog";
      full_name = default_catalog;
      layer = "uc_catalog_grant";
    }

-- `d.get(k) or []`
abbrev or_none : Option (List String) → List String
or_none none = []
or_none (some xs) = xs

abbrev scoped : Option (Dict String (List String)) → Dict String (List String)
scoped none = []
scoped (some d) = d

abbrev or_default : String → Option (List String) → List String
or_default access (some privs) = privs
or_default access none = or_none (lookup access access_to_uc_priv)

pub uc_privileges_for_scope : String → String → List String
uc_privileges_for_scope access securable_type =
    or_default access (lookup access (scoped (lookup securable_type uc_priv_by_scope)))

-- `(target_type, target_name, target_privileges)`
pub record UcGrant : Type 0 where
  pub securable_type : String
  pub full_name : String
  pub privileges : List String

-- `parts and securable_type in {"schema", "table"}`
catalog_grant : String → List String → List UcGrant
catalog_grant securable_type [] = []
catalog_grant securable_type (p ∷ ps) =
    if securable_type == "schema" || securable_type == "table"
    then record { securable_type = "catalog"; full_name = p; privileges = "USE_CATALOG" ∷ [] } ∷ []
    else []

schema_grant : String → List String → List UcGrant
schema_grant securable_type [] = []
schema_grant securable_type (p ∷ []) = []
schema_grant securable_type (p ∷ q ∷ ps) =
    if securable_type == "table"
    then record {
      securable_type = "schema";
      full_name = p <> "." <> q;
      privileges = "USE_SCHEMA" ∷ [];
    }
      ∷ []
    else []

pub uc_parent_grants : String → String → List UcGrant
unfolding catalog_grant schema_grant
uc_parent_grants securable_type full_name =
    let parts = name_parts full_name in
    catalog_grant securable_type parts ++ schema_grant securable_type parts

pub uc_grant_operations : String → String → List String → List UcGrant
uc_grant_operations securable_type full_name privileges =
    uc_parent_grants securable_type full_name
    ++ (record { securable_type = securable_type; full_name = full_name; privileges = privileges }
        ∷ [])
