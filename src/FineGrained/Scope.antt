-- ===== src/FineGrained/Scope.antt =====
-- Identifiers, scopes, parameters and keys of app/services/fine_grained_policy.py.
use fabric_unified_permissio.Base.{
  ◌≡◌, refl, String, ◌<>◌, Bool, true, false, not, ◌&&◌, ◌||◌, List, [], ◌∷◌, Option, none, some,
}
use fabric_unified_permissio.Base.{◌==◌, string_eq, if◌then◌else◌, keep, map}
use fabric_unified_permissio.Base.Json.{
  Json, str, arr, obj, end, field, get, text_of, is_dict, or_else, elements, array_of,
}
use fabric_unified_permissio.Base.Outcome.{Ensures, Outcome, ok, raised, ◌>>=◌}
use fabric_unified_permissio.Base.Scan.{is_word_char}
use fabric_unified_permissio.Base.Sort.{sorted}
use fabric_unified_permissio.Base.Text.{
  is_empty, strip, split, before, after, all_chars, text_leb, is_upper, is_lower, first,
}
use fabric_unified_permissio.Base.{eqb}
use Prim.Native.Char.{code}

pub record FabricConstraintTranslation : Type 0 where
  pub table_path : String
  pub predicate : String
  pub column_names : List String
  pub note : String

-- `_SAFE_IDENTIFIER.fullmatch(value)`
unfoldable pub safe_identifier : String → Bool
unfolding all_chars
safe_identifier String.[] = false
safe_identifier (String.◌∷◌ c s) =
    (is_upper c || is_lower c || eqb (code c) b'_') && all_chars is_word_char s

abbrev pub Check : Type 0
Check = Outcome {0} Unit

-- A check that raises a ValueError.
abbrev pub demand : Bool → String → Check
demand true e = ok tt
demand false e = raised e

pub demand-Ensures : (b : Bool) (e : String) → Ensures (λ u. b ≡ true) (demand b e)
demand-Ensures true e = refl
demand-Ensures false e = tt

abbrev pub require_safe_identifier : String → String → Check
require_safe_identifier value label =
    demand (safe_identifier value) ("unsupported " <> label <> " identifier '" <> value <> "'")

pub record TableParts : Type 0 where
  pub catalog : String
  pub schema : String
  pub table : String

pub parts_of : String → List String → Option TableParts
parts_of default_catalog (a ∷ b ∷ c ∷ more) = some (record { catalog = a; schema = b; table = c })
parts_of default_catalog (a ∷ b ∷ []) =
    if is_empty default_catalog
    then none
    else some (record { catalog = default_catalog; schema = a; table = b })
parts_of default_catalog _ = none

unfoldable pub table_parts_from_scope : String → String → Option TableParts
unfolding parts_of before after split
table_parts_from_scope scope default_catalog =
    if before b':' scope == "table"
    then parts_of default_catalog
        (keep (λ part. not (is_empty part)) (split b'.' (after b':' scope)))
    else none

abbrev pub at_table : Option TableParts → String → Outcome TableParts
at_table none e = raised e
at_table (some t) e = ok t

-- The table of a scope, with a schema and a name that are safe.
unfoldable pub safe_table : String → String → String → Outcome TableParts
safe_table scope default_catalog e = do
  t ← at_table (table_parts_from_scope scope default_catalog) e
  u ← require_safe_identifier t.schema "schema"
  v ← require_safe_identifier t.table "table"
  ok t

abbrev pub path_of : TableParts → String
path_of t = "/Tables/" <> t.schema <> "/" <> t.table

unfoldable pub fabric_table_path : String → String → Outcome String
unfolding safe_table
fabric_table_path scope default_catalog = do
  t ← safe_table scope default_catalog "fine-grained Fabric DAS constraints require table scope"
  ok (path_of t)

abbrev is_named_param : Json → Bool
is_named_param param =
    is_dict param
    && text_of (or_else (get param "parameter_type") (str "PARAM")) == "PARAM"
    && not (is_empty (strip (text_of (get param "name"))))

-- The names are texts in what Unity Catalog answers.
unfoldable pub function_param_names : Json → List String
function_param_names function_info =
    map (λ param. strip (text_of (get param "name")))
      (keep is_named_param (elements (get (get function_info "input_params") "parameters")))

-- `json.dumps` with sorted keys, and the hexadecimal SHA-256 of a text.
pub record Hashing : Type 0 where
  pub dumps : Json → String
  pub sha256 : String → String

module _ (H : Hashing) where
  pub constraint_hash : Json → String
  constraint_hash value = first 16 (H.sha256 (H.dumps value))

  pub canonical_column_constraint_key : String → List String → String
  unfolding constraint_hash
  canonical_column_constraint_key scope column_names = constraint_hash (
      obj (
        field "kind" (str "column_mask") (
          field "scope" (str scope)
            (field "columns" (arr (array_of (map str (sorted text_leb column_names)))) end))))
