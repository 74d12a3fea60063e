-- ===== src/PairApply/UcSql.antt =====
-- The SQL that gives Unity Catalog a constraint of Fabric (app/services/pair_apply.py). The columns of
-- the table are what `get_table` reports, or its exception.
pub mod Members
use Prim.Native.Char.{Char, code}
use Prim.Native.String
use fabric_unified_permissio.Base.{
  String, ◌<>◌, Bool, true, false, not, ◌&&◌, ◌||◌, List, [], ◌∷◌, ◌++◌, Option, none, some,
}
use fabric_unified_permissio.Base.{
  ◌==◌, string_eq, if◌then◌else◌, eqb, keep, map, contains, any_of, all_of,
}
use fabric_unified_permissio.Base.Dict.{Dict, insert, lookup, keys, has}
use fabric_unified_permissio.Base.Json.{
  Json, str, Fields, get, get_field, is_dict, text_of, truthy, elements, or_else,
}
use fabric_unified_permissio.Base.Http.{Services}
use fabric_unified_permissio.Base.Outcome.{Outcome, ok, raised, ◌>>=◌}
use fabric_unified_permissio.Base.Scan.{is_word_char, runs}
use fabric_unified_permissio.Base.Sort.{sorted}
use fabric_unified_permissio.Base.Text.{
  is_empty, is_blank, strip, lower, first, join, all_chars, text_leb,
}
use fabric_unified_permissio.FineGrained.Predicate.{normalize_row_predicate, referenced_columns}
use fabric_unified_permissio.FineGrained.Scope.{
  demand, safe_identifier, TableParts, table_parts_from_scope, at_table,
}
use fabric_unified_permissio.PairApply.DataRoles.Write.{Identity}
use fabric_unified_permissio.PairApply.Graph.{resolve_fabric_principal_to_uc_principal}
use fabric_unified_permissio.PairDiff.{DiffRow}

-- `_safe_uc_name`
unfoldable pub safe_uc_name : String → String → Outcome TableParts
safe_uc_name scope default_catalog = do
  t ←
      at_table (table_parts_from_scope scope default_catalog)
        "Fabric-to-DBX row/column policies require table scope"
  a ← demand (safe_identifier t.catalog) ("unsupported UC identifier '" <> t.catalog <> "'")
  b ← demand (safe_identifier t.schema) ("unsupported UC identifier '" <> t.schema <> "'")
  c ← demand (safe_identifier t.table) ("unsupported UC identifier '" <> t.table <> "'")
  ok t

abbrev pub is_type_char : Char → Bool
is_type_char c = is_word_char c || is_blank c || any_of (eqb (code c)) (b'(' ∷ b')' ∷ b',' ∷ [])

-- `" ".join(raw.split())`
abbrev one_spaced : String → String
one_spaced raw = join " " (runs (λ c. not (is_blank c)) raw "")

unfoldable pub safe_uc_type : Json → Outcome String
safe_uc_type column = do
  let raw = strip (text_of (or_else (get column "type_text") (get column "type_name")))
  a ←
      demand (not (is_empty raw))
        ("column '" <> text_of (get column "name") <> "' has no UC type metadata")
  b ← demand (all_chars is_type_char raw) ("unsupported UC type '" <> raw <> "'")
  ok (one_spaced raw)

pub uc_function_name : Identity → String → String → String → String → String
uc_function_name i catalog schema prefix seed =
    catalog <> "." <> schema <> "." <> prefix <> "_" <> first 10 (i.sha256 seed)

pub mask_literal_for_type : String → String
mask_literal_for_type uc_type =
    if contains ("string" ∷ "varchar" ∷ "char" ∷ []) (lower (strip uc_type))
    then "'***MASKED***'"
    else "CAST(NULL AS " <> uc_type <> ")"

-- `value.replace("'", "''")`
pub doubled : String → String
doubled String.[] = ""
doubled (String.◌∷◌ c s) =
    let rest = doubled s in
    if eqb (code c) 39 then String.◌∷◌ c (String.◌∷◌ c rest) else String.◌∷◌ c rest

unfoldable pub sql_string : String → String
unfolding doubled
sql_string value = "'" <> doubled value <> "'"

-- `sorted(set(texts))`
abbrev add_new : String → List String → List String
add_new x xs = if contains xs x then xs else x ∷ xs

abbrev set_of : List String → List String
set_of [] = []
set_of (x ∷ xs) = add_new x (set_of xs)

abbrev add_some : Option String → List String → List String
add_some none xs = xs
add_some (some x) xs = if is_empty x then xs else x ∷ xs

abbrev pub raw_principal : Json → Json
raw_principal m = or_else (get m "objectId") (
    or_else (get m "id")
      (or_else (get m "userPrincipalName") (or_else (get m "displayName") (str ""))))

abbrev pub raw_type : Json → Json
raw_type m = or_else (get m "objectType") (or_else (get m "type") (str "User"))

module _ (S : Services) (s : S.State) where
  -- The members that Graph knows: one that it does not know is left out.
  pub resolved_members : List Json → List String
  resolved_members [] = []
  resolved_members (m ∷ ms) =
      add_some
        (resolve_fabric_principal_to_uc_principal S (text_of (raw_principal m))
          (text_of (raw_type m)) s)
        (resolved_members ms)

  pub constraint_uc_member_principals : Fields → List String
  unfolding resolved_members
  constraint_uc_member_principals details =
      sorted text_leb
        (set_of (resolved_members (keep is_dict (elements (get_field "members" details)))))

abbrev pub scoped_to : List String → String → String → String
scoped_to [] inside outside = inside
scoped_to (p ∷ ps) inside outside =
    "CASE WHEN current_user() IN ("
    <> join ", " (map sql_string (p ∷ ps))
    <> ") THEN "
    <> inside
    <> " ELSE "
    <> outside
    <> " END"

-- `_member_scoped_row_expression`, which puts the predicate in parentheses, and
-- `_member_scoped_mask_expression`.
abbrev pub row_expression : List String → String → String
row_expression [] predicate = predicate
row_expression (p ∷ ps) predicate = scoped_to (p ∷ ps) ("(" <> predicate <> ")") "true"

abbrev pub mask_expression : List String → String → String
mask_expression principals mask_literal = scoped_to principals mask_literal "value"

-- `{str(column["name"]): column for column in column_metadata}`
unfoldable pub columns_by_name : Dict String Json → List Json → Dict String Json
columns_by_name d [] = d
columns_by_name d (c ∷ cs) = columns_by_name (insert (text_of (get c "name")) c d) cs

abbrev pub named_columns : List Json → Dict String Json
named_columns columns = columns_by_name [] (keep (λ c. is_dict c && truthy (get c "name")) columns)

abbrev pub type_in : Option Json → Outcome String
type_in none = raised "KeyError"
type_in (some c) = safe_uc_type c

pub parameters : Dict String Json → List String → Outcome (List String)
parameters d [] = ok []
parameters d (c ∷ cs) = do
  t ← type_in (lookup c d)
  rest ← parameters d cs
  ok ((c <> " " <> t) ∷ rest)

abbrev pub is_nil : List String → Bool
is_nil [] = true
is_nil (x ∷ xs) = false

abbrev pub names_of : List Json → List String
names_of js = map text_of js

-- The one column that a constraint hides.
abbrev pub the_hidden : List String → Outcome String
the_hidden [] = raised "Fabric column constraint does not hide any UC columns"
the_hidden (h ∷ []) = ok h
the_hidden (h ∷ k ∷ more) =
    raised
      "Fabric column constraint hides multiple columns; UC masks are per-column, so apply one hidden-column policy at a time"

abbrev pub table_name_of : TableParts → String
table_name_of t = t.catalog <> "." <> t.schema <> "." <> t.table

abbrev pub or_read : List String → List String
or_read [] = "Read" ∷ []
or_read (a ∷ as_more) = a ∷ as_more

module _ (S : Services) (i : Identity) (s : S.State) (default_catalog : String) where
  pub row_filter_statements :
      TableParts → String → List String → List String → List String → List String
  unfolding uc_function_name
  row_filter_statements t predicate inputs params principals =
      let f =
        uc_function_name i t.catalog t.schema "hub_fabric_rls"
          (table_name_of t <> "|" <> predicate <> "|" <> join "," inputs) in
      ("CREATE OR REPLACE FUNCTION "
        <> f
        <> "("
        <> join ", " params
        <> ") RETURNS BOOLEAN RETURN "
        <> row_expression principals predicate)
      ∷ ("ALTER TABLE "
          <> table_name_of t
          <> " SET ROW FILTER "
          <> f
          <> " ON ("
          <> join ", " inputs
          <> ")")
      ∷ []

  unfoldable pub fabric_row_filter_uc_sql : DiffRow → Outcome (List Json) → Outcome (List String)
  unfolding row_filter_statements parameters constraint_uc_member_principals
  fabric_row_filter_uc_sql row metadata = do
    t ← safe_uc_name row.securable_scope default_catalog
    let predicate = normalize_row_predicate (text_of (get_field "predicate" row.constraint_details))
    a ← demand (not (is_empty predicate)) "Fabric row constraint predicate is unavailable"
    columns ← metadata
    inputs ← referenced_columns predicate (keys (named_columns columns))
    b ← demand (not (is_nil inputs)) "Fabric row predicate did not reference any table columns"
    params ← parameters (named_columns columns) inputs
    ok (
        row_filter_statements t predicate inputs params
          (constraint_uc_member_principals S s row.constraint_details))

  pub mask_statements : TableParts → String → String → List String → List String → List String
  unfolding uc_function_name mask_literal_for_type
  mask_statements t hidden uc_type shown principals =
      let f =
        uc_function_name i t.catalog t.schema "hub_fabric_mask"
          (table_name_of t <> "|" <> hidden <> "|" <> join "," (sorted text_leb (set_of shown))) in
      ("CREATE OR REPLACE FUNCTION "
        <> f
        <> "(value "
        <> uc_type
        <> ") RETURNS "
        <> uc_type
        <> " RETURN "
        <> mask_expression principals (mask_literal_for_type uc_type))
      ∷ ("ALTER TABLE " <> table_name_of t <> " ALTER COLUMN " <> hidden <> " SET MASK " <> f)
      ∷ []

  pub fabric_column_mask_uc_sql : DiffRow → Outcome (List Json) → Outcome (List String)
  unfolding mask_statements constraint_uc_member_principals
  fabric_column_mask_uc_sql row metadata = do
    t ← safe_uc_name row.securable_scope default_catalog
    let d = row.constraint_details
    a ←
        demand (lower (text_of (or_else (get_field "column_effect" d) (str "Permit"))) == "permit")
          "only Fabric Permit column constraints can map to UC masks"
    b ←
        demand
          (contains (map lower (or_read (names_of (elements (get_field "column_action" d)))))
            "read")
          "Fabric column constraint must include Read action"
    let shown = names_of (elements (get_field "columns" d))
    c ← demand (not (is_nil shown)) "Fabric column constraint has no permitted columns"
    columns ← metadata
    e ←
        demand (all_of (λ x. has x (named_columns columns)) shown)
          "Fabric column constraint references missing UC columns"
    hidden ← the_hidden (keep (λ x. not (contains shown x)) (keys (named_columns columns)))
    uc_type ← type_in (lookup hidden (named_columns columns))
    ok (mask_statements t hidden uc_type shown (constraint_uc_member_principals S s d))

  -- `_fabric_constraint_uc_sql`
  unfoldable pub fabric_constraint_uc_sql : DiffRow → Outcome (List Json) → Outcome (List String)
  fabric_constraint_uc_sql row metadata =
      if row.constraint_kind == "row_filter"
      then fabric_row_filter_uc_sql row metadata
      else if row.constraint_kind == "column_mask"
      then fabric_column_mask_uc_sql row metadata
      else raised ("unsupported fine-grained constraint kind '" <> row.constraint_kind <> "'")
