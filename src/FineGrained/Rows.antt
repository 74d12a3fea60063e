-- ===== src/FineGrained/Rows.antt =====
-- `build_fabric_row_constraint` of app/services/fine_grained_policy.py, and the steps from the body of
-- a Databricks function to the predicate of a Fabric role.
pub mod Safe
use Prim.Native.String
use fabric_unified_permissio.Base.{
  String, ◌<>◌, Bool, true, false, not, ◌&&◌, ◌||◌, List, [], ◌∷◌, Option, none, some,
}
use fabric_unified_permissio.Base.{◌==◌, string_eq, if◌then◌else◌, keep, eqb, length}
use fabric_unified_permissio.Base.Json.{Json, str, obj, end, field, get, text_of}
use fabric_unified_permissio.Base.Outcome.{Outcome, ok, raised, ◌>>=◌}
use fabric_unified_permissio.Base.Scan.{
  Scan, one, word, many, some_of, maybe, at_end, lazily, greedily, capture, is_char, is_word_char,
  in_turn,
}
use fabric_unified_permissio.Base.Text.{is_blank, is_empty, strip, upper, join}
use fabric_unified_permissio.FineGrained.Predicate.{
  normalize_row_predicate, validate_safe_row_predicate,
}
use fabric_unified_permissio.FineGrained.Scope.{
  FabricConstraintTranslation, demand, require_safe_identifier, safe_table, path_of,
  function_param_names, Hashing, constraint_hash, TableParts,
}

abbrev renamed : String → String → String → String
renamed param column w = if w == param then column else w

-- `re.sub(rf"\b{param}\b", column, text)` for two identifiers, with the word that is being read.
pub rename_words : String → String → String → String → String
rename_words param column String.[] w = renamed param column w
rename_words param column (String.◌∷◌ c s) w =
    let more = rename_words param column s (w <> String.◌∷◌ c "") in
    let cut = rename_words param column s "" in
    if is_word_char c then more else renamed param column w <> String.◌∷◌ c cut

pub map_param : String → String → String → Outcome String
unfolding rename_words
map_param param column mapped =
    if is_empty param || is_empty column || param == column
    then ok mapped
    else (require_safe_identifier param "function parameter" >>= λ u.
        require_safe_identifier column "input column" >>= λ v.
        ok (rename_words param column mapped ""))

pub map_params : List String → List String → String → Outcome String
map_params (p ∷ ps) (c ∷ cs) mapped = map_param p c mapped >>= map_params ps cs
map_params _ _ mapped = ok mapped

unfoldable pub map_function_params : String → List String → List String → Outcome String
unfolding map_params map_param
map_function_params expression param_names input_columns =
    if eqb (length param_names) (length input_columns)
    then map_params param_names input_columns expression
    else ok expression

-- An expression and the note on what was taken from it.
pub record Noted : Type 0 where
  pub expression : String
  pub note : String

abbrev blanks : Scan
blanks = many is_blank

abbrev gap : Scan
gap = some_of is_blank

abbrev sign : String → Scan
sign s = word s

-- `_GROUP_MEMBER_PREFIX.match(expression)`
pub group_member_rest : String → Option String
unfolding capture in_turn some_of many word one maybe lazily at_end
group_member_rest =
    capture
      (blanks
        ∷ word "is_"
        ∷ maybe (word "account_")
        ∷ word "group_member"
        ∷ blanks
        ∷ sign "("
        ∷ blanks
        ∷ sign "'"
        ∷ some_of (λ c. not (is_char 39 c))
        ∷ sign "'"
        ∷ blanks
        ∷ sign ")"
        ∷ gap
        ∷ word "and"
        ∷ gap
        ∷ [])
      lazily (blanks ∷ at_end ∷ [])

-- `_CURRENT_USER_WRAPPER.match(expression)`
pub current_user_body : String → Option String
unfolding capture in_turn some_of many word one greedily at_end
current_user_body =
    capture
      (blanks
        ∷ word "case"
        ∷ gap
        ∷ word "when"
        ∷ gap
        ∷ word "current_user"
        ∷ blanks
        ∷ sign "("
        ∷ blanks
        ∷ sign ")"
        ∷ gap
        ∷ word "in"
        ∷ blanks
        ∷ sign "("
        ∷ many (λ c. not (is_char 41 c))
        ∷ sign ")"
        ∷ gap
        ∷ word "then"
        ∷ blanks
        ∷ sign "("
        ∷ [])
      greedily
      (sign ")" ∷ gap ∷ word "else" ∷ gap ∷ word "true" ∷ gap ∷ word "end" ∷ blanks ∷ at_end ∷ [])

abbrev without_user : Option String → String → Noted
without_user none expression = record { expression = expression; note = "" }
without_user (some body) expression = record {
  expression = strip body;
  note = "removed Databricks current_user wrapper before comparing Fabric row constraint";
}

unfoldable pub remove_databricks_current_user_wrapper : String → Noted
unfolding current_user_body
remove_databricks_current_user_wrapper expression =
    without_user (current_user_body expression) expression

abbrev without_group : Bool → Option String → String → Outcome Noted
without_group allow none expression = ok (record { expression = expression; note = "" })
without_group false (some rest) expression =
    raised "Databricks group-membership predicates need explicit production mapping"
without_group true (some rest) expression = ok (record {
  expression = strip rest;
  note =
      "removed Databricks-only group-membership predicate before applying Fabric DAS row constraint";
})

unfoldable pub remove_databricks_group_predicate : Bool → String → Outcome Noted
unfolding group_member_rest
remove_databricks_group_predicate allow_test_degraded expression =
    without_group allow_test_degraded (group_member_rest expression) expression

abbrev pub row_constraint : TableParts → String → String → FabricConstraintTranslation
row_constraint t expression note = record {
  table_path = path_of t;
  predicate = "select * from " <> t.schema <> "." <> t.table <> " where " <> expression;
  column_names = [];
  note = note;
}

abbrev pub body_of : Json → String
body_of function_info = strip (text_of (get function_info "routine_definition"))

abbrev pub is_boolean : Json → Bool
is_boolean function_info = upper (text_of (get function_info "data_type")) == "BOOLEAN"

unfoldable pub build_fabric_row_constraint :
    String → String → Json → List String → Bool → Outcome FabricConstraintTranslation
build_fabric_row_constraint scope default_catalog function_info input_columns allow_test_degraded =
    do
      t ← safe_table scope default_catalog "row filters can only be translated for table scope"
      a ← demand (is_boolean function_info) "UC row-filter function must return BOOLEAN"
      b ←
          demand (not (is_empty (body_of function_info)))
            "UC row-filter function definition is unavailable"
      mapped ←
          map_function_params (body_of function_info) (function_param_names function_info)
            input_columns
      let unwrapped = remove_databricks_current_user_wrapper mapped
      rest ← remove_databricks_group_predicate allow_test_degraded unwrapped.expression
      c ← validate_safe_row_predicate rest.expression
      ok (
          row_constraint t rest.expression
            (join "; " (keep (λ part. not (is_empty part)) (unwrapped.note ∷ rest.note ∷ []))))

module _ (H : Hashing) where
  pub canonical_row_filter_key : String → String → String
  canonical_row_filter_key scope predicate_or_query = constraint_hash H (
      obj (
        field "kind" (str "row_filter") (
          field "scope" (str scope)
            (field "predicate" (str (normalize_row_predicate predicate_or_query)) end))))
