-- ===== src/FineGrained/Predicate.antt =====
-- The predicates of row filters in app/services/fine_grained_policy.py: which ones are accepted, and
-- how a Databricks expression becomes one of Fabric.
use Prim.Native.Char.{Char, code}
use fabric_unified_permissio.Base.{
  String, ◌<>◌, Bool, not, ◌&&◌, ◌||◌, List, [], ◌∷◌, ◌++◌, Option, none, some,
}
use fabric_unified_permissio.Base.{◌==◌, string_eq, if◌then◌else◌, contains, any_of, eqb}
use fabric_unified_permissio.Base.Outcome.{Outcome, ok, raised, ◌>>=◌}
use fabric_unified_permissio.Base.Scan.{
  Scan, one, word, many, some_of, at_end, any_lazy, lazily, capture, is_char, is_word_char, runs,
  in_turn,
}
use fabric_unified_permissio.Base.Text.{
  has_text, is_blank, is_empty, strip, lower, lstrip, all_chars, join, is_digit,
}
use fabric_unified_permissio.FineGrained.Scope.{Check, demand, require_safe_identifier}

abbrev blanks : Scan
blanks = many is_blank

abbrev gap : Scan
gap = some_of is_blank

abbrev or_same : Option String → String → String
or_same none s = s
or_same (some t) s = t

-- `_SELECT_WHERE.match(raw)`
pub where_clause : String → Option String
unfolding capture in_turn some_of many word one any_lazy lazily at_end
where_clause =
    capture
      (blanks
        ∷ word "select"
        ∷ gap
        ∷ one (is_char b'*')
        ∷ gap
        ∷ word "from"
        ∷ gap
        ∷ any_lazy
        ∷ gap
        ∷ word "where"
        ∷ gap
        ∷ [])
      lazily (blanks ∷ at_end ∷ [])

unfoldable pub normalize_row_predicate : String → String
unfolding where_clause runs
normalize_row_predicate predicate_or_query =
    let raw = strip predicate_or_query in
    join " " (runs (λ c. not (is_blank c)) (or_same (where_clause raw) raw) "")

-- A name that a call may open: a run of word characters that does not begin with a digit, blanks
-- and `(`.
opens : String → String → List String
opens String.[] rest = []
opens (String.◌∷◌ c s) rest = elim (lstrip rest) [
  | String.[] ↦ []
  | String.◌∷◌ d t ↦ if not (is_digit c) && eqb (code d) b'(' then String.◌∷◌ c s ∷ [] else []
]

-- `_SQL_FUNCTION.findall(raw)`, with the run that is being read.
pub function_names : String → String → List String
unfolding opens
function_names String.[] piece = []
function_names (String.◌∷◌ c s) piece =
    let more = function_names s (piece <> String.◌∷◌ c "") in
    let cut = function_names s "" in
    if is_word_char c then more else opens piece (String.◌∷◌ c s) ++ cut

-- The first function that is not `in`.
pub unsupported_function : List String → Option String
unsupported_function [] = none
unsupported_function (f ∷ fs) =
    let rest = unsupported_function fs in if lower f == "in" then rest else some f

abbrev pub blocked_tokens : List String
blocked_tokens = ";" ∷ "--" ∷ "/*" ∷ "*/" ∷ []

abbrev pub statement_keywords : List String
statement_keywords =
    "select" ∷ "insert" ∷ "update" ∷ "delete" ∷ "merge" ∷ "drop" ∷ "alter" ∷ "create" ∷ "exec"
    ∷ "execute" ∷ "grant" ∷ "revoke" ∷ []

-- `[A-Za-z0-9_\s'\"=<>!,().-]`
abbrev pub is_predicate_char : Char → Bool
is_predicate_char c =
    is_word_char c
    || is_blank c
    || any_of (eqb (code c))
        (39 ∷ 34 ∷ b'=' ∷ b'<' ∷ b'>' ∷ b'!' ∷ b',' ∷ b'(' ∷ b')' ∷ b'.' ∷ b'-' ∷ [])

abbrev pub no_function : Option String → Check
no_function none = ok tt
no_function (some f) = raised ("row predicate contains unsupported function '" <> f <> "'")

pub has_blocked_token : String → Bool
unfolding has_text
has_blocked_token raw = any_of (λ token. has_text token raw) blocked_tokens

pub has_keyword : String → Bool
unfolding runs
has_keyword raw = any_of (λ w. contains statement_keywords (lower w)) (runs is_word_char raw "")

pub first_unsupported : String → Option String
unfolding function_names unsupported_function
first_unsupported raw = unsupported_function (function_names raw "")

unfoldable pub validate_safe_row_predicate : String → Check
unfolding has_blocked_token has_keyword first_unsupported all_chars
validate_safe_row_predicate expression = do
  let raw = strip expression
  a ← demand (not (is_empty raw)) "empty row predicate"
  b ← demand (not (has_blocked_token raw)) "row predicate contains blocked SQL token"
  c ← demand (not (has_keyword raw)) "row predicate contains unsupported SQL statement keyword"
  d ← no_function (first_unsupported raw)
  demand (all_chars is_predicate_char raw) "row predicate contains unsupported characters"

abbrev if_found : Bool → String → List String → List String
if_found b name rest = if b then name ∷ rest else rest

abbrev next_column : List String → String → Outcome (List String) → Outcome (List String)
next_column words name rest =
    if is_empty name
    then rest
    else (require_safe_identifier name "column" >>= λ u.
        rest >>= λ names. ok (if_found (contains words name) name names))

-- The columns whose names are words of the predicate.
pub columns_in : List String → List String → Outcome (List String)
columns_in words [] = ok []
columns_in words (c ∷ cs) = next_column words (strip c) (columns_in words cs)

unfoldable pub referenced_columns : String → List String → Outcome (List String)
unfolding columns_in runs
referenced_columns expression table_columns =
    let raw = normalize_row_predicate expression in
    validate_safe_row_predicate raw >>= λ u. columns_in (runs is_word_char raw "") table_columns
