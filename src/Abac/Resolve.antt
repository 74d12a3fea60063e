-- ===== src/Abac/Resolve.antt =====
-- The governed tags of a catalog and `resolve_policy` of app/services/abac_resolver.py. The maps of
-- the snapshot are functions: a missing key has no tags and no columns.
pub mod Sound
use fabric_unified_permissio.Base.{
  String, Bool, true, false, ◌&&◌, ◌||◌, List, [], ◌∷◌, ◌++◌, Option, none, some,
}
use fabric_unified_permissio.Base.{◌==◌, string_eq, if◌then◌else◌, any_of, keep, map}
use fabric_unified_permissio.Base.Dict.{Dict, insert, lookup, values}
use fabric_unified_permissio.Base.Json.{Json, get, text_of, truthy, is_dict, elements, or_else}
use fabric_unified_permissio.Base.Outcome.{Outcome, ok, raised, ◌>>=◌}
use fabric_unified_permissio.Base.Text.{has_text, lower, upper, split}
use fabric_unified_permissio.Abac.Parse.{Python, TagCondition, parse_tag_condition}

abbrev pub Tags : Type 0
Tags = Dict String String

pub record GovernedTags : Type 0 where
  pub catalog : Tags
  pub schema : String → Tags
  pub table : String → String → Tags
  pub column : String → String → String → Tags

-- `merged.update(d)`
pub update : Tags → Tags → Tags
update m [] = m
update m ((k, v) ∷ d) = update (insert k v m) d

unfoldable pub effective_table_tags : GovernedTags → String → String → Tags
unfolding update
effective_table_tags g schema table =
    update (update (update [] g.catalog) (g.schema schema)) (g.table schema table)

-- `{str(k).lower(): v for k, v in tags.items()}`
lower_from : Tags → Tags → Tags
lower_from d [] = d
lower_from d ((k, v) ∷ tags) = lower_from (insert (lower k) v d) tags

unfoldable pub lower_keys : Tags → Tags
unfolding lower_from
lower_keys = lower_from []

pub record ResolvedTarget : Type 0 where
  pub constraint_kind : String
  pub schema : String
  pub table : String
  pub function_name : String
  pub column : String
  pub input_columns : List String
  pub policy_id : String
  pub policy_name : String
  pub when_condition : String
  pub to_principals : List String
  pub except_principals : List String

-- `policy.get(a) or policy.get(b)`
abbrev pub either_of : Json → String → String → Json
either_of policy a b = or_else (get policy a) (get policy b)

unfoldable pub policy_kind : Json → String
unfolding has_text upper
policy_kind policy =
    let ptype = upper (text_of (either_of policy "policy_type" "policyType")) in
    if truthy (either_of policy "column_mask" "columnMask") || has_text "COLUMN_MASK" ptype
    then "column_mask"
    else if truthy (either_of policy "row_filter" "rowFilter") || has_text "ROW_FILTER" ptype
    then "row_filter"
    else ""

-- A value that is no dict answers every `get` with None here, as `{}` does.
pub policy_spec : Json → String → Json
policy_spec policy kind =
    if kind == "column_mask"
    then either_of policy "column_mask" "columnMask"
    else either_of policy "row_filter" "rowFilter"

pub match_columns : Json → List Json
match_columns policy = keep is_dict (elements (either_of policy "match_columns" "matchColumns"))

abbrev Place : Type 0
Place = String × String

abbrev in_schema : String → List String → List Place
in_schema schema tables = map (λ t. (schema, t)) tables

abbrev pub all_tables : Dict String (List String) → List Place
all_tables [] = []
all_tables ((schema, tables) ∷ d) = in_schema schema tables ++ all_tables d

abbrev tables_in : Option (List String) → List String
tables_in none = []
tables_in (some ts) = ts

-- The scope that the attachment of a policy names, and the tables that it covers.
scoped : String → List String → Dict String (List String) → List Place
scoped on_type (a ∷ b ∷ c ∷ more) d =
    if on_type == "SCHEMA"
    then in_schema b (tables_in (lookup b d))
    else if on_type == "TABLE"
    then (b, c) ∷ []
    else all_tables d
scoped on_type (a ∷ b ∷ []) d =
    if on_type == "SCHEMA" then in_schema b (tables_in (lookup b d)) else all_tables d
scoped on_type _ d = all_tables d

unfoldable pub candidate_tables : Json → Dict String (List String) → List Place
unfolding scoped upper split
candidate_tables policy tables_by_schema =
    scoped (upper (text_of (either_of policy "on_securable_type" "onSecurableType")))
      (split b'.' (text_of (either_of policy "on_securable_fullname" "onSecurableFullname")))
      tables_by_schema

-- The columns that a condition holds for.
pub matching : (String → Outcome Bool) → List String → Outcome (List String)
matching holds [] = ok []
matching holds (c ∷ cs) = do
  b ← holds c
  rest ← matching holds cs
  ok (if b then c ∷ rest else rest)

pub alias_matches :
    Dict String TagCondition → (String → Tags) → List String → Outcome (Dict String (List String))
unfolding matching lower_keys
alias_matches [] tags columns = ok []
alias_matches ((a, cond) ∷ d) tags columns = do
  matched ← matching (λ c. cond.predicate (lower_keys (tags c))) columns
  rest ← alias_matches d tags columns
  ok ((a, matched) ∷ rest)

-- `{alias: parse_tag_condition(condition)}`, where a later alias replaces an earlier one.
conditions_from : Python → Dict String TagCondition → List Json → Outcome (Dict String TagCondition)
unfolding parse_tag_condition
conditions_from py d [] = ok d
conditions_from py d (m ∷ ms) = do
  c ← parse_tag_condition py (text_of (get m "condition"))
  conditions_from py (insert (text_of (get m "alias")) c d) ms

abbrev is_none_matched : List String → Bool
is_none_matched [] = true
is_none_matched (c ∷ cs) = false

abbrev first_values : Dict String (List String) → List String
first_values [] = []
first_values ((a, cols) ∷ d) = cols

-- The masked columns: those of the alias, or where it has none those of the first alias.
abbrev pub masked_columns : Option (List String) → Dict String (List String) → List String
masked_columns (some (c ∷ cs)) d = c ∷ cs
masked_columns _ d = first_values d

abbrev first_column : Option (List String) → List String
first_column (some (c ∷ cs)) = c ∷ []
first_column _ = []

using_from : List Json → Dict String (List String) → List String
using_from [] d = []
using_from (e ∷ es) d =
    (if is_dict e && truthy (get e "alias")
      then first_column (lookup (text_of (get e "alias")) d)
      else [])
    ++ using_from es d

-- `_resolve_using_columns`
pub resolve_using_columns : Json → Dict String (List String) → List String
unfolding using_from
resolve_using_columns spec d = using_from (elements (get spec "using")) d

-- What does not depend on the table.
pub record Policy : Type 0 where
  pub kind : String
  pub spec : Json
  pub when : TagCondition
  pub conditions : Dict String TagCondition
  pub target : ResolvedTarget

abbrev pub mask_target : Policy → Place → String → ResolvedTarget
mask_target p (s, t) c = record p.target {
  constraint_kind = "column_mask";
  schema = s;
  table = t;
  column = c;
  input_columns = c ∷ [];
}

abbrev pub filter_target : Policy → Place → Dict String (List String) → ResolvedTarget
filter_target p (s, t) d = record p.target {
  constraint_kind = "row_filter";
  schema = s;
  table = t;
  input_columns = resolve_using_columns p.spec d;
}

abbrev pub targets_of : Policy → Place → Dict String (List String) → List ResolvedTarget
targets_of p at d =
    if any_of is_none_matched (values d)
    then []
    else if p.kind == "column_mask"
    then map (mask_target p at)
        (masked_columns (lookup (text_of (either_of p.spec "on_column" "onColumn")) d) d)
    else filter_target p at d ∷ []

module _ (g : GovernedTags) (columns_by_table : String → String → List String) (p : Policy) where
  pub at_table : Place → Bool → Outcome (List ResolvedTarget)
  unfolding alias_matches
  at_table (s, t) false = ok []
  at_table (s, t) true = alias_matches p.conditions (g.column s t) (columns_by_table s t) >>= λ d.
      ok (targets_of p (s, t) d)

  unfoldable pub resolve_tables : List Place → Outcome (List ResolvedTarget)
  unfolding at_table
  resolve_tables [] = ok []
  resolve_tables ((s, t) ∷ places) = do
    b ← p.when.predicate (lower_keys (effective_table_tags g s t))
    here ← at_table (s, t) b
    rest ← resolve_tables places
    ok (here ++ rest)

abbrev texts : Json → List String
texts j = map text_of (keep truthy (elements j))

abbrev pub target_of : Json → Json → TagCondition → ResolvedTarget
target_of policy spec when = record {
  constraint_kind = "";
  schema = "";
  table = "";
  function_name = text_of (either_of spec "function_name" "functionName");
  column = "";
  input_columns = [];
  policy_id = text_of (either_of policy "id" "name");
  policy_name = text_of (get policy "name");
  when_condition = when.source;
  to_principals = texts (either_of policy "to_principals" "toPrincipals");
  except_principals = texts (either_of policy "except_principals" "exceptPrincipals");
}

-- The conditions of a policy, or the ValueError of one that cannot be translated.
unfoldable pub read_policy : Python → Json → Outcome Policy
unfolding policy_kind policy_spec match_columns conditions_from parse_tag_condition
read_policy py policy = do
  when ← parse_tag_condition py (text_of (either_of policy "when_condition" "whenCondition"))
  conditions ← conditions_from py [] (match_columns policy)
  ok (record {
    kind = policy_kind policy;
    spec = policy_spec policy (policy_kind policy);
    when = when;
    conditions = conditions;
    target = target_of policy (policy_spec policy (policy_kind policy)) when;
  })

module _ (py : Python) (g : GovernedTags) (tables_by_schema : Dict String (List String))
    (columns_by_table : String → String → List String) where
  -- A policy that cannot be read has no targets.
  unfoldable pub with_policy : Json → Outcome Policy → Outcome (List ResolvedTarget)
  unfolding resolve_tables candidate_tables
  with_policy policy (raised e) = ok []
  with_policy policy (ok p) =
      resolve_tables g columns_by_table p (candidate_tables policy tables_by_schema)

  unfoldable pub resolve_policy : Json → Outcome (List ResolvedTarget)
  unfolding with_policy read_policy policy_kind
  resolve_policy policy =
      if policy_kind policy == "" then ok [] else with_policy policy (read_policy py policy)

  pub resolve_policies : List Json → Outcome (List ResolvedTarget)
  unfolding resolve_policy
  resolve_policies [] = ok []
  resolve_policies (policy ∷ policies) = do
    here ← if is_dict policy then resolve_policy policy else ok []
    rest ← resolve_policies policies
    ok (here ++ rest)
