-- ===== src/Tests/Abac.antt =====
-- Runs of the policies by attribute, and their theorems at concrete data.
use fabric_unified_permissio.Base.{
  ◌≡◌, refl, String, string_eq, [], ◌∷◌, some, none, ◌==◌, List, All, any_of, if◌then◌else◌,
}
use fabric_unified_permissio.Base.Dict.{Dict, lookup, insert, has}
use fabric_unified_permissio.Base.Json.{Json, str, arr, obj, end, field, nil, cons, get_field}
use fabric_unified_permissio.Base.Outcome.{ok}
use fabric_unified_permissio.Base.Text.{strip, lower, upper, split}
use fabric_unified_permissio.Abac.Condition.{
  has_tag, has_tag_value, Expr, test, both, either, call, fresh, reading, read_all,
}
use fabric_unified_permissio.Abac.Condition.Round.{
  and_tail, or_tail, all_hold, value_of, groups_value,
}
use fabric_unified_permissio.Abac.Parse.{
  Python, expression, unsupported, python, parse_text, parse_tag_condition,
}
use fabric_unified_permissio.Abac.Resolve.{
  GovernedTags, ResolvedTarget, Policy, target_of, resolve_policy, read_policy, policy_kind,
  with_policy, resolve_tables, candidate_tables, effective_table_tags, lower_keys,
}
use fabric_unified_permissio.Abac.Resolve.Sound.{Meets, resolve_policy_sound}

-- The names of functions are read in every case, and AND binds tighter than OR.
parse_test :
    parse_text "hasTag('PII') OR has_tag_value ( 'Env' , 'prod' ) and (HASTAG('x') or has_tag('y'))"
    ≡ expression (
        either (test (has_tag "pii")) (
          both
            (test (has_tag_value "env" "prod"))
            (either (test (has_tag "x")) (test (has_tag "y")))))
unfolding parse_text string_eq lower strip
parse_test = refl

not_test : parse_text "NOT has_tag('a')" ≡ unsupported
unfolding parse_text string_eq lower strip
not_test = refl

two_calls_test : parse_text "has_tag('a') has_tag('b')" ≡ unsupported
unfolding parse_text string_eq lower strip
two_calls_test = refl

-- A digit passes the check of what is left, so that Python reads it as a constant.
digit_test : parse_text "has_tag('a') or 1" ≡ python
unfolding parse_text string_eq lower strip
digit_test = refl

abbrev condition : Expr
condition = both (test (has_tag "a")) (either (test (has_tag "b")) (test (has_tag "c")))

abbrev tags : Dict String String
tags = ("b", "1") ∷ ("c", "2") ∷ []

groups_value_example :
    value_of tags (
      read_all (reading fresh []) (
        call (has_tag "a")
        ∷ and_tail [] (or_tail ((has_tag "b", has_tag_value "c" "2" ∷ []) ∷ []))))
    ≡ some (
        any_of (all_hold tags) ((has_tag "a", []) ∷ (has_tag "b", has_tag_value "c" "2" ∷ []) ∷ []))
groups_value_example =
    groups_value tags (has_tag "a") [] ((has_tag "b", has_tag_value "c" "2" ∷ []) ∷ [])

abbrev mask_policy : Json
mask_policy = obj (
    field "name" (str "mask_pii") (
      field "when_condition" (str "has_tag('prod')") (
        field "column_mask" (obj (field "on_column" (str "c") end)) (
          field "match_columns"
            (arr (
              cons (obj (field "alias" (str "c") (field "condition" (str "has_tag('pii')") end)))
                nil))
            end))))

abbrev governed : GovernedTags
governed = record {
  catalog = ("Prod", "") ∷ [];
  schema = λ s. [];
  table = λ s t. [];
  column = λ s t c. if c == "ssn" then ("PII", "") ∷ [] else [];
}

abbrev no_python : Python
no_python = record { compile = λ s. none }

abbrev schemas : Dict String (List String)
schemas = ("s", "t" ∷ []) ∷ []

abbrev mask_spec : Json
mask_spec = obj (field "on_column" (str "c") end)

abbrev mask_read : Policy
mask_read = record {
  kind = "column_mask";
  spec = mask_spec;
  when = record { predicate = λ tags. ok (has "prod" tags); source = "has_tag('prod')" };
  conditions =
      ("c", record { predicate = λ tags. ok (has "pii" tags); source = "has_tag('pii')" }) ∷ [];
  target =
      target_of mask_policy mask_spec
        (record { predicate = λ tags. ok (has "prod" tags); source = "has_tag('prod')" });
}

mask_read_run : read_policy no_python mask_policy ≡ ok mask_read
unfolding read_policy policy_kind parse_tag_condition parse_text string_eq lower strip get_field
    upper insert
mask_read_run = refl

abbrev mask_targets : List ResolvedTarget
mask_targets =
    record (mask_read.target) {
      constraint_kind = "column_mask";
      schema = "s";
      table = "t";
      column = "ssn";
      input_columns = "ssn" ∷ [];
    }
    ∷ []

mask_resolve_run :
    resolve_policy no_python governed schemas (λ s t. "id" ∷ "ssn" ∷ []) mask_policy
    ≡ ok mask_targets
unfolding resolve_policy with_policy resolve_tables candidate_tables effective_table_tags lower_keys
    read_policy policy_kind parse_tag_condition parse_text string_eq lower strip get_field upper
    insert lookup split
mask_resolve_run = refl

resolve_policy_sound_example :
    All (Meets governed (λ s t. "id" ∷ "ssn" ∷ []) mask_read) mask_targets
resolve_policy_sound_example =
    resolve_policy_sound no_python governed schemas (λ s t. "id" ∷ "ssn" ∷ []) mask_policy mask_read
      mask_targets mask_read_run mask_resolve_run
