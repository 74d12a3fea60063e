-- ===== src/PairApply/DataRoles.antt =====
-- The data access roles of app/services/pair_apply.py: which values a role has, and how one member
-- is merged into one role of a list.
pub mod Merge
pub mod Again
pub mod Write
use fabric_unified_permissio.Base.{ℕ, String, ◌<>◌, Bool, not, ◌&&◌, ◌||◌, List, [], ◌∷◌, ◌++◌, map}
use fabric_unified_permissio.Base.{Option, none, some, ◌==◌, string_eq, if◌then◌else◌}
use fabric_unified_permissio.Base.{any_of, all_of, contains}
use fabric_unified_permissio.Base.Json.{Json, str, arr, obj, end, field, get, fields}
use fabric_unified_permissio.Base.Json.{
  nil, cons, truthy, elements, text_of, array_of, set_field, field?,
}
use fabric_unified_permissio.Base.Json.{or_else}
use fabric_unified_permissio.Base.Outcome.{ok}
use fabric_unified_permissio.Base.Text.{lower}

-- `(ok, message)`
pub record Verdict : Type 0 where
  pub ok : Bool
  pub message : String

abbrev pub verdict : Bool → String → Verdict
verdict b m = record { ok = b; message = m }

-- What one key of an attribute gives. The text of a value that is no text is never a path or an
-- action, and reads as the empty one.
unfoldable pub key_values : Json → List String
key_values (arr xs) = map text_of (elements (arr xs))
key_values raw = if truthy raw then text_of raw ∷ [] else []

unfoldable pub attr_values : Json → List String
unfolding key_values
attr_values attr =
    key_values (get attr "attributeValueIncludedIn")
    ++ key_values (get attr "values")
    ++ key_values (get attr "value")

unfoldable pub values_of_attrs : String → List Json → List String
unfolding attr_values
values_of_attrs name [] = []
values_of_attrs name (a ∷ attrs) =
    let rest = values_of_attrs name attrs in
    if lower (text_of (get a "attributeName")) == lower name then attr_values a ++ rest else rest

unfoldable pub values_of_rules : String → List Json → List String
unfolding values_of_attrs
values_of_rules name [] = []
values_of_rules name (rule ∷ rules) =
    values_of_attrs name (elements (get rule "permission") ++ elements (get rule "attributes"))
    ++ values_of_rules name rules

abbrev pub dar_rule_values : Json → String → List String
dar_rule_values role name = values_of_rules name (elements (get role "decisionRules"))

unfoldable pub dar_role_matches : Json → String → List String → Bool
dar_role_matches role path actions =
    contains (dar_rule_values role "Path") path
    && all_of (contains (dar_rule_values role "Action")) actions

pub dar_members : Json → List Json
dar_members role =
    let members = get role "members" in
    elements (
      or_else (get members "microsoftEntraMembers")
        (or_else (get members "entraMembers") (get members "microsoftEntraUsers")))

-- What the program does with the roles it has read.
pub data Merged : Type 0 where
  refused : Merged
  already : Merged
  -- `None` where the members should stand: the assignment raises.
  crashed : Merged
  written : List Json → Merged

abbrev pub then_after : Json → Merged → Merged
then_after r (written rs) = written (r ∷ rs)
then_after r m = m

-- `(existing.get("members") or {}).get("microsoftEntraMembers") or []`
abbrev pub entra_members : Json → List Json
entra_members role = elements (get (get role "members") "microsoftEntraMembers")

abbrev pub object_of : Json → String
object_of m = text_of (get m "objectId")

pub has_member : String → List Json → Bool
has_member oid members = any_of (λ m. lower (object_of m) == lower oid) members

-- `existing.setdefault("members", {})["microsoftEntraMembers"] = existing_members`
pub with_members : Json → List Json → Option Json → Option Json
with_members role members none = some (
    obj (
      set_field "members" (obj (field "microsoftEntraMembers" (arr (array_of members)) end))
        (fields role)))
with_members role members (some (obj fs)) = some (
    obj (
      set_field "members" (obj (set_field "microsoftEntraMembers" (arr (array_of members)) fs))
        (fields role)))
with_members role members (some _) = none

abbrev pub in_place : Option Json → List Json → Merged
in_place none rs = crashed
in_place (some r) rs = written (r ∷ rs)

-- The role of the same name, changed or refused; at the end of the list, the new role.
unfoldable pub merge_roles : Json → Json → String → String → List String → List Json → Merged
unfolding with_members
merge_roles new_role member name path actions [] = written (new_role ∷ [])
merge_roles new_role member name path actions (r ∷ rs) =
    let rest = then_after r (merge_roles new_role member name path actions rs) in
    if lower (text_of (get r "name")) == lower name
    then if not (dar_role_matches r path actions)
      then refused
      else if has_member (object_of member) (entra_members r)
      then already
      else in_place
          (with_members r (entra_members r ++ (member ∷ [])) (field? "members" (fields r))) rs
    else rest

-- `{"name": ..., "decisionRules": [...], "members": {...}}`
abbrev pub attribute : String → List Json → Json
attribute name values = obj (
    field "attributeName" (str name) (field "attributeValueIncludedIn" (arr (array_of values)) end))

abbrev pub role_of : String → String → List String → Json → Json
role_of name path actions member = obj (
    field "name" (str name) (
      field "decisionRules"
        (arr (
          cons
            (obj (
              field "effect" (str "Permit") (
                field "permission"
                  (arr (
                    cons (attribute "Path" (str path ∷ []))
                      (cons (attribute "Action" (map str actions)) nil)))
                  end)))
            nil))
        (field "members" (obj (field "microsoftEntraMembers" (arr (cons member nil)) end)) end)))
