-- ===== src/PairApply/DataRoles/Merge.antt =====
-- What merging a member into the data access roles of an item does to them
-- (app/services/pair_apply.py).
use fabric_unified_permissio.Base.{String, ◌≡◌, refl, not, List, [], ◌∷◌, ◌++◌, Option, none, some}
use fabric_unified_permissio.Base.{subst, ap, ◌∙◌, arith, if◌then◌else◌, ◌==◌, string_eq, text_ne}
use fabric_unified_permissio.Base.{if_rule}
use fabric_unified_permissio.Base.Json.{Json, null, str, arr, obj, Fields, get, get_field, fields}
use fabric_unified_permissio.Base.Json.{text_of, array_of, elements, set_field, field?, end, field}
use fabric_unified_permissio.Base.Json.{
  get_field-set_field, get_field-set_field_ne, elements-array_of,
}
use fabric_unified_permissio.Base.Text.{lower}
use fabric_unified_permissio.PairApply.DataRoles.{
  Merged, refused, already, crashed, written, then_after, in_place,
}
use fabric_unified_permissio.PairApply.DataRoles.{
  entra_members, object_of, has_member, with_members, merge_roles,
}
use fabric_unified_permissio.PairApply.DataRoles.{dar_role_matches}

-- The fields of a dict under other keys.
pub without : String → Fields → Fields
without k end = end
without k (field j v fs) = let rest = without k fs in if k == j then rest else field j v rest

-- `r'` has the fields of `r`, but for its members: these have the fields that they had, but for
-- `microsoftEntraMembers`, where it has those of `r` and perhaps more behind them.
abbrev pub Extends : Json → Json → Type 0
Extends r r' =
    (get r' "name" ≡ get r "name")
    × (get r' "decisionRules" ≡ get r "decisionRules")
    × (without "members" (fields r') ≡ without "members" (fields r))
    × (without "microsoftEntraMembers" (fields (get r' "members"))
        ≡ without "microsoftEntraMembers" (fields (get r "members")))
    × ((more : List Json) × (entra_members r' ≡ entra_members r ++ more))

abbrev pub Kept : List Json → List Json → Type 0
Kept [] rs' = Unit
Kept (r ∷ rs) [] = ⊥
Kept (r ∷ rs) (r' ∷ rs') = Extends r r' × Kept rs rs'

append_nil : (xs : List Json) → xs ≡ xs ++ []
append_nil [] = refl
append_nil (x ∷ xs) = ap (λ r. x ∷ r) (append_nil xs)

same_role-Extends : (r : Json) → Extends r r
same_role-Extends r = (refl, refl, refl, refl, ([], append_nil (entra_members r)))

same_roles-Kept : (rs : List Json) → Kept rs rs
same_roles-Kept [] = tt
same_roles-Kept (r ∷ rs) = (same_role-Extends r, same_roles-Kept rs)

-- The members are replaced, the other fields stay.
abbrev pub Replaces : Json → List Json → Option Json → Type 0
Replaces r ms none = Unit
Replaces r ms (some r') =
    (entra_members r' ≡ ms)
    × (get r' "name" ≡ get r "name")
    × (get r' "decisionRules" ≡ get r "decisionRules")
    × (without "members" (fields r') ≡ without "members" (fields r))
    × (without "microsoftEntraMembers" (fields (get r' "members"))
        ≡ without "microsoftEntraMembers" (fields (get r "members")))

without-set_field :
    (k : String) (v : Json) (fs : Fields) → without k (set_field k v fs) ≡ without k fs
unfolding without set_field
without-set_field k v end = ground arith
without-set_field k v (field j w fs) = ground (arith, without-set_field k v fs)

-- A value that `d[k]` gives, or `null` where there is none.
abbrev or_null : Option Json → Json
or_null none = null
or_null (some v) = v

field-get : (k : String) (fs : Fields) → get_field k fs ≡ or_null (field? k fs)
unfolding get_field field?
field-get k end = refl
field-get k (field j v fs) = ground (arith, field-get k fs)

with_members_set :
    (r : Json) (ms : List Json) (inner : Fields)
    → elements (get_field "microsoftEntraMembers" inner) ≡ ms
    → without "microsoftEntraMembers" inner
      ≡ without "microsoftEntraMembers" (fields (get r "members"))
    → Replaces r ms (some (obj (set_field "members" (obj inner) (fields r))))
with_members_set r ms inner h g = (
  rw (get_field-set_field "members" (obj inner) (fields r)) h,
  get_field-set_field_ne "name" "members" (obj inner) (fields r) (text_ne "name" "members" refl),
  get_field-set_field_ne "decisionRules" "members" (obj inner) (fields r)
      (text_ne "decisionRules" "members" refl),
  without-set_field "members" (obj inner) (fields r),
  rw (get_field-set_field "members" (obj inner) (fields r)) g,
)

pub with_members-Replaces :
    (r : Json) (ms : List Json) (o : Option Json)
    → field? "members" (fields r) ≡ o
    → Replaces r ms (with_members r ms o)
unfolding with_members get_field string_eq without
with_members-Replaces r ms none e =
    with_members_set r ms _ (elements-array_of ms) (rw (field-get "members" (fields r), e) refl)
with_members-Replaces r ms (some (obj fs)) e =
    with_members_set r ms _
      (rw (get_field-set_field "microsoftEntraMembers" (arr (array_of ms)) fs)
        (elements-array_of ms))
      (without-set_field "microsoftEntraMembers" _ fs ∙ rw (field-get "members" (fields r), e) refl)
with_members-Replaces r ms (some null) e = tt
with_members-Replaces r ms (some (Json.bool b)) e = tt
with_members-Replaces r ms (some (Json.num n)) e = tt
with_members-Replaces r ms (some (str t)) e = tt
with_members-Replaces r ms (some (arr xs)) e = tt

-- Where roles are written, they keep the old ones.
abbrev Keeps : List Json → Merged → Type 0
Keeps rs (written rs') = Kept rs rs'
Keeps rs _ = Unit

then_after-Keeps :
    (r : Json) (rs : List Json) (m : Merged) → Keeps rs m → Keeps (r ∷ rs) (then_after r m)
then_after-Keeps r rs refused h = tt
then_after-Keeps r rs already h = tt
then_after-Keeps r rs crashed h = tt
then_after-Keeps r rs (written rs') h = (same_role-Extends r, h)

in_place-Keeps :
    (r : Json) (rs more : List Json) (o : Option Json)
    → Replaces r (entra_members r ++ more) o
    → Keeps (r ∷ rs) (in_place o rs)
in_place-Keeps r rs more none h = tt
in_place-Keeps r rs more (some r') (ms, name, rules, others, inner) =
    ((name, rules, others, inner, (more, ms)), same_roles-Kept rs)

module _ (new_role member : Json) (name path : String) (actions : List String) where
  merge_roles-Keeps : (rs : List Json) → Keeps rs (merge_roles new_role member name path actions rs)
  unfolding merge_roles
  merge_roles-Keeps [] = tt
  merge_roles-Keeps (r ∷ rs) =
      if_rule (Keeps (r ∷ rs)) (lower (text_of (get r "name")) == lower name)
        (if_rule (Keeps (r ∷ rs)) (not (dar_role_matches r path actions)) tt (
          if_rule (Keeps (r ∷ rs)) (has_member (object_of member) (entra_members r)) tt (
            in_place-Keeps r rs (member ∷ []) _
              (with_members-Replaces r (entra_members r ++ (member ∷ [])) _ refl))))
        (then_after-Keeps r rs _ (merge_roles-Keeps rs))

  -- A merge that writes roles keeps every role there was, in its place, with all its fields but the
  -- members. Of the members it keeps every field but `microsoftEntraMembers`, and those in their order,
  -- perhaps with more behind them.
  pub merge_roles-Kept :
      (rs rs' : List Json)
      → merge_roles new_role member name path actions rs ≡ written rs'
      → Kept rs rs'
  merge_roles-Kept rs rs' h = subst (Keeps rs) h (merge_roles-Keeps rs)
