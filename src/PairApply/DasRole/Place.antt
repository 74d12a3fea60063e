-- ===== src/PairApply/DasRole/Place.antt =====
-- Where the role of a constraint goes among the roles of an item (app/services/pair_apply.py).
use fabric_unified_permissio.Base.{
  ◌≡◌, refl, String, Bool, true, false, not, List, [], ◌∷◌, Option, none, some, arith, subst, ap,
}
use fabric_unified_permissio.Base.{
  ◌==◌, string_eq, if◌then◌else◌, keep, Bool-cases, inl, inr, ==_refl,
}
use fabric_unified_permissio.Base.Json.{Json, get, get_field, text_of}
use fabric_unified_permissio.Base.Text.{lower}
use fabric_unified_permissio.FineGrained.Scope.{FabricConstraintTranslation}
use fabric_unified_permissio.PairApply.DataRoles.{
  Merged, refused, already, crashed, written, then_after, dar_role_matches, values_of_rules,
  values_of_attrs, attr_values, key_values,
}
use fabric_unified_permissio.PairApply.DasRole.{read_only, constraint_role, place_role}

-- The role has another name, case aside.
abbrev pub other_name : String → Json → Bool
other_name role_name r = not (lower (text_of (get r "name")) == lower role_name)

-- The first role of a name, case aside.
abbrev pub role_named : String → List Json → Option Json
role_named role_name [] = none
role_named role_name (r ∷ rs) = if other_name role_name r then role_named role_name rs else some r

-- Where roles are written: the roles of other names as they were, in their order, the new role as
-- the first of its name, and nothing that a second write changes.
abbrev Placed : Json → String → String → List Json → Merged → Type 0
Placed new name path rs (written rs') =
    (keep (other_name name) rs' ≡ keep (other_name name) rs)
    × (role_named name rs' ≡ some new)
    × (place_role new name path rs' ≡ written rs')
Placed new name path rs _ = Unit

module _ (new_role : Json) (role_name path : String)
    (named : lower (text_of (get new_role "name")) ≡ lower role_name)
    (ruled : dar_role_matches new_role path read_only ≡ true) where
  again :
      (rs : List Json)
      → place_role new_role role_name path (new_role ∷ rs) ≡ written (new_role ∷ rs)
  unfolding place_role
  again rs = ground (arith)

  then_after-Placed :
      (r : Json) (rs : List Json) (m : Merged)
      → (lower (text_of (get r "name")) == lower role_name) ≡ false
      → Placed new_role role_name path rs m
      → Placed new_role role_name path (r ∷ rs) (then_after r m)
  unfolding place_role
  then_after-Placed r rs refused e h = tt
  then_after-Placed r rs already e h = tt
  then_after-Placed r rs crashed e h = tt
  then_after-Placed r rs (written rs') e h =
      (rw e (ap (λ t. r ∷ t) h.0), rw e h.1, rw e (ap (then_after r) h.2))

  here-Placed :
      (r : Json) (rs : List Json)
      → (lower (text_of (get r "name")) == lower role_name) ≡ true
      → Placed new_role role_name path (r ∷ rs) (written (new_role ∷ rs))
  here-Placed r rs e = (
    rw (e, named, ==_refl (lower role_name)) refl,
    rw (named, ==_refl (lower role_name)) refl,
    again rs,
  )

  place_role-Placed :
      (rs : List Json) → Placed new_role role_name path rs (place_role new_role role_name path rs)
  unfolding place_role
  place_role-Placed [] = (
    rw (named, ==_refl (lower role_name)) refl,
    rw (named, ==_refl (lower role_name)) refl,
    again [],
  )
  place_role-Placed (r ∷ rs) =
      elim (Bool-cases (lower (text_of (get r "name")) == lower role_name)) [
        | inl e ↦ elim (Bool-cases (dar_role_matches r path read_only)) [
          | inl m ↦ rw (e, m) (here-Placed r rs e)
          | inr m ↦ rw (e, m) tt
        ]
        | inr e ↦ rw e (then_after-Placed r rs _ e (place_role-Placed rs))
      ]

role_name_lem :
    (role_name path : String) (t : FabricConstraintTranslation) (members : List Json)
    → lower (text_of (get (constraint_role role_name path t members) "name")) ≡ lower role_name
unfolding constraint_role get_field string_eq
role_name_lem role_name path t members = refl

constraint_role_matches :
    (role_name path : String) (t : FabricConstraintTranslation) (members : List Json)
    → dar_role_matches (constraint_role role_name path t members) path read_only ≡ true
unfolding constraint_role get_field string_eq dar_role_matches values_of_rules values_of_attrs
    attr_values key_values lower
constraint_role_matches role_name path t members = rw (==_refl path) refl

-- Where the role of a constraint is written, the roles of other names stay as they were and in their
-- order, the role of the constraint is the first of its name, and writing it once more writes the
-- same list.
pub constraint_role-Placed :
    (role_name path : String) (t : FabricConstraintTranslation) (members rs rs' : List Json)
    → place_role (constraint_role role_name path t members) role_name path rs ≡ written rs'
    → (keep (other_name role_name) rs' ≡ keep (other_name role_name) rs)
      × (role_named role_name rs' ≡ some (constraint_role role_name path t members))
      × (place_role (constraint_role role_name path t members) role_name path rs' ≡ written rs')
constraint_role-Placed role_name path t members rs rs' h =
    let new = constraint_role role_name path t members in
    subst (Placed new role_name path rs) h (
      place_role-Placed new role_name path (role_name_lem role_name path t members)
        (constraint_role_matches role_name path t members) rs)
