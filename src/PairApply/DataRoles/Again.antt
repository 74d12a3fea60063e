-- ===== src/PairApply/DataRoles/Again.antt =====
-- A second merge of the same member, app/services/pair_apply.py.
use fabric_unified_permissio.Base.{
  String, ◌≡◌, refl, true, false, ◌&&◌, List, [], ◌∷◌, ◌++◌, Option, none, some,
}
use fabric_unified_permissio.Base.{
  arith, ap, ◌∙◌, subst, Bool-cases, inl, inr, ◌==◌, string_eq, ==_refl, Bool,
}
use fabric_unified_permissio.Base.{contains, all_of, if_rule}
use fabric_unified_permissio.Base.Json.{Json, get, get_field, text_of, elements}
use fabric_unified_permissio.Base.Text.{lower}
use fabric_unified_permissio.PairApply.DataRoles.{
  Merged, refused, already, crashed, written, then_after, in_place,
}
use fabric_unified_permissio.PairApply.DataRoles.{entra_members, object_of, has_member, merge_roles}
use fabric_unified_permissio.PairApply.DataRoles.{role_of, dar_role_matches, values_of_rules}
use fabric_unified_permissio.PairApply.DataRoles.{values_of_attrs, attr_values, key_values}
use fabric_unified_permissio.PairApply.DataRoles.Merge.{Replaces, with_members-Replaces}

has_member-snoc : (ms : List Json) (m : Json) → has_member (object_of m) (ms ++ (m ∷ [])) ≡ true
unfolding has_member
has_member-snoc [] m = rw (==_refl (lower (object_of m))) refl
has_member-snoc (n ∷ ms) m = ground (arith, has_member-snoc ms m)

-- The role that is added matches its own path and the action to read.
role_of-matches :
    (name path : String) (member : Json)
    → dar_role_matches (role_of name path ("Read" ∷ []) member) path ("Read" ∷ []) ≡ true
unfolding dar_role_matches values_of_rules values_of_attrs attr_values key_values get_field
    string_eq lower
role_of-matches name path member = rw (==_refl path) refl

role_of-name :
    (name path : String) (member : Json)
    → text_of (get (role_of name path ("Read" ∷ []) member) "name") ≡ name
unfolding get_field string_eq
role_of-name name path member = refl

role_of-members :
    (name path : String) (member : Json)
    → entra_members (role_of name path ("Read" ∷ []) member) ≡ member ∷ []
unfolding get_field string_eq
role_of-members name path member = refl

matches_same :
    (r r' : Json) (path : String) (actions : List String)
    → get r' "decisionRules" ≡ get r "decisionRules"
    → dar_role_matches r' path actions ≡ dar_role_matches r path actions
unfolding dar_role_matches
matches_same r r' path actions h =
    ap
      (λ rules.
        contains (values_of_rules "Path" (elements rules)) path
        && all_of (contains (values_of_rules "Action" (elements rules))) actions)
      h

module _ (name path : String) (member : Json) where
  abbrev pub again : List Json → Merged
  again = merge_roles (role_of name path ("Read" ∷ []) member) member name path ("Read" ∷ [])

  -- Where roles are written, a second merge finds the member in place.
  abbrev Settled : Merged → Type 0
  Settled (written rs) = again rs ≡ already
  Settled _ = Unit

  found :
      (r : Json) (rs : List Json)
      → (lower (text_of (get r "name")) == lower name) ≡ true
      → dar_role_matches r path ("Read" ∷ []) ≡ true
      → has_member (object_of member) (entra_members r) ≡ true
      → again (r ∷ rs) ≡ already
  unfolding merge_roles
  found r rs h g f = rw (h, g, f) refl

  then_after-Settled :
      (r : Json) (m : Merged)
      → (lower (text_of (get r "name")) == lower name) ≡ false
      → Settled m
      → Settled (then_after r m)
  unfolding merge_roles
  then_after-Settled r refused h g = tt
  then_after-Settled r already h g = tt
  then_after-Settled r crashed h g = tt
  then_after-Settled r (written rs) h g = rw (h, g) refl

  in_place-Settled :
      (r : Json) (rs : List Json) (o : Option Json)
      → (lower (text_of (get r "name")) == lower name) ≡ true
      → dar_role_matches r path ("Read" ∷ []) ≡ true
      → Replaces r (entra_members r ++ (member ∷ [])) o
      → Settled (in_place o rs)
  in_place-Settled r rs none h g f = tt
  in_place-Settled r rs (some r') h g f =
      found r' rs (rw f.1 h) (matches_same r r' path ("Read" ∷ []) f.2 ∙ g)
        (rw f.0 (has_member-snoc (entra_members r) member))

  on_match :
      (r : Json) (rs : List Json) (b : Bool)
      → dar_role_matches r path ("Read" ∷ []) ≡ b
      → (lower (text_of (get r "name")) == lower name) ≡ true
      → Settled (again (r ∷ rs))
  unfolding merge_roles
  on_match r rs false g h = rw (h, g) tt
  on_match r rs true g h =
      rw (h, g)
        (if_rule Settled (has_member (object_of member) (entra_members r)) tt (
          in_place-Settled r rs _ h g
            (with_members-Replaces r (entra_members r ++ (member ∷ [])) _ refl)))

  merge_roles-Settled : (rs : List Json) → Settled (again rs)
  unfolding merge_roles
  merge_roles-Settled [] =
      found (role_of name path ("Read" ∷ []) member) []
        (rw (role_of-name name path member) (==_refl (lower name)))
        (role_of-matches name path member)
        (rw (role_of-members name path member) (has_member-snoc [] member))
  merge_roles-Settled (r ∷ rs) = elim (Bool-cases (lower (text_of (get r "name")) == lower name)) [
    | inl e ↦ on_match r rs _ refl e
    | inr e ↦ rw e (then_after-Settled r _ e (merge_roles-Settled rs))
  ]

  -- Once a merge to read has written the roles, the same merge on them finds nothing to change.
  pub merge_roles_again :
      (rs rs' : List Json)
      → merge_roles (role_of name path ("Read" ∷ []) member) member name path ("Read" ∷ []) rs
        ≡ written rs'
      → merge_roles (role_of name path ("Read" ∷ []) member) member name path ("Read" ∷ []) rs'
        ≡ already
  merge_roles_again rs rs' h = subst Settled h (merge_roles-Settled rs)
