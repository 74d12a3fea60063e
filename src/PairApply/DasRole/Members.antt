-- ===== src/PairApply/DasRole/Members.antt =====
-- Whom the role of a constraint is for (app/services/pair_apply.py).
use fabric_unified_permissio.Base.{
  ◌≡◌, ◌⊎◌, inl, inr, refl, String, Bool, true, false, ◌&&◌, List, [], ◌∷◌, Option, arith, sym,
}
use fabric_unified_permissio.Base.{◌==◌, string_eq, any_of, All, Bool-cases, ap, if_rule}
use fabric_unified_permissio.Base.Dict.{Dict, insert, lookup, values, has, lookup-insert}
use fabric_unified_permissio.Base.Json.{Json, get_field}
use fabric_unified_permissio.Base.Text.{is_empty, lower}
use fabric_unified_permissio.PairApply.DataRoles.{dar_role_matches, dar_members, object_of}
use fabric_unified_permissio.PairApply.DasRole.{
  read_only, enriched, add_members, readers_of, or_caller, members_for_fine_grained_policy,
}

-- One of the members has this object id.
abbrev pub lists : List Json → String → Bool
lists ms oid = any_of (λ m. object_of m == oid) ms

-- A role with the path of the table and the action Read has a member with this object id.
abbrev pub reads : String → List Json → String → Bool
reads path roles oid =
    any_of (λ r. dar_role_matches r path read_only && lists (dar_members r) oid) roles

object_of-enriched : (tenant : String) (m : Json) → object_of (enriched tenant m) ≡ object_of m
unfolding get_field string_eq
object_of-enriched tenant m = refl

All-insert :
    (P : Json → Type 0) (k : String) (v : Json) (d : Dict String Json)
    → P v
    → All P (values d)
    → All P (values (insert k v d))
unfolding insert
All-insert P k v [] h g = (h, tt)
All-insert P k v ((j, w) ∷ d) h (gw, g) =
    if_rule {A = Dict String Json} (λ e. All P (values e)) (k == j) (h, g)
      (gw, All-insert P k v d h g)

module _ (tenant path : String) (Q : String → Type 0) where
  add_members-All :
      (ms : List Json) (found : Dict String Json)
      → ((oid : String) → lists ms oid ≡ true → Q oid)
      → All (λ m. Q (object_of m)) (values found)
      → All (λ m. Q (object_of m)) (values (add_members tenant ms found))
  unfolding add_members
  add_members-All [] found h g = g
  add_members-All (m ∷ ms) found h g =
      add_members-All ms _ (λ oid e. h oid (ground arith))
        (if_rule {A = Dict String Json} (λ e. All (λ m. Q (object_of m)) (values e))
          (is_empty (lower (object_of m))) g
          (All-insert (λ m. Q (object_of m)) (lower (object_of m)) (enriched tenant m) found
            (rw (object_of-enriched tenant m) (h (object_of m) (ground arith))) g))

  readers_of-All :
      (rs : List Json) (found : Dict String Json)
      → ((oid : String) → reads path rs oid ≡ true → Q oid)
      → All (λ m. Q (object_of m)) (values found)
      → All (λ m. Q (object_of m)) (values (readers_of tenant path rs found))
  unfolding readers_of
  readers_of-All [] found h g = g
  readers_of-All (r ∷ rs) found h g = elim (Bool-cases (dar_role_matches r path read_only)) [
    | inl e ↦ rw e (
        readers_of-All rs _ (λ oid q. h oid (ground arith))
          (add_members-All (dar_members r) found (λ oid q. h oid (rw (e, q) refl)) g))
    | inr e ↦ rw e (readers_of-All rs found (λ oid q. h oid (ground arith)) g)
  ]

-- Every entry stands under its object id in lower case.
abbrev IsById : Dict String Json → Type 0
IsById [] = Unit
IsById ((k, m) ∷ d) = (k ≡ lower (object_of m)) × IsById d

insert-IsById :
    (tenant : String) (m : Json) (d : Dict String Json)
    → IsById d
    → IsById (insert (lower (object_of m)) (enriched tenant m) d)
unfolding insert
insert-IsById tenant m [] h = (ap lower (sym (object_of-enriched tenant m)), tt)
insert-IsById tenant m ((j, w) ∷ d) (hw, h) =
    if_rule IsById (lower (object_of m) == j) (ap lower (sym (object_of-enriched tenant m)), h)
      (hw, insert-IsById tenant m d h)

insert-has :
    (k j : String) (v : Json) (d : Dict String Json) → has k d ≡ true → has k (insert j v d) ≡ true
insert-has k j v d h = ground (arith, lookup-insert k j v d)

insert_self-has : (k : String) (v : Json) (d : Dict String Json) → has k (insert k v d) ≡ true
insert_self-has k v d = ground (arith, lookup-insert k k v d)

module _ (tenant path : String) where
  add_members-IsById :
      (ms : List Json) (found : Dict String Json)
      → IsById found
      → IsById (add_members tenant ms found)
  unfolding add_members
  add_members-IsById [] found h = h
  add_members-IsById (m ∷ ms) found h =
      add_members-IsById ms _
        (if_rule IsById (is_empty (lower (object_of m))) h (insert-IsById tenant m found h))

  readers_of-IsById :
      (rs : List Json) (found : Dict String Json)
      → IsById found
      → IsById (readers_of tenant path rs found)
  unfolding readers_of
  readers_of-IsById [] found h = h
  readers_of-IsById (r ∷ rs) found h = readers_of-IsById rs _ (
      if_rule IsById (dar_role_matches r path read_only)
        (add_members-IsById (dar_members r) found h) h)

  -- What is found stays.
  add_members-has :
      (k : String) (ms : List Json) (found : Dict String Json)
      → has k found ≡ true
      → has k (add_members tenant ms found) ≡ true
  unfolding add_members
  add_members-has k [] found h = h
  add_members-has k (m ∷ ms) found h = add_members-has k ms _ (
      if_rule {A = Dict String Json} (λ d. has k d ≡ true) (is_empty (lower (object_of m))) h
        (insert-has k (lower (object_of m)) (enriched tenant m) found h))

  readers_of-has :
      (k : String) (rs : List Json) (found : Dict String Json)
      → has k found ≡ true
      → has k (readers_of tenant path rs found) ≡ true
  unfolding readers_of
  readers_of-has k [] found h = h
  readers_of-has k (r ∷ rs) found h = readers_of-has k rs _ (
      if_rule {A = Dict String Json} (λ d. has k d ≡ true) (dar_role_matches r path read_only)
        (add_members-has k (dar_members r) found h) h)

  add_members_found :
      (oid : String) (ms : List Json) (found : Dict String Json)
      → is_empty (lower oid) ≡ false
      → lists ms oid ≡ true
      → has (lower oid) (add_members tenant ms found) ≡ true
  unfolding add_members
  add_members_found oid [] found full h = cc
  add_members_found oid (m ∷ ms) found full h = elim (Bool-cases (object_of m == oid)) [
    | inl s ↦
        let same : object_of m ≡ oid = ground arith in
        add_members-has (lower oid) ms _ (rw same (rw full (insert_self-has (lower oid) _ found)))
    | inr n ↦ add_members_found oid ms _ full (ground arith)
  ]

  readers_of_found :
      (oid : String) (rs : List Json) (found : Dict String Json)
      → is_empty (lower oid) ≡ false
      → reads path rs oid ≡ true
      → has (lower oid) (readers_of tenant path rs found) ≡ true
  unfolding readers_of
  readers_of_found oid [] found full h = cc
  readers_of_found oid (r ∷ rs) found full h =
      elim (Bool-cases (dar_role_matches r path read_only && lists (dar_members r) oid)) [
        | inl s ↦
            (let e : dar_role_matches r path read_only ≡ true = ground arith in
              rw e (
                readers_of-has (lower oid) rs _
                  (add_members_found oid (dar_members r) found full (ground arith))))
        | inr n ↦ readers_of_found oid rs _ full (ground arith)
      ]

listed_value :
    (k : String) (d : Dict String Json)
    → IsById d
    → has k d ≡ true
    → any_of (λ m. lower (object_of m) == k) (values d) ≡ true
unfolding lookup
listed_value k [] h g = cc
listed_value k ((j, m) ∷ d) (hj, h) g = ground (arith, listed_value k d h)

or_caller-All :
    (P : Json → Type 0) (found : List Json) (me : Option Json)
    → All P found
    → All P (or_caller found me) ⊎ (found ≡ [])
or_caller-All P [] me h = inr refl
or_caller-All P (m ∷ ms) me h = inl h

or_caller_lists :
    (p : Json → Bool) (found : List Json) (me : Option Json)
    → any_of p found ≡ true
    → any_of p (or_caller found me) ≡ true
or_caller_lists p [] me h = cc
or_caller_lists p (m ∷ ms) me h = h

-- The role of a constraint is for those who could read the table before. Its members are members of
-- data access roles that have the path of the table and the action Read, unless no such role has a
-- member with an object id: then it is the caller alone, if Graph names him. And nobody is left out:
-- every member of such a role whose object id is not blank is a member, case aside.
pub constraint_members-Read :
    (tenant : String) (current_roles : List Json) (table_path : String) (me : Option Json)
    → (All
          (λ m. reads table_path current_roles (object_of m) ≡ true)
          (members_for_fine_grained_policy tenant current_roles table_path me)
        ⊎ (members_for_fine_grained_policy tenant current_roles table_path me ≡ or_caller [] me))
      × ((oid : String)
          → is_empty (lower oid) ≡ false
          → reads table_path current_roles oid ≡ true
          → any_of
              (λ m. lower (object_of m) == lower oid)
              (members_for_fine_grained_policy tenant current_roles table_path me)
            ≡ true)
unfolding members_for_fine_grained_policy
constraint_members-Read tenant current_roles table_path me =
    let found = values (readers_of tenant table_path current_roles []) in
    (
      elim (or_caller-All (λ m. reads table_path current_roles (object_of m) ≡ true) found me
          (readers_of-All tenant table_path (λ oid. reads table_path current_roles oid ≡ true)
            current_roles [] (λ oid h. h) tt)) [
              | inl h ↦ inl h
              | inr e ↦ inr (ap (λ f. or_caller f me) e)
            ],
      λ oid full h.
          or_caller_lists (λ m. lower (object_of m) == lower oid) found me
            (listed_value (lower oid) (readers_of tenant table_path current_roles [])
              (readers_of-IsById tenant table_path current_roles [] tt)
              (readers_of_found tenant table_path oid current_roles [] full h)),
    )
