-- ===== src/PairApply/DasRole/Changes.antt =====
-- What writing the role of a constraint changes (app/services/pair_apply.py).
use fabric_unified_permissio.Base.{
  ◌≡◌, ◌⊎◌, inl, inr, refl, ℕ, String, List, [], ◌∷◌, some, keep, if_rule, ◌||◌, eqb, leb,
}
use fabric_unified_permissio.Base.Json.{Json, obj, arr, end, field, get, elements, array_of}
use fabric_unified_permissio.Base.Outcome.{Outcome}
use fabric_unified_permissio.Base.Http.{Services, Response, reply, failed, put}
use fabric_unified_permissio.FineGrained.Scope.{FabricConstraintTranslation}
use fabric_unified_permissio.PairApply.DasRole.{
  constraint_role, place_role, upsert_das_constraint_role, write_placed, of_members, of_roles,
}
use fabric_unified_permissio.PairApply.DasRole.Place.{
  other_name, role_named, constraint_role-Placed,
}
use fabric_unified_permissio.PairApply.DataRoles.{
  Verdict, Merged, refused, already, crashed, written,
}
use fabric_unified_permissio.PairApply.DataRoles.Write.{Identity, dar_url}

module _ (S : Services) (i : Identity) (workspace_id item_id : String) (s : S.State) where
  -- The services after the one request that writes a list of roles.
  abbrev pub after_put : List Json → S.State
  after_put roles =
      (S.send
        (record {
          method = put;
          url = dar_url workspace_id item_id;
          body = obj (field "value" (arr (array_of roles)) end);
        })
        s).1

  -- What is written in place of the roles that were read: a role of one name, and all others kept.
  abbrev pub WritesOne : Response → S.State → Type 0
  WritesOne (failed e) t = ⊥
  WritesOne (reply status text body) t =
      (role_name : String) × (new_role : Json) × (roles : List Json) × (keep (other_name role_name)
          roles
        ≡ keep (other_name role_name) (elements (get body "value")))
      × (role_named role_name roles ≡ some new_role)
      × (t ≡ after_put roles)

  -- Nothing is changed, or the roles that were read are written back with one of them new.
  abbrev pub ChangesOne : S.State → Type 0
  ChangesOne t = (t ≡ s) ⊎ WritesOne (S.fetch (dar_url workspace_id item_id) end s) t

  module _ (role_name table_path : String) (translation : FabricConstraintTranslation) where
    placed-Changes :
        (members : List Json) (status : ℕ) (text : String) (body : Json) (m : Merged)
        → place_role
            (constraint_role role_name table_path translation members)
            role_name
            table_path
            (elements (get body "value"))
          ≡ m
        → ((write_placed S i workspace_id item_id role_name table_path translation m s).1 ≡ s)
          ⊎ WritesOne
              (reply status text body)
              (write_placed S i workspace_id item_id role_name table_path translation m s).1
    unfolding write_placed
    placed-Changes members status text body refused h = inl refl
    placed-Changes members status text body already h = inl refl
    placed-Changes members status text body crashed h = inl refl
    placed-Changes members status text body (written roles) h =
        let (others, named, again) =
          constraint_role-Placed role_name table_path translation members _ roles h in
        inr (
          role_name,
          constraint_role role_name table_path translation members,
          roles,
          others,
          named,
          refl,
        )

    members-Changes :
        (members : List Json) (status : ℕ) (text : String) (body : Json)
        → ((of_members S i workspace_id item_id role_name table_path translation
              (elements (get body "value"))
              members
              s).1
            ≡ s)
          ⊎ WritesOne
              (reply status text body)
              (of_members S i workspace_id item_id role_name table_path translation
                (elements (get body "value"))
                members
                s).1
    unfolding of_members
    members-Changes [] status text body = inl refl
    members-Changes (m ∷ ms) status text body = placed-Changes (m ∷ ms) status text body _ refl

    roles-Changes :
        (r : Response)
        → ((of_roles S i workspace_id item_id role_name table_path translation r s).1 ≡ s)
          ⊎ WritesOne r (of_roles S i workspace_id item_id role_name table_path translation r s).1
    unfolding of_roles
    roles-Changes (failed e) = inl refl
    roles-Changes (reply status text body) =
        if_rule {A = Outcome Verdict × S.State}
          (λ st. (st.1 ≡ s) ⊎ WritesOne (reply status text body) st.1)
          (eqb status 404 || eqb status 501) (inl refl)
          (if_rule {A = Outcome Verdict × S.State}
            (λ st. (st.1 ≡ s) ⊎ WritesOne (reply status text body) st.1) (leb 300 status) (inl refl)
            (members-Changes _ status text body))

    pub upsert-ChangesOne :
        ChangesOne
          (upsert_das_constraint_role S i workspace_id item_id role_name table_path translation s).1
    unfolding upsert_das_constraint_role
    upsert-ChangesOne = roles-Changes (S.fetch (dar_url workspace_id item_id) end s)
