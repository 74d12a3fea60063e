-- ===== src/PairDiff/FabricRows/Pairing.antt =====
-- Where the rows that `collect_fabric_rows` of app/services/pair_diff.py returns stand.
use fabric_unified_permissio.Base.{
  ◌≡◌, ◌⊎◌, inl, inr, refl, String, ◌<>◌, false, List, [], ◌∷◌, Option, none, some, All, All-imp,
  if_rule, string_eq,
}
use fabric_unified_permissio.Base.Dict.{lookup}
use fabric_unified_permissio.Base.Http.{Services}
use fabric_unified_permissio.Base.Json.{Json, get, text_of, elements}
use fabric_unified_permissio.Base.Outcome.{Outcome, Ensures, Ensures-bind, Ensures-last}
use fabric_unified_permissio.Base.Text.{is_empty, lower}
use fabric_unified_permissio.FabricRest.{
  list_items, list_data_access_policies, list_role_assignments,
}
use fabric_unified_permissio.FineGrained.Scope.{Hashing}
use fabric_unified_permissio.PairDiff.{
  row_key_eq, row_identity, Rows, Principal, fresh_row, record_fabric, record_classes, role_rows,
  record_assignments, fabric_principal_key, or_empty, access_subsumes,
}
use fabric_unified_permissio.PairDiff.Constraints.{scopes_from_dar_paths}
use fabric_unified_permissio.PairDiff.Constraints.Paths.{
  InCatalog, scopes-InCatalog, record_fabric_constraints-Scoped,
}
use fabric_unified_permissio.PairDiff.Constraints.Scoped.{
  Scoped, lookup-Scoped, insert-Scoped, values-Scoped,
}
use fabric_unified_permissio.PairDiff.UcGrants.Scoped.{new_identity}
use fabric_unified_permissio.PairDiff.FabricRows.{
  collect_fabric_rows, record_on_scopes, record_members, record_action, record_rule_actions,
  record_rules, record_dars, members_of, rule_values, member_principal, dar_action_to_access,
  of_item, of_mirror, mirrored_item_for, auth_failed,
}

module _ (P : String → Type 0) where
  record_fabric-Scoped :
      (p : Principal) (scope role access : String) (rows : Rows)
      → P scope
      → Scoped P rows
      → Scoped P (record_fabric rows p scope role access)
  unfolding record_fabric
  record_fabric-Scoped p scope role access rows o h =
      let fresh = fresh_row p scope access in
      insert-Scoped P (row_identity fresh) _ rows
        (new_identity P fresh (lookup (row_identity fresh) rows)
          (λ m f. lookup-Scoped P (row_identity fresh) m rows h f))
        (inl o) h

  record_classes-Scoped :
      (p : Principal) (scope role : String) (cs : List String) (rows : Rows)
      → P scope
      → Scoped P rows
      → Scoped P (record_classes rows p scope role cs)
  unfolding record_classes
  record_classes-Scoped p scope role [] rows o h = h
  record_classes-Scoped p scope role (c ∷ cs) rows o h =
      record_classes-Scoped p scope role cs _ o (record_fabric-Scoped p scope role c rows o h)

  record_on_scopes-Scoped :
      (p : Principal) (action access : String) (scopes : List String) (rows : Rows)
      → All P scopes
      → Scoped P rows
      → Scoped P (record_on_scopes p action access scopes rows)
  unfolding record_on_scopes
  record_on_scopes-Scoped p action access [] rows o h = h
  record_on_scopes-Scoped p action access (sc ∷ scopes) rows o h =
      record_on_scopes-Scoped p action access scopes _ o.1
        (record_fabric-Scoped p sc action access rows o.0 h)

  module _ (scopes : List String) (o : All P scopes) where
    record_members-Scoped :
        (action access : String) (members : List Json) (rows : Rows)
        → Scoped P rows
        → Scoped P (record_members action access scopes members rows)
    unfolding record_members
    record_members-Scoped action access [] rows h = h
    record_members-Scoped action access (m ∷ members) rows h =
        record_members-Scoped action access members _ (
          if_rule {A = Rows} (Scoped P) (is_empty (lower (text_of (get m "objectId")))) h
            (record_on_scopes-Scoped (member_principal m) action access scopes rows o h))

    record_action-Scoped :
        (action : String) (a : Option String) (members : List Json) (rows : Rows)
        → Scoped P rows
        → Scoped P (record_action action a scopes members rows)
    record_action-Scoped action none members rows h = h
    record_action-Scoped action (some access) members rows h =
        record_members-Scoped action access members rows h

    record_rule_actions-Scoped :
        (actions : List String) (members : List Json) (rows : Rows)
        → Scoped P rows
        → Scoped P (record_rule_actions actions scopes members rows)
    unfolding record_rule_actions
    record_rule_actions-Scoped [] members rows h = h
    record_rule_actions-Scoped (action ∷ actions) members rows h =
        record_rule_actions-Scoped actions members _
          (record_action-Scoped action (lookup action dar_action_to_access) members rows h)

-- The workspace of the pairing, or its catalog, or something in that catalog.
abbrev pub InPairing : String → String → String → Type 0
InPairing workspace catalog scope = (scope ≡ "workspace:" <> workspace) ⊎ InCatalog catalog scope

module _ (H : Hashing) (workspace catalog : String) where
  record_rules-Scoped :
      (members rules : List Json) (rows : Rows)
      → Scoped (InPairing workspace catalog) rows
      → Scoped (InPairing workspace catalog) (record_rules H catalog members rules rows)
  unfolding record_rules
  record_rules-Scoped members [] rows h = h
  record_rules-Scoped members (rule ∷ rules) rows h =
      let P = InPairing workspace catalog in
      let scopes = scopes_from_dar_paths catalog (rule_values rule "Path") in
      record_rules-Scoped members rules _ (
        record_rule_actions-Scoped P scopes
          (All-imp (InCatalog catalog) P scopes (λ t q. inr q)
            (scopes-InCatalog catalog (rule_values rule "Path")))
          (rule_values rule "Action") members _
          (record_fabric_constraints-Scoped P H catalog members rule rows h))

  record_dars-Scoped :
      (dars : List Json) (rows : Rows)
      → Scoped (InPairing workspace catalog) rows
      → Scoped (InPairing workspace catalog) (record_dars H catalog dars rows)
  unfolding record_dars
  record_dars-Scoped [] rows h = h
  record_dars-Scoped (dar ∷ dars) rows h =
      record_dars-Scoped dars _
        (record_rules-Scoped (members_of dar) (elements (get dar "decisionRules")) rows h)

module _ (workspace catalog : String) where
  role_rows-Scoped :
      (p : Principal) (role : String) (a : Option String) (rows : Rows)
      → Scoped (InPairing workspace catalog) rows
      → Scoped (InPairing workspace catalog) (role_rows rows workspace catalog p role a)
  unfolding role_rows
  role_rows-Scoped p role none rows h = h
  role_rows-Scoped p role (some access) rows h =
      let P = InPairing workspace catalog in
      let here =
        record_fabric-Scoped P p ("workspace:" <> workspace) role access rows (inl refl) h in
      if_rule {A = Rows} (Scoped P) (is_empty catalog) here (
        record_fabric-Scoped P p ("catalog:" <> catalog) role "OBJECT_USE" _ (inr (inl refl)) (
          record_classes-Scoped P p ("catalog:" <> catalog) role
            (access ∷ or_empty (lookup access access_subsumes)) _ (inr (inl refl)) here))

  record_assignments-Scoped :
      (assignments : List Json) (rows : Rows)
      → Scoped (InPairing workspace catalog) rows
      → Scoped (InPairing workspace catalog) (record_assignments rows workspace catalog assignments)
  unfolding record_assignments
  record_assignments-Scoped [] rows h = h
  record_assignments-Scoped (ra ∷ assignments) rows h = record_assignments-Scoped assignments _ (
      if_rule {A = Rows} (Scoped (InPairing workspace catalog))
        (is_empty (fabric_principal_key ra).key) h
        (role_rows-Scoped (fabric_principal_key ra) _ _ rows h))

module _ (S : Services) (H : Hashing) (workspace_id uc_catalog : String) (s : S.State) where
  abbrev Paired : Rows → Type 0
  Paired = Scoped (InPairing workspace_id uc_catalog)

  of_item-Paired :
      (item : Option Json) (rows : Rows)
      → Paired rows
      → Ensures Paired (of_item S H workspace_id uc_catalog s item rows)
  unfolding of_item
  of_item-Paired none rows h = h
  of_item-Paired (some item) rows h =
      if_rule {A = Outcome Rows} (Ensures Paired) (is_empty (text_of (get item "id"))) h (
        Ensures-last Paired (list_data_access_policies S s workspace_id (text_of (get item "id"))) _
          (λ dars. record_dars-Scoped H workspace_id uc_catalog dars rows h))

  of_mirror-Paired :
      (rows : Rows) → Paired rows → Ensures Paired (of_mirror S H workspace_id uc_catalog s rows)
  unfolding of_mirror
  of_mirror-Paired rows h = if_rule {A = Outcome Rows} (Ensures Paired) (is_empty uc_catalog) h (
      Ensures-last Paired (list_items S s workspace_id) _
        (λ items. of_item-Paired (mirrored_item_for items uc_catalog) rows h))

  -- Every row that is collected from Fabric is a constraint or stands on the workspace of the
  -- pairing, on its catalog, or on a schema or a table in that catalog: whatever paths the data
  -- access roles have, no grant is reported outside the pairing.
  pub collect_fabric_rows-InPairing :
      Ensures
        (All (λ r.
          InPairing workspace_id uc_catalog r.securable_scope
          ⊎ (is_empty r.constraint_kind ≡ false)))
        (collect_fabric_rows S H workspace_id uc_catalog s)
  unfolding collect_fabric_rows
  collect_fabric_rows-InPairing =
      Ensures-last _
        (auth_failed S H workspace_id uc_catalog s (list_role_assignments S s workspace_id)) _
        (λ assignments.
          Ensures-bind Paired _
            (of_mirror S H workspace_id uc_catalog s
              (record_assignments [] workspace_id uc_catalog assignments))
            _
            (of_mirror-Paired _
              (record_assignments-Scoped workspace_id uc_catalog assignments [] tt))
            (λ rows h. values-Scoped (InPairing workspace_id uc_catalog) rows h))
