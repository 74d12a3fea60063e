-- ===== src/PairApply/UcSql/Members.antt =====
-- The members of a Fabric constraint that Graph does not know (app/services/pair_apply.py).
use fabric_unified_permissio.Base.{
  not, contains, all_of, ap, sym, subst, ◌∙◌, ◌≢◌, text_ne, Bool-cases, inl, inr, if_rule, String,
  ◌<>◌, map, ◌==◌, string_eq, Bool, true, false, ◌≡◌, refl, List, [], ◌∷◌, ◌++◌, none, keep,
  if◌then◌else◌,
}
use fabric_unified_permissio.Base.Http.{Services}
use fabric_unified_permissio.Base.Json.{Json, Fields, get_field, elements, is_dict, text_of}
use fabric_unified_permissio.PairApply.Graph.{resolve_fabric_principal_to_uc_principal}
use fabric_unified_permissio.Base.Dict.{lookup, keys, has}
use fabric_unified_permissio.Base.Json.{
  str, or_else, get_field-set_field, get_field-set_field_ne, elements-array_of,
}
use fabric_unified_permissio.Base.Json.{arr, array_of, set_field}
use fabric_unified_permissio.Base.Outcome.{Outcome, Ensures, Ensures-last}
use fabric_unified_permissio.Base.Text.{is_empty, lower, join, nil_append, append_assoc}
use fabric_unified_permissio.FineGrained.Scope.{TableParts, demand}
use fabric_unified_permissio.FineGrained.Predicate.{normalize_row_predicate, referenced_columns}
use fabric_unified_permissio.PairApply.DataRoles.Write.{Identity}
use fabric_unified_permissio.PairDiff.{DiffRow}
use fabric_unified_permissio.PairApply.UcSql.{
  named_columns, the_hidden, type_in, names_of, is_nil, or_read, scoped_to, parameters, sql_string,
  row_filter_statements, mask_statements, mask_literal_for_type, safe_uc_name,
  fabric_row_filter_uc_sql, fabric_column_mask_uc_sql, fabric_constraint_uc_sql,
}
use fabric_unified_permissio.PairApply.UcSql.{
  resolved_members, constraint_uc_member_principals, raw_principal, raw_type,
}

module _ (S : Services) (s : S.State) where
  abbrev pub Unresolved : Json → Type 0
  Unresolved m =
      resolve_fabric_principal_to_uc_principal S (text_of (raw_principal m)) (text_of (raw_type m))
        s
      ≡ none

  kept_member :
      (b : Bool) (x : Json) (xs ys : List Json)
      → resolved_members S s xs ≡ resolved_members S s ys
      → resolved_members S s (if b then x ∷ xs else xs)
        ≡ resolved_members S s (if b then x ∷ ys else ys)
  unfolding resolved_members
  kept_member true x xs ys h = rw h refl
  kept_member false x xs ys h = h

  without_member :
      (before after : List Json) (m : Json)
      → is_dict m ≡ true
      → Unresolved m
      → resolved_members S s (keep is_dict (before ++ (m ∷ after)))
        ≡ resolved_members S s (keep is_dict (before ++ after))
  unfolding resolved_members
  without_member [] after m hd hu = rw (hd, hu) refl
  without_member (x ∷ before) after m hd hu =
      kept_member (is_dict x) x _ _ (without_member before after m hd hu)

  dropped_member :
      (details others : Fields) (before after : List Json) (m : Json)
      → elements (get_field "members" details) ≡ (before ++ (m ∷ after))
      → elements (get_field "members" others) ≡ (before ++ after)
      → is_dict m ≡ true
      → Unresolved m
      → constraint_uc_member_principals S s details ≡ constraint_uc_member_principals S s others
  unfolding constraint_uc_member_principals
  dropped_member details others before after m h k hd hu =
      rw (h, k, without_member before after m hd hu) refl

-- The row with other members.
abbrev pub left_with : List Json → DiffRow → DiffRow
left_with ms row = record row {
  constraint_details = set_field "members" (arr (array_of ms)) row.constraint_details;
}

-- The function of the first statement gives the principals one value and everyone else another.
abbrev pub Scopes : String → List String → List String → Type 0
Scopes outside [] statements = Unit
Scopes outside (p ∷ ps) [] = ⊥
Scopes outside (p ∷ ps) (statement ∷ more) =
    (start : String) × (inside : String) × (statement
      ≡ start
        <> "CASE WHEN current_user() IN ("
        <> join ", " (map sql_string (p ∷ ps))
        <> ") THEN "
        <> inside
        <> " ELSE "
        <> outside
        <> " END")

-- What everyone else sees: every row, or the value as it is.
abbrev pub outside_of : DiffRow → String
outside_of row = if row.constraint_kind == "row_filter" then "true" else "value"

abbrev Ends : String → String → Type 0
Ends text statement = (start : String) × (statement ≡ start <> text)

self-Ends : (text : String) → Ends text text
self-Ends text = ("", sym (nil_append text))

after-Ends : (a text statement : String) → Ends text statement → Ends text (a <> statement)
after-Ends a text statement (start, h) =
    (a <> start, ap (λ x. a <> x) h ∙ sym (append_assoc a start text))

scoped :
    (outside p : String) (ps : List String) (inside statement : String)
    → Ends (scoped_to (p ∷ ps) inside outside) statement
    → Scopes outside (p ∷ ps) (statement ∷ [])
scoped outside p ps inside statement (start, h) = (start, inside, h)

module _ (S : Services) (i : Identity) (s : S.State) (default_catalog : String) where
  row_filter-Scopes :
      (t : TableParts) (predicate : String) (inputs params principals : List String)
      → Scopes "true" principals
          (row_filter_statements S i s default_catalog t predicate inputs params principals)
  unfolding row_filter_statements
  row_filter-Scopes t predicate inputs params [] = tt
  row_filter-Scopes t predicate inputs params (p ∷ ps) =
      scoped "true" p ps ("(" <> predicate <> ")") _ (
        after-Ends _ _ _
          (after-Ends _ _ _ (after-Ends _ _ _ (after-Ends _ _ _ (after-Ends _ _ _ (self-Ends _))))))

  mask-Scopes :
      (t : TableParts) (hidden uc_type : String) (shown principals : List String)
      → Scopes "value" principals
          (mask_statements S i s default_catalog t hidden uc_type shown principals)
  unfolding mask_statements
  mask-Scopes t hidden uc_type shown [] = tt
  mask-Scopes t hidden uc_type shown (p ∷ ps) =
      scoped "value" p ps (mask_literal_for_type uc_type) _ (
        after-Ends _ _ _ (
          after-Ends _ _ _ (
            after-Ends _ _ _ (
              after-Ends _ _ _
                (after-Ends _ _ _ (after-Ends _ _ _ (after-Ends _ _ _ (self-Ends _))))))))

  filter_sql-Scopes :
      (row : DiffRow) (metadata : Outcome (List Json))
      → Ensures
          (Scopes "true" (constraint_uc_member_principals S s row.constraint_details))
          (fabric_row_filter_uc_sql S i s default_catalog row metadata)
  unfolding fabric_row_filter_uc_sql
  filter_sql-Scopes row metadata =
      let P : List String → Type 0 =
        Scopes "true" (constraint_uc_member_principals S s row.constraint_details) in
      let predicate =
        normalize_row_predicate (text_of (get_field "predicate" row.constraint_details)) in
      Ensures-last P (safe_uc_name row.securable_scope default_catalog) _ (λ t.
        Ensures-last P (demand (not (is_empty predicate)) _) _ (λ a.
          Ensures-last P metadata _ (λ columns.
            Ensures-last P (referenced_columns predicate (keys (named_columns columns))) _
              (λ inputs. Ensures-last P (demand (not (is_nil inputs)) _) _ (λ b.
                Ensures-last P (parameters (named_columns columns) inputs) _
                  (λ params. row_filter-Scopes t predicate inputs params _))))))

  mask_sql-Scopes :
      (row : DiffRow) (metadata : Outcome (List Json))
      → Ensures
          (Scopes "value" (constraint_uc_member_principals S s row.constraint_details))
          (fabric_column_mask_uc_sql S i s default_catalog row metadata)
  unfolding fabric_column_mask_uc_sql
  mask_sql-Scopes row metadata =
      let P : List String → Type 0 =
        Scopes "value" (constraint_uc_member_principals S s row.constraint_details) in
      let d = row.constraint_details in
      let shown = names_of (elements (get_field "columns" d)) in
      Ensures-last P (safe_uc_name row.securable_scope default_catalog) _ (λ t.
        Ensures-last P
          (demand
            (lower (text_of (or_else (get_field "column_effect" d) (str "Permit"))) == "permit") _)
          _
          (λ a.
            Ensures-last P
              (demand
                (contains (map lower (or_read (names_of (elements (get_field "column_action" d)))))
                  "read")
                _)
              _
              (λ b. Ensures-last P (demand (not (is_nil shown)) _) _ (λ c.
                Ensures-last P metadata _ (λ columns.
                  Ensures-last P (demand (all_of (λ x. has x (named_columns columns)) shown) _) _
                    (λ e.
                      Ensures-last P
                        (the_hidden
                          (keep (λ x. not (contains shown x)) (keys (named_columns columns))))
                        _
                        (λ hidden.
                          Ensures-last P (type_in (lookup hidden (named_columns columns))) _
                            (λ uc_type. mask-Scopes t hidden uc_type shown _))))))))

  sql-Scopes :
      (row : DiffRow) (metadata : Outcome (List Json))
      → Ensures
          (Scopes (outside_of row) (constraint_uc_member_principals S s row.constraint_details))
          (fabric_constraint_uc_sql S i s default_catalog row metadata)
  unfolding fabric_constraint_uc_sql
  sql-Scopes row metadata =
      let ps = constraint_uc_member_principals S s row.constraint_details in
      elim (Bool-cases (row.constraint_kind == "row_filter")) [
        | inl e ↦ rw e (filter_sql-Scopes row metadata)
        | inr ne ↦ rw ne (
            if_rule {A = Outcome (List String)} (Ensures (Scopes "value" ps))
              (row.constraint_kind == "column_mask") (mask_sql-Scopes row metadata) tt)
      ]

  same_filter :
      (row : DiffRow) (metadata : Outcome (List Json)) (ms : List Json)
      → constraint_uc_member_principals S s row.constraint_details
        ≡ constraint_uc_member_principals S s (left_with ms row).constraint_details
      → fabric_row_filter_uc_sql S i s default_catalog row metadata
        ≡ fabric_row_filter_uc_sql S i s default_catalog (left_with ms row) metadata
  unfolding fabric_row_filter_uc_sql
  same_filter row metadata ms h =
      rw
        (
          h,
          get_field-set_field_ne "predicate" "members" (arr (array_of ms)) row.constraint_details
              (text_ne "predicate" "members" refl),
        )
        refl

  same_mask :
      (row : DiffRow) (metadata : Outcome (List Json)) (ms : List Json)
      → constraint_uc_member_principals S s row.constraint_details
        ≡ constraint_uc_member_principals S s (left_with ms row).constraint_details
      → fabric_column_mask_uc_sql S i s default_catalog row metadata
        ≡ fabric_column_mask_uc_sql S i s default_catalog (left_with ms row) metadata
  unfolding fabric_column_mask_uc_sql
  same_mask row metadata ms h =
      let other : (k : String)
          → k ≢ "members"
          → get_field k (set_field "members" (arr (array_of ms)) row.constraint_details)
            ≡ get_field k row.constraint_details =
        λ k ne. get_field-set_field_ne k "members" (arr (array_of ms)) row.constraint_details ne in
      rw
        (
          h,
          other "column_effect" (text_ne "column_effect" "members" refl),
          other "column_action" (text_ne "column_action" "members" refl),
          other "columns" (text_ne "columns" "members" refl),
        )
        refl

  -- A member that Graph does not resolve changes nothing in the SQL for a row filter or a mask: it
  -- is the SQL without this member. Where the SQL is made and other members are resolved, the
  -- function in its first statement ends in a CASE with a branch for those alone and `ELSE true`
  -- for a filter, `ELSE value` for a mask.
  pub unknown_member_dropped :
      (row : DiffRow) (metadata : Outcome (List Json)) (before after : List Json) (m : Json)
      → elements (get_field "members" row.constraint_details) ≡ (before ++ (m ∷ after))
      → is_dict m ≡ true
      → Unresolved S s m
      → (fabric_constraint_uc_sql S i s default_catalog row metadata
          ≡ fabric_constraint_uc_sql S i s default_catalog
              (left_with (before ++ after) row)
              metadata)
        × Ensures
            (Scopes (outside_of row) (
              constraint_uc_member_principals S s
                (left_with (before ++ after) row).constraint_details))
            (fabric_constraint_uc_sql S i s default_catalog row metadata)
  unfolding fabric_constraint_uc_sql
  unknown_member_dropped row metadata before after m h hd hu =
      let left = before ++ after in
      let read = get_field-set_field "members" (arr (array_of left)) row.constraint_details in
      let same =
        dropped_member S s row.constraint_details (left_with left row).constraint_details before
          after m h (ap elements read ∙ elements-array_of left) hd hu in
      (
        rw (same_filter row metadata left same, same_mask row metadata left same) refl,
        subst
            (λ ps.
              Ensures (Scopes (outside_of row) ps)
                (fabric_constraint_uc_sql S i s default_catalog row metadata))
            same (sql-Scopes row metadata),
      )
