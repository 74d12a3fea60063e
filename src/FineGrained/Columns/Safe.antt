-- ===== src/FineGrained/Columns/Safe.antt =====
-- Which columns a column constraint leaves visible (app/services/fine_grained_policy.py).
use fabric_unified_permissio.Base.{
  ap, String, Bool, true, false, not, ◌&&◌, ◌≡◌, refl, List, [], ◌∷◌, sym, subst, arith, ◌∙◌,
}
use fabric_unified_permissio.Base.{
  ◌==◌, string_eq, map, contains, contains-keep, all_of-contains, all_of, any_of, Option, none,
  some, ◌||◌,
}
use fabric_unified_permissio.Base.Outcome.{Outcome, ok, raised, ◌>>=◌, is_ok, Ensures, Ensures-last}
use fabric_unified_permissio.Base.Text.{is_empty, strip}
use fabric_unified_permissio.FineGrained.Scope.{
  FabricConstraintTranslation, Check, demand, safe_identifier, require_safe_identifier,
  fabric_table_path, safe_table, TableParts, table_parts_from_scope, at_table, path_of,
}
use fabric_unified_permissio.FineGrained.Columns.{
  all_safe, shown_beside, visible, is_nil, build_fabric_column_constraint,
}

demand-is_ok {ℓ} :
    {A : Type ℓ} (b : Bool) (e : String) (f : Unit {0} → Outcome A)
    → is_ok (demand b e >>= f) ≡ (b && is_ok (f tt))
demand-is_ok true e f = refl
demand-is_ok false e f = refl

all_safe-is_ok : (cs : List String) → is_ok (all_safe cs) ≡ all_of safe_identifier cs
unfolding all_safe
all_safe-is_ok [] = refl
all_safe-is_ok (c ∷ cs) =
    demand-is_ok (safe_identifier c) _ (λ u. all_safe cs) ∙ rw (all_safe-is_ok cs) refl

-- The checks of the code, in its order.
abbrev checks_pass : String → String → String → List String → Bool
checks_pass scope default_catalog masked_column table_columns =
    is_ok (fabric_table_path scope default_catalog)
    && safe_identifier (strip masked_column)
    && not (is_nil (visible (strip masked_column) table_columns))
    && all_of safe_identifier (visible (strip masked_column) table_columns)

-- The parts of a scope are there, with a schema and a name that are safe identifiers.
abbrev names_safe_table : Option TableParts → Bool
names_safe_table none = false
names_safe_table (some t) = safe_identifier t.schema && safe_identifier t.table

-- A column of the table, with blanks around it perhaps, that is neither blank nor the masked one.
abbrev is_other_column : String → String → Bool
is_other_column masked_column column =
    not (is_empty (strip column)) && not (strip column == strip masked_column)

-- When a mask can be written as a constraint.
abbrev pub acceptable : String → String → String → List String → Bool
acceptable scope default_catalog masked_column table_columns =
    names_safe_table (table_parts_from_scope scope default_catalog)
    && safe_identifier (strip masked_column)
    && any_of (is_other_column masked_column) table_columns
    && all_of
        (λ column. not (is_other_column masked_column column) || safe_identifier (strip column))
        table_columns

fabric_table_path-is_ok :
    (scope default_catalog : String)
    → is_ok (fabric_table_path scope default_catalog)
      ≡ names_safe_table (table_parts_from_scope scope default_catalog)
unfolding fabric_table_path safe_table
fabric_table_path-is_ok scope default_catalog =
    of_parts (table_parts_from_scope scope default_catalog) _
  where
    both_safe :
        (a b : Bool) (x y : String) (t : TableParts)
        → is_ok (demand a x >>= (λ u. demand b y >>= λ v. ok t) >>= λ p. ok (path_of p)) ≡ (a && b)
    both_safe true true x y t = refl
    both_safe true false x y t = refl
    both_safe false b x y t = refl

    of_parts :
        (o : Option TableParts) (e : String)
        → is_ok (
            (at_table o e >>= λ t. require_safe_identifier t.schema "schema" >>= λ u.
            require_safe_identifier t.table "table" >>= λ v. ok t)
            >>= λ t. ok (path_of t))
          ≡ names_safe_table o
    of_parts none e = refl
    of_parts (some t) e = both_safe (safe_identifier t.schema) (safe_identifier t.table) _ _ t

any_shown :
    (masked : String) (cs : List String)
    → not (is_nil (visible masked cs)) ≡ any_of (λ c. shown_beside masked (strip c)) cs
any_shown masked [] = refl
any_shown masked (c ∷ cs) = ground (arith, any_shown masked cs)

all_shown :
    (masked : String) (cs : List String)
    → all_of safe_identifier (visible masked cs)
      ≡ all_of (λ c. not (shown_beside masked (strip c)) || safe_identifier (strip c)) cs
all_shown masked [] = refl
all_shown masked (c ∷ cs) = ground (arith, all_shown masked cs)

last-is_ok {ℓ} :
    {A : Type ℓ} (cs : List String) (a : A)
    → is_ok (all_safe cs >>= λ u. ok a) ≡ all_of safe_identifier cs
last-is_ok cs a = kept (all_safe cs) ∙ all_safe-is_ok cs
  where
    kept : (m : Check) → is_ok (m >>= λ u. ok a) ≡ is_ok m
    kept (ok u) = refl
    kept (raised e) = refl

named : (s : String) → (not (is_empty s) && safe_identifier s) ≡ safe_identifier s
unfolding safe_identifier
named String.[] = refl
named (String.◌∷◌ c s) = refl

regroup :
    (path full safe more all : Bool)
    → (full && safe) ≡ safe
    → (path && (full && (safe && (more && all)))) ≡ (path && safe && more && all)
regroup path full safe more all h = ground arith

module _ (scope default_catalog masked_column : String) (table_columns : List String) where
  path_first {ℓ} :
      {A : Type ℓ} (m : Outcome String) (f : String → Outcome A) (b : Bool)
      → ((p : String) → is_ok (f p) ≡ b)
      → is_ok (m >>= f) ≡ (is_ok m && b)
  path_first (ok p) f b h = h p
  path_first (raised e) f b h = refl

  accepted_checks :
      is_ok (build_fabric_column_constraint scope default_catalog masked_column table_columns)
      ≡ checks_pass scope default_catalog masked_column table_columns
  unfolding build_fabric_column_constraint
  accepted_checks =
      let m = strip masked_column in
      let cs = visible m table_columns in
      let rest : Bool = safe_identifier m && (not (is_nil cs) && all_of safe_identifier cs) in
      path_first (fabric_table_path scope default_catalog) _ (not (is_empty m) && rest) (λ p.
        demand-is_ok (not (is_empty m)) _ _
        ∙ ap (λ b. not (is_empty m) && b)
            (demand-is_ok (safe_identifier m) _ _
              ∙ ap (λ b. safe_identifier m && b)
                  (demand-is_ok (not (is_nil cs)) _ _
                    ∙ ap (λ b. not (is_nil cs) && b) (last-is_ok cs _))))
      ∙ regroup (is_ok (fabric_table_path scope default_catalog)) (not (is_empty m)) _ _ _ (named m)

  -- A mask is accepted exactly if the scope names a table whose schema and name are safe identifiers,
  -- the masked column is one, some column of the table is neither blank nor the masked one, and all
  -- such columns are safe identifiers, each read without the blanks around it; the function raises in
  -- every other case.
  pub column_constraint_accepted :
      is_ok (build_fabric_column_constraint scope default_catalog masked_column table_columns)
      ≡ acceptable scope default_catalog masked_column table_columns
  column_constraint_accepted =
      accepted_checks
      ∙ rw
          (
            fabric_table_path-is_ok scope default_catalog,
            any_shown (strip masked_column) table_columns,
            all_shown (strip masked_column) table_columns,
          )
          refl

  listed :
      Ensures
        (λ tr. tr.column_names ≡ visible (strip masked_column) table_columns)
        (build_fabric_column_constraint scope default_catalog masked_column table_columns)
  unfolding build_fabric_column_constraint
  listed =
      let P : FabricConstraintTranslation → Type 0 =
        λ tr. tr.column_names ≡ visible (strip masked_column) table_columns in
      Ensures-last P (fabric_table_path scope default_catalog) _ (λ p.
        Ensures-last P (demand (not (is_empty (strip masked_column))) _) _ (λ a.
          Ensures-last P (require_safe_identifier (strip masked_column) "column") _ (λ b.
            Ensures-last P (demand (not (is_nil (visible (strip masked_column) table_columns))) _) _
              (λ c.
                Ensures-last P (all_safe (visible (strip masked_column) table_columns)) _
                  (λ d. refl)))))

  -- A mask that is accepted hides its column. The constraint lists a column exactly if the table has
  -- it, it is not blank and it is not the masked one, and it lists no column that is not a safe
  -- identifier.
  pub column_constraint_hides :
      (tr : FabricConstraintTranslation) (c : String)
      → build_fabric_column_constraint scope default_catalog masked_column table_columns ≡ ok tr
      → (contains tr.column_names c ≡ (
          contains (map strip table_columns) c
          && (not (is_empty c) && not (c == strip masked_column))))
        × ((contains tr.column_names c && not (safe_identifier c)) ≡ false)
  column_constraint_hides tr c h =
      let lists : tr.column_names ≡ visible (strip masked_column) table_columns =
        subst (Ensures (λ t. t.column_names ≡ visible (strip masked_column) table_columns)) h
          listed in
      let good : checks_pass scope default_catalog masked_column table_columns ≡ true =
        sym accepted_checks ∙ ap is_ok h in
      (
        rw lists (contains-keep (shown_beside (strip masked_column)) c (map strip table_columns)),
        rw lists (all_of-contains safe_identifier c _ (ground arith)),
      )
