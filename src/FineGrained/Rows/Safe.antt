-- ===== src/FineGrained/Rows/Safe.antt =====
-- What a predicate that is sent to Fabric can hold (app/services/fine_grained_policy.py).
use Prim.Native.Char.{Char, code}
use Prim.Native.String.append
use fabric_unified_permissio.Base.{
  String, ◌<>◌, Bool, true, false, not, ◌&&◌, ◌||◌, ◌≡◌, refl, List, subst, arith, Bool-cases, inl,
  inr,
}
use fabric_unified_permissio.Base.{string_eq, eqb, if◌then◌else◌}
use fabric_unified_permissio.Base.Json.{Json}
use fabric_unified_permissio.Base.Outcome.{ok, Ensures, Ensures-bind, Ensures-last}
use fabric_unified_permissio.Base.Scan.{is_word_char}
use fabric_unified_permissio.Base.Text.{
  all_chars-imp, is_blank, is_empty, strip, lstrip, rstrip_of, all_chars,
}
use fabric_unified_permissio.FineGrained.Predicate.{
  is_predicate_char, validate_safe_row_predicate, no_function, has_blocked_token, has_keyword,
  first_unsupported,
}
use fabric_unified_permissio.FineGrained.Scope.{
  demand-Ensures, FabricConstraintTranslation, TableParts, demand, safe_identifier,
  require_safe_identifier, safe_table, table_parts_from_scope, at_table, function_param_names,
}
use fabric_unified_permissio.FineGrained.Rows.{
  build_fabric_row_constraint, body_of, is_boolean, map_function_params,
  remove_databricks_current_user_wrapper, remove_databricks_group_predicate,
}

all_chars-append :
    (p : Char → Bool) (s t : String) → all_chars p (s <> t) ≡ (all_chars p s && all_chars p t)
unfolding all_chars
all_chars-append p String.[] t = rw append.nil
all_chars-append p (String.◌∷◌ c s) t = rw append.cons (rw (all_chars-append p s t) (ground arith))

module _ (b q : Char → Bool) (f : (c : Char) → b c ≡ true → q c ≡ true) where
  behind_cases :
      (c : Char) (s t : String)
      → (all_chars q t ≡ true → all_chars q s ≡ true)
      → all_chars q (elim t [
        | String.[] ↦ if b c then "" else String.◌∷◌ c ""
        | String.◌∷◌ d r ↦ String.◌∷◌ c (String.◌∷◌ d r)
      ])
        ≡ true
      → all_chars q (String.◌∷◌ c s) ≡ true
  unfolding all_chars
  behind_cases c s String.[] g h = elim (Bool-cases (b c)) [
    | inl e ↦ (let good = f c e in ground (arith, g refl))
    | inr e ↦ ground (arith, g refl)
  ]
  behind_cases c s (String.◌∷◌ d r) g h = ground (arith, g)

  rstrip_back : (s : String) → all_chars q (rstrip_of b s) ≡ true → all_chars q s ≡ true
  unfolding rstrip_of
  rstrip_back String.[] h = h
  rstrip_back (String.◌∷◌ c s) h = behind_cases c s (rstrip_of b s) (rstrip_back s) h

module _ (q : Char → Bool) (f : (c : Char) → is_blank c ≡ true → q c ≡ true) where
  lstrip_back : (s : String) → all_chars q (lstrip s) ≡ true → all_chars q s ≡ true
  unfolding lstrip all_chars
  lstrip_back String.[] h = h
  lstrip_back (String.◌∷◌ c s) h = elim (Bool-cases (is_blank c)) [
    | inl e ↦
        (let good = f c e in
          let rest =
            lstrip_back s
              (subst (λ b. all_chars q (if b then lstrip s else String.◌∷◌ c s) ≡ true) e h) in
          ground arith)
    | inr e ↦ subst (λ b. all_chars q (if b then lstrip s else String.◌∷◌ c s) ≡ true) e h
  ]

  strip_back : (s : String) → all_chars q (strip s) ≡ true → all_chars q s ≡ true
  unfolding strip
  strip_back s h = lstrip_back s (rstrip_back is_blank q f (lstrip s) h)

abbrev pub is_query_char : Char → Bool
is_query_char c = is_predicate_char c || eqb (code c) b'*'

abbrev IsQuery : String → Type 0
IsQuery s = all_chars is_query_char s ≡ true

IsQuery-append : (s t : String) → IsQuery s → IsQuery t → IsQuery (s <> t)
IsQuery-append s t hs ht = rw all_chars-append (rw (hs, ht) refl)

word_allowed : (c : Char) → is_word_char c ≡ true → is_query_char c ≡ true
word_allowed c h = ground arith

identifier_allowed : (s : String) → safe_identifier s ≡ true → IsQuery s
unfolding safe_identifier all_chars
identifier_allowed String.[] h = refl
identifier_allowed (String.◌∷◌ c s) h =
    let rest = all_chars-imp is_word_char is_query_char word_allowed s (ground arith) in
    ground arith

blank_allowed : (c : Char) → is_blank c ≡ true → is_predicate_char c ≡ true
blank_allowed c h = ground arith

checked :
    (e : String) (b : Bool)
    → all_chars is_predicate_char (strip e) ≡ b
    → Ensures
        (λ u. all_chars is_predicate_char e ≡ true)
        (demand b "row predicate contains unsupported characters")
checked e true h = strip_back is_predicate_char blank_allowed e h
checked e false h = tt

-- A predicate that passes has only characters of a predicate.
predicate-Ensures :
    (e : String)
    → Ensures (λ u. all_chars is_predicate_char e ≡ true) (validate_safe_row_predicate e)
unfolding validate_safe_row_predicate
predicate-Ensures e =
    let P : Unit {0} → Type 0 = λ u. all_chars is_predicate_char e ≡ true in
    Ensures-last P (demand (not (is_empty (strip e))) _) _ (λ a.
      Ensures-last P (demand (not (has_blocked_token (strip e))) _) _ (λ b.
        Ensures-last P (demand (not (has_keyword (strip e))) _) _ (λ c.
          Ensures-last P (no_function (first_unsupported (strip e))) _
            (λ d. checked e (all_chars is_predicate_char (strip e)) refl))))

table-Ensures :
    (scope default_catalog e : String)
    → Ensures
        (λ t. (safe_identifier t.schema && safe_identifier t.table) ≡ true)
        (safe_table scope default_catalog e)
unfolding safe_table
table-Ensures scope default_catalog e =
    let P : TableParts → Type 0 =
      λ t. (safe_identifier t.schema && safe_identifier t.table) ≡ true in
    Ensures-last P (at_table (table_parts_from_scope scope default_catalog) e) _ (λ t.
      Ensures-bind (λ u. safe_identifier t.schema ≡ true) P
        (require_safe_identifier t.schema "schema") _ (demand-Ensures (safe_identifier t.schema) _)
        (λ u hs.
          Ensures-bind (λ u. safe_identifier t.table ≡ true) P
            (require_safe_identifier t.table "table") _ (demand-Ensures (safe_identifier t.table) _)
            (λ v ht. ground arith)))

select_allowed :
    (t : TableParts) (e : String)
    → (safe_identifier t.schema && safe_identifier t.table) ≡ true
    → all_chars is_predicate_char e ≡ true
    → IsQuery ("select * from " <> t.schema <> "." <> t.table <> " where " <> e)
unfolding all_chars
select_allowed t e h k =
    IsQuery-append "select * from " (t.schema <> "." <> t.table <> " where " <> e) refl (
      IsQuery-append t.schema ("." <> t.table <> " where " <> e)
        (identifier_allowed t.schema (ground arith))
        (IsQuery-append "." (t.table <> " where " <> e) refl (
          IsQuery-append t.table (" where " <> e) (identifier_allowed t.table (ground arith)) (
            IsQuery-append " where " e refl
              (all_chars-imp is_predicate_char is_query_char (λ c g. ground arith) e k)))))

module _ (scope default_catalog : String) (function_info : Json) (input_columns : List String)
    (allow_test_degraded : Bool) where
  built :
      Ensures
        (λ tr. IsQuery tr.predicate)
        (build_fabric_row_constraint scope default_catalog function_info input_columns
          allow_test_degraded)
  unfolding build_fabric_row_constraint
  built =
      let P : FabricConstraintTranslation → Type 0 = λ tr. IsQuery tr.predicate in
      Ensures-bind (λ t. (safe_identifier t.schema && safe_identifier t.table) ≡ true) P
        (safe_table scope default_catalog _) _ (table-Ensures scope default_catalog _)
        (λ t ht. Ensures-last P (demand (is_boolean function_info) _) _ (λ a.
          Ensures-last P (demand (not (is_empty (body_of function_info))) _) _ (λ b.
            Ensures-last P
              (map_function_params (body_of function_info) (function_param_names function_info)
                input_columns)
              _
              (λ mapped.
                Ensures-last P
                  (remove_databricks_group_predicate allow_test_degraded
                    (remove_databricks_current_user_wrapper mapped).expression)
                  _
                  (λ rest.
                    Ensures-bind (λ u. all_chars is_predicate_char rest.expression ≡ true) P
                      (validate_safe_row_predicate rest.expression) _
                      (predicate-Ensures rest.expression)
                      (λ u hu. select_allowed t rest.expression ht hu))))))

  -- The predicate that a row filter becomes has only letters, digits, blanks and the characters
  -- `_ ' " = < > ! , ( ) . - *`: a function whose body leaves any other character in it, such as a
  -- semicolon, a slash or a backslash, is refused.
  pub row_constraint_characters :
      (tr : FabricConstraintTranslation)
      → build_fabric_row_constraint scope default_catalog function_info input_columns
          allow_test_degraded
        ≡ ok tr
      → all_chars is_query_char tr.predicate ≡ true
  row_constraint_characters tr h = subst (Ensures (λ t. IsQuery t.predicate)) h built
