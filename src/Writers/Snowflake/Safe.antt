-- ===== src/Writers/Snowflake/Safe.antt =====
-- No statement of permission-sync/src/writers/snowflake_writer.py can hold a character that ends
-- it, comments it out or opens a string.
use Prim.Native.Char.{code}
use Prim.Native.String.append
use fabric_unified_permissio.Base.{ℕ, String, ◌<>◌, Bool, true, false, ◌||◌, ◌≡◌, refl, arith, eqb}
use mathlib.Core.Bool.{or_assoc}
use fabric_unified_permissio.Base.{
  sym, subst, leb, ◌&&◌, if◌then◌else◌, if_rule, ◌⊎◌, inl, inr, Bool-cases, ◌==◌, string_eq,
}
use fabric_unified_permissio.Base.Outcome.{ok, Ensures, Ensures-bind}
use fabric_unified_permissio.Base.Text.{upper, has_char, is_empty}
use fabric_unified_permissio.Canonical.{CanonicalPermission}
use fabric_unified_permissio.Writers.Snowflake.{is_ident, ident_rest, is_ident_part, is_ident_start}
use fabric_unified_permissio.Writers.Snowflake.{safe_ident, statement, grantee_type}

has_char-append : (n : ℕ) (s t : String) → has_char n (s <> t) ≡ (has_char n s || has_char n t)
unfolding has_char
has_char-append n String.[] t = rw append.nil
has_char-append n (String.◌∷◌ c s) t =
    rw append.cons
      (rw (has_char-append n s t) (sym (or_assoc (eqb (code c) n) (has_char n s) (has_char n t))))

abbrev start_code : ℕ → Bool
start_code m = leb 65 m && leb m 90 || (leb 97 m && leb m 122) || eqb m b'_'

abbrev part_code : ℕ → Bool
part_code m = start_code m || (leb 48 m && leb m 57) || eqb m b'.' || eqb m 34

both_false :
    (start rest here more : Bool)
    → (start && rest) ≡ true
    → (start ≡ true → here ≡ false)
    → (rest ≡ true → more ≡ false)
    → (here || more) ≡ false
both_false start rest here more h a b = ground arith

-- `;`, `'`, `-`, `/` and `(`
abbrev pub IsBlocked : ℕ → Type 0
IsBlocked n = (n ≡ 59) ⊎ (n ≡ 39) ⊎ (n ≡ 45) ⊎ (n ≡ 47) ⊎ (n ≡ 40)

part-ne : (m n : ℕ) → IsBlocked n → part_code m ≡ true → eqb m n ≡ false
part-ne m n b h = ground arith

newline-ne : (m n : ℕ) → IsBlocked n → eqb m 10 ≡ true → eqb m n ≡ false
newline-ne m n b h = ground arith

empty-has_char : (n : ℕ) (s : String) → is_empty s ≡ true → has_char n s ≡ false
unfolding has_char
empty-has_char n String.[] h = refl
empty-has_char n (String.◌∷◌ c s) h = cc

-- The cases of one character of `ident_rest`.
step_cases :
    (part rest newline empty here more : Bool)
    → (part && rest || newline && empty) ≡ true
    → (part ≡ true → here ≡ false)
    → (newline ≡ true → here ≡ false)
    → (rest ≡ true → more ≡ false)
    → (empty ≡ true → more ≡ false)
    → (here || more) ≡ false
step_cases part rest newline empty here more h a b c d = ground arith

ident_rest-has_char :
    (n : ℕ) (s : String) → IsBlocked n → ident_rest s ≡ true → has_char n s ≡ false
unfolding has_char ident_rest
ident_rest-has_char n String.[] b h = refl
ident_rest-has_char n (String.◌∷◌ c s) b h =
    step_cases (is_ident_part c) (ident_rest s) (eqb (code c) 10) (is_empty s) _ _ h
      (part-ne (code c) n b) (newline-ne (code c) n b) (ident_rest-has_char n s b)
      (empty-has_char n s)

start-part : (m : ℕ) → start_code m ≡ true → part_code m ≡ true
start-part m h = rw h

is_ident-has_char : (n : ℕ) (s : String) → IsBlocked n → is_ident s ≡ true → has_char n s ≡ false
unfolding is_ident has_char
is_ident-has_char n String.[] b h = cc
is_ident-has_char n (String.◌∷◌ c s) b h =
    both_false (is_ident_start c) (ident_rest s) _ _ h
      (λ x. part-ne (code c) n b (start-part (code c) x)) (ident_rest-has_char n s b)

-- The text has none of the character.
abbrev Lacks : ℕ → String → Type 0
Lacks n s = has_char n s ≡ false

Lacks-append : (n : ℕ) (s t : String) → Lacks n s → Lacks n t → Lacks n (s <> t)
Lacks-append n s t hs ht = rw has_char-append (rw (hs, ht))

safe_ident-Lacks : (n : ℕ) (v : String) → IsBlocked n → Ensures (Lacks n) (safe_ident v)
unfolding safe_ident
safe_ident-Lacks n v b = elim (Bool-cases (is_ident v)) [
  | inl e ↦ rw e (is_ident-has_char n v b e)
  | inr e ↦ rw e tt
]

verb-Lacks : (n : ℕ) (grant : Bool) → IsBlocked n → Lacks n (if grant then "GRANT" else "REVOKE")
unfolding has_char
verb-Lacks n true b = ground arith
verb-Lacks n false b = ground arith

conj-Lacks : (n : ℕ) (grant : Bool) → IsBlocked n → Lacks n (if grant then "TO" else "FROM")
unfolding has_char
conj-Lacks n true b = ground arith
conj-Lacks n false b = ground arith

grantee_type-Lacks : (n : ℕ) (p : CanonicalPermission) → IsBlocked n → Lacks n (grantee_type p)
unfolding has_char grantee_type
grantee_type-Lacks n p b =
    if_rule (Lacks n) (p.principal_type == "Group") (ground arith) (ground arith)

blank-Lacks : (n : ℕ) → IsBlocked n → Lacks n " "
unfolding has_char
blank-Lacks n b = ground arith

on-Lacks : (n : ℕ) → IsBlocked n → Lacks n " ON "
unfolding has_char
on-Lacks n b = ground arith

ruleset lacks = (Lacks-append, verb-Lacks, conj-Lacks, grantee_type-Lacks, blank-Lacks, on-Lacks)

parts-Lacks :
    (p : CanonicalPermission) (grant : Bool) (n : ℕ) (priv ty fqn grantee : String)
    → IsBlocked n
    → Lacks n priv
    → Lacks n ty
    → Lacks n fqn
    → Lacks n grantee
    → Lacks n (
        (if grant then "GRANT" else "REVOKE")
        <> " "
        <> priv
        <> " ON "
        <> ty
        <> " "
        <> fqn
        <> " "
        <> (if grant then "TO" else "FROM")
        <> " "
        <> grantee_type p
        <> " "
        <> grantee)
parts-Lacks p grant n priv ty fqn grantee b h1 h2 h3 h4 = search lacks depth 14

statement-Ensures :
    (p : CanonicalPermission) (target_privilege sf_name : String) (grant : Bool) (n : ℕ)
    → IsBlocked n
    → Ensures (Lacks n) (statement p target_privilege sf_name grant)
unfolding statement
statement-Ensures p target_privilege sf_name grant n b =
    Ensures-bind (Lacks n) (Lacks n) (safe_ident (upper p.securable_type)) _
      (safe_ident-Lacks n _ b)
      λ ty h2.
        Ensures-bind (Lacks n) (Lacks n) (safe_ident p.securable_fqn) _ (safe_ident-Lacks n _ b)
          λ fqn h3.
            Ensures-bind (Lacks n) (Lacks n) (safe_ident target_privilege) _
              (safe_ident-Lacks n _ b)
              λ priv h1.
                Ensures-bind (Lacks n) (Lacks n) (safe_ident sf_name) _ (safe_ident-Lacks n _ b)
                  λ grantee h4. parts-Lacks p grant n priv ty fqn grantee b h1 h2 h3 h4

-- A statement that is built holds no semicolon, no single quote, no dash, no slash and no opening
-- parenthesis.
pub statement-Lacks :
    (p : CanonicalPermission) (target_privilege sf_name : String) (grant : Bool) (n : ℕ)
    (sql : String)
    → IsBlocked n
    → statement p target_privilege sf_name grant ≡ ok sql
    → has_char n sql ≡ false
statement-Lacks p target_privilege sf_name grant n sql b h =
    subst (Ensures (Lacks n)) h (statement-Ensures p target_privilege sf_name grant n b)
