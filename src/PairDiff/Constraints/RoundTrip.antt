-- ===== src/PairDiff/Constraints/RoundTrip.antt =====
-- A constraint that was written for a table is read back under the scope of that table
-- (app/services/fine_grained_policy.py and app/services/pair_diff.py).
use Prim.Native.Char.{Char}
use mathlib.Core.Bool.{true≢false}
use fabric_unified_permissio.Base.{
  string_eq, String, ◌<>◌, Bool, true, false, not, ◌≡◌, refl, [], ◌∷◌, sym, subst, arith, ap, ◌∙◌,
  if◌then◌else◌, keep,
}
use fabric_unified_permissio.Base.Scan.{is_word_char}
use fabric_unified_permissio.Base.Text.{
  all_chars-imp, nil_append, cons_append, append_empty, append_assoc, one_char, append-is_empty,
  is_empty, is_blank, strip, lstrip, rstrip_of, all_chars, split, split_from, join, lower,
}
use fabric_unified_permissio.FineGrained.Scope.{safe_identifier, TableParts, path_of}
use fabric_unified_permissio.PairDiff.Constraints.{
  skip_slashes, is_slash, is_root, of_segments, segments, scope_of_path, scope_from_table_path,
}

behind_char :
    (p : Char → Bool) (c : Char) (t : String)
    → is_empty t ≡ false
    → elim t [
      | String.[] ↦ if p c then "" else String.◌∷◌ c ""
      | String.◌∷◌ d r ↦ String.◌∷◌ c (String.◌∷◌ d r)
    ]
      ≡ String.◌∷◌ c t
behind_char p c String.[] h = absurd (true≢false h)
behind_char p c (String.◌∷◌ d r) h = refl

rstrip_step :
    (p : Char → Bool) (c : Char) (s : String)
    → p c ≡ false
    → elim s [
      | String.[] ↦ if p c then "" else String.◌∷◌ c ""
      | String.◌∷◌ d r ↦ String.◌∷◌ c (String.◌∷◌ d r)
    ]
      ≡ String.◌∷◌ c s
rstrip_step p c String.[] h = rw h refl
rstrip_step p c (String.◌∷◌ d r) h = refl

-- A text without the characters to strip stays as it is, also behind another text.
rstrip_clean :
    (p : Char → Bool) (s : String) → all_chars (λ c. not (p c)) s ≡ true → rstrip_of p s ≡ s
unfolding rstrip_of all_chars
rstrip_clean p String.[] h = refl
rstrip_clean p (String.◌∷◌ c s) h =
    rw (rstrip_clean p s (ground arith)) (rstrip_step p c s (ground arith))

behind_rest :
    (p : Char → Bool) (c : Char) (t r : String)
    → r ≡ t
    → is_empty t ≡ false
    → elim r [
      | String.[] ↦ if p c then "" else String.◌∷◌ c ""
      | String.◌∷◌ d u ↦ String.◌∷◌ c (String.◌∷◌ d u)
    ]
      ≡ String.◌∷◌ c t
behind_rest p c t r e h = rw e (behind_char p c t h)

rstrip_tail :
    (p : Char → Bool) (a b : String)
    → is_empty b ≡ false
    → all_chars (λ c. not (p c)) b ≡ true
    → rstrip_of p (a <> b) ≡ (a <> b)
unfolding rstrip_of
rstrip_tail p String.[] b h k =
    subst (λ x. rstrip_of p x ≡ x) (sym (nil_append b)) (rstrip_clean p b k)
rstrip_tail p (String.◌∷◌ c a) b h k =
    let full : is_empty (a <> b) ≡ false = append-is_empty a b ∙ rw h (ground arith) in
    subst (λ x. rstrip_of p x ≡ x) (sym (cons_append c a b))
      (behind_rest p c (a <> b) (rstrip_of p (a <> b)) (rstrip_tail p a b h k) full)

-- A character moves from the text that is read to the piece.
one_more :
    (piece : String) (c : Char) (s : String)
    → ((piece <> String.◌∷◌ c "") <> s) ≡ (piece <> String.◌∷◌ c s)
one_more piece c s =
    append_assoc piece (String.◌∷◌ c "") s
    ∙ ap (λ x. piece <> x) (cons_append c "" s ∙ ap (String.◌∷◌ c) (nil_append s))

abbrev no_slash : String → Bool
no_slash = all_chars (λ c. not (is_slash c))

-- A piece without slashes is the next segment.
split_piece :
    (s rest piece : String)
    → no_slash s ≡ true
    → split_from 47 (s <> String.◌∷◌ "/" rest) piece ≡ (piece <> s) ∷ split_from 47 rest ""
unfolding split_from all_chars
split_piece String.[] rest piece h =
    ap (λ x. split_from 47 x piece) (nil_append (String.◌∷◌ "/" rest))
    ∙ ap (λ x. x ∷ split_from 47 rest "") (sym (append_empty piece))
split_piece (String.◌∷◌ c s) rest piece h =
    let here : is_slash c ≡ false = ground arith in
    ap (λ x. split_from 47 x piece) (cons_append c s (String.◌∷◌ "/" rest))
    ∙ rw here (split_piece s rest (piece <> String.◌∷◌ c "") (ground arith))
    ∙ ap (λ x. x ∷ split_from 47 rest "") (one_more piece c s)

split_last : (s piece : String) → no_slash s ≡ true → split_from 47 s piece ≡ (piece <> s) ∷ []
unfolding split_from all_chars
split_last String.[] piece h = ap (λ x. x ∷ []) (sym (append_empty piece))
split_last (String.◌∷◌ c s) piece h =
    let here : is_slash c ≡ false = ground arith in
    (rw here (split_last s (piece <> String.◌∷◌ c "") (ground arith)))
    ∙ ap (λ x. x ∷ []) (one_more piece c s)

word_slash : (c : Char) → is_word_char c ≡ true → not (is_slash c) ≡ true
word_slash c h = ground arith

word_blank : (c : Char) → is_word_char c ≡ true → not (is_blank c) ≡ true
word_blank c h = ground arith

identifier_word : (s : String) → safe_identifier s ≡ true → all_chars is_word_char s ≡ true
unfolding safe_identifier all_chars
identifier_word String.[] h = absurd (true≢false (sym h))
identifier_word (String.◌∷◌ c s) h = ground arith

identifier_full : (s : String) → safe_identifier s ≡ true → is_empty s ≡ false
unfolding safe_identifier
identifier_full String.[] h = absurd (true≢false (sym h))
identifier_full (String.◌∷◌ c s) h = refl

module _ (schema table : String) (hs : safe_identifier schema ≡ true)
    (ht : safe_identifier table ≡ true) where
  abbrev tail_of : String
  tail_of = schema <> "/" <> table

  -- The path ends in the name of the table.
  grouped : (a : String) → (a <> tail_of) ≡ ((a <> (schema <> "/")) <> table)
  grouped a =
      ap (λ x. a <> x) (sym (append_assoc schema "/" table))
      ∙ sym (append_assoc a (schema <> "/") table)

  rstrip_path :
      (p : Char → Bool) (a : String)
      → ((c : Char) → is_word_char c ≡ true → not (p c) ≡ true)
      → rstrip_of p (a <> tail_of) ≡ (a <> tail_of)
  rstrip_path p a f =
      ap (rstrip_of p) (grouped a)
      ∙ rstrip_tail p (a <> (schema <> "/")) table (identifier_full table ht)
          (all_chars-imp is_word_char (λ c. not (p c)) f table (identifier_word table ht))
      ∙ sym (grouped a)

  opened : ("/Tables/" <> tail_of) ≡ String.◌∷◌ "/" (String.◌∷◌ "T" ("ables/" <> tail_of))
  opened =
      cons_append "/" "Tables/" tail_of ∙ ap (String.◌∷◌ "/") (cons_append "T" "ables/" tail_of)

  strip_path : strip ("/Tables/" <> tail_of) ≡ ("/Tables/" <> tail_of)
  unfolding strip lstrip
  strip_path =
      ap (λ x. rstrip_of is_blank (lstrip x)) opened
      ∙ ap (rstrip_of is_blank) (sym opened)
      ∙ rstrip_path is_blank "/Tables/" word_blank

  split_tail : split_from 47 tail_of "" ≡ schema ∷ table ∷ []
  split_tail =
      let clean : (s : String) → safe_identifier s ≡ true → no_slash s ≡ true = λ s h.
        all_chars-imp is_word_char (λ c. not (is_slash c)) word_slash s (identifier_word s h) in
      ap (λ x. split_from 47 (schema <> x) "") (one_char "/" table)
      ∙ split_piece schema table "" (clean schema hs)
      ∙ (rw (split_last table "" (clean table ht), nil_append schema, nil_append table) refl)

  split_path : split_from 47 ("Tables/" <> tail_of) "" ≡ "Tables" ∷ schema ∷ table ∷ []
  unfolding all_chars
  split_path =
      ap (λ x. split_from 47 x "")
        (append_assoc "Tables" "/" tail_of ∙ ap (λ x. "Tables" <> x) (one_char "/" tail_of))
      ∙ split_piece "Tables" tail_of "" refl
      ∙ ap (λ l. "Tables" ∷ l) split_tail

  segments_path : segments ("/Tables/" <> tail_of) ≡ "Tables" ∷ schema ∷ table ∷ []
  unfolding skip_slashes split
  segments_path =
      let start : skip_slashes ("/Tables/" <> tail_of) ≡ ("Tables/" <> tail_of) =
        ap skip_slashes opened ∙ sym (cons_append "T" "ables/" tail_of) in
      ap (λ x. keep (λ segment. not (is_empty segment)) (split 47 (rstrip_of is_slash x))) start
      ∙ ap (λ x. keep (λ segment. not (is_empty segment)) (split 47 x))
          (rstrip_path is_slash "Tables/" word_slash)
      ∙ ap (keep (λ segment. not (is_empty segment))) split_path
      ∙ (rw (identifier_full schema hs, identifier_full table ht) refl)

abbrev pub canonical_scope : String → TableParts → String
canonical_scope catalog t = "table:" <> catalog <> "." <> t.schema <> "." <> t.table

tables_segments :
    (catalog schema table : String)
    → of_segments catalog ("Tables" ∷ schema ∷ table ∷ [])
      ≡ ("table:" <> catalog <> "." <> schema <> "." <> table)
unfolding lower string_eq join
tables_segments catalog schema table = refl

-- The path of a table with a safe schema and name is read back as the scope of that table.
pub scope_from_table_path-path_of :
    (catalog : String) (t : TableParts)
    → safe_identifier t.schema ≡ true
    → safe_identifier t.table ≡ true
    → scope_from_table_path catalog (path_of t) ≡ canonical_scope catalog t
unfolding scope_from_table_path scope_of_path
scope_from_table_path-path_of catalog t hs ht =
    let path = path_of t in
    let not_root : is_root path ≡ false = ap is_root (opened t.schema t.table hs ht) in
    ap (λ c. if is_root c then "catalog:" <> catalog else of_segments catalog (segments c))
      (strip_path t.schema t.table hs ht)
    ∙ (rw (not_root, segments_path t.schema t.table hs ht)
        (tables_segments catalog t.schema t.table))
