-- ===== src/Base/Text.antt =====
-- The methods of Python's `str` that the program uses, over ASCII letters and blanks.
use Prim.Native.Nat.{ℕ, zero, suc, ◌-◌, ◌/◌, ◌%◌}
use Prim.Native.Char.{Char, code}
use Prim.Native.String.{String, ◌++◌ as ◌<>◌}
use Prim.Native.String.append
use mathlib.Core.Bool.{Bool, true, false, ◌&&◌, ◌||◌}
use native.Mathlib.Omega.{arith}
use mathlib.Core.List.{List, [], ◌∷◌}
use mathlib.Core.Path.{◌≡◌, refl, sym, ap, ◌∙◌}
use fabric_unified_permissio.Base.Equality.{if◌then◌else◌, ltb, leb, eqb}

-- The character at a place of a text, or the given one past its end.
char_of : String → ℕ → Char → Char
char_of String.[] i c = c
char_of (String.◌∷◌ d s) zero c = d
char_of (String.◌∷◌ d s) (suc i) c = char_of s i c

unfoldable pub lower_char : Char → Char
unfolding char_of
lower_char c =
    if leb 65 (code c) && leb (code c) 90
    then char_of "abcdefghijklmnopqrstuvwxyz" (code c - 65) c
    else c

upper_char : Char → Char
upper_char c =
    if leb 97 (code c) && leb (code c) 122
    then char_of "ABCDEFGHIJKLMNOPQRSTUVWXYZ" (code c - 97) c
    else c

-- `s.lower()`
unfoldable pub lower : String → String
unfolding lower_char char_of
lower String.[] = ""
lower (String.◌∷◌ c s) = String.◌∷◌ (lower_char c) (lower s)

-- `s.upper()`
unfoldable pub upper : String → String
unfolding upper_char char_of
upper String.[] = ""
upper (String.◌∷◌ c s) = String.◌∷◌ (upper_char c) (upper s)

-- The blanks beyond ASCII.
abbrev is_wide_blank : ℕ → Bool
is_wide_blank n =
    eqb n 133
    || eqb n 160
    || eqb n 5760
    || (leb 8192 n && leb n 8202)
    || eqb n 8232
    || eqb n 8233
    || eqb n 8239
    || eqb n 8287
    || eqb n 12288

-- `c.isspace()`, which is also `\s`.
abbrev pub is_blank : Char → Bool
is_blank c =
    eqb (code c) 32
    || (leb 9 (code c) && leb (code c) 13)
    || (leb 28 (code c) && leb (code c) 31)
    || (leb 133 (code c) && is_wide_blank (code c))

-- `s.lstrip()`
unfoldable pub lstrip : String → String
lstrip String.[] = ""
lstrip (String.◌∷◌ c s) = let rest = lstrip s in if is_blank c then rest else String.◌∷◌ c s

-- `s.rstrip(chars)`: a character goes if it may and nothing is left behind it.
unfoldable pub rstrip_of : (Char → Bool) → String → String
rstrip_of p String.[] = ""
rstrip_of p (String.◌∷◌ c s) = elim (rstrip_of p s) [
  | String.[] ↦ if p c then "" else String.◌∷◌ c ""
  | String.◌∷◌ d r ↦ String.◌∷◌ c (String.◌∷◌ d r)
]

-- `s.strip()`
unfoldable pub strip : String → String
unfolding lstrip rstrip_of
strip s = rstrip_of is_blank (lstrip s)

-- `s.rstrip("/")`
unfoldable pub rstrip_slash : String → String
unfolding rstrip_of
rstrip_slash = rstrip_of (λ c. eqb (code c) b'/')

-- Every character of the text passes the test.
unfoldable pub all_chars : (Char → Bool) → String → Bool
all_chars p String.[] = true
all_chars p (String.◌∷◌ c s) = p c && all_chars p s

-- `chr in s`
unfoldable pub has_char : ℕ → String → Bool
has_char n String.[] = false
has_char n (String.◌∷◌ c s) = eqb (code c) n || has_char n s

-- `s.split(sep)` for a one-character separator, with the piece that is being read.
unfoldable pub split_from : ℕ → String → String → List String
split_from n String.[] piece = piece ∷ []
split_from n (String.◌∷◌ c s) piece =
    let more = split_from n s "" in
    let same = split_from n s (piece <> String.◌∷◌ c "") in
    if eqb (code c) n then piece ∷ more else same

unfoldable pub split : ℕ → String → List String
unfolding split_from
split n s = split_from n s ""

-- What stands before the first separator of `s.partition(sep)`, and what stands after it.
unfoldable pub before : ℕ → String → String
before n String.[] = ""
before n (String.◌∷◌ c s) =
    let rest = before n s in if eqb (code c) n then "" else String.◌∷◌ c rest

unfoldable pub after : ℕ → String → String
after n String.[] = ""
after n (String.◌∷◌ c s) = let rest = after n s in if eqb (code c) n then s else rest

-- `sep.join(parts)`
unfoldable pub join : String → List String → String
join sep [] = ""
join sep (x ∷ []) = x
join sep (x ∷ y ∷ r) = x <> sep <> join sep (y ∷ r)

abbrev pub is_upper : Char → Bool
is_upper c = leb 65 (code c) && leb (code c) 90

abbrev pub is_lower : Char → Bool
is_lower c = leb 97 (code c) && leb (code c) 122

abbrev pub is_digit : Char → Bool
is_digit c = leb 48 (code c) && leb (code c) 57

-- `not s`
abbrev pub is_empty : String → Bool
is_empty String.[] = true
is_empty (String.◌∷◌ c s) = false

lower-strip_test : lower (strip "  Ab C ") ≡ "ab c"
unfolding lower strip
lower-strip_test = refl

split_test : split b'.' "a.b..c" ≡ "a" ∷ "b" ∷ "" ∷ "c" ∷ []
unfolding split
split_test = refl

rstrip_slash_test : rstrip_slash "https://h//" ≡ "https://h"
unfolding rstrip_slash
rstrip_slash_test = refl

-- `s[:n]`
unfoldable pub first : ℕ → String → String
first zero s = ""
first (suc n) String.[] = ""
first (suc n) (String.◌∷◌ c s) = String.◌∷◌ c (first n s)

-- `s.startswith(prefix)`
unfoldable pub starts_with : String → String → Bool
starts_with String.[] s = true
starts_with (String.◌∷◌ c p) String.[] = false
starts_with (String.◌∷◌ c p) (String.◌∷◌ d s) = eqb (code c) (code d) && starts_with p s

-- `t in s`
unfoldable pub has_text : String → String → Bool
unfolding starts_with
has_text t String.[] = is_empty t
has_text t (String.◌∷◌ c s) = starts_with t (String.◌∷◌ c s) || has_text t s

-- `s.replace(chr, t)`
pub replace_char : ℕ → String → String → String
replace_char n t String.[] = ""
replace_char n t (String.◌∷◌ c s) =
    let rest = replace_char n t s in if eqb (code c) n then t <> rest else String.◌∷◌ c rest

-- The characters of a text that pass the test.
pub keep_chars : (Char → Bool) → String → String
keep_chars p String.[] = ""
keep_chars p (String.◌∷◌ c s) = let rest = keep_chars p s in if p c then String.◌∷◌ c rest else rest

-- `len(s)`
unfoldable pub text_length : String → ℕ
text_length String.[] = 0
text_length (String.◌∷◌ c s) = suc (text_length s)

drop_chars : ℕ → String → String
drop_chars zero s = s
drop_chars (suc n) String.[] = ""
drop_chars (suc n) (String.◌∷◌ c s) = drop_chars n s

digits_of : ℕ → ℕ → String → String
unfolding drop_chars first
digits_of zero n done = done
digits_of (suc fuel) n done =
    let more = digits_of fuel (n / 10) in
    let shown = first 1 (drop_chars (n % 10) "0123456789") <> done in
    if ltb n 10 then shown else more shown

-- A number in an f-string; it has at most as many digits as its value plus one.
pub decimal : ℕ → String
unfolding digits_of
decimal n = digits_of (suc n) n ""

decimal_test : decimal 409 ≡ "409"
unfolding decimal
decimal_test = refl

-- `s <= t`, by code points.
pub text_leb : String → String → Bool
text_leb String.[] t = true
text_leb (String.◌∷◌ c s) String.[] = false
text_leb (String.◌∷◌ c s) (String.◌∷◌ d t) =
    let rest = text_leb s t in if eqb (code c) (code d) then rest else ltb (code c) (code d)

pub append-is_empty : (s t : String) → is_empty (s <> t) ≡ (is_empty s && is_empty t)
append-is_empty String.[] t = λ i. is_empty (append.nil t i)
append-is_empty (String.◌∷◌ c s) t = λ i. is_empty (append.cons c s t i)

pub nil_append : (t : String) → ("" <> t) ≡ t
nil_append t = λ i. append.nil t i

pub cons_append : (c : Char) (s t : String) → (String.◌∷◌ c s <> t) ≡ String.◌∷◌ c (s <> t)
cons_append c s t = λ i. append.cons c s t i

pub append_empty : (s : String) → (s <> "") ≡ s
append_empty String.[] = nil_append ""
append_empty (String.◌∷◌ c s) = cons_append c s "" ∙ ap (String.◌∷◌ c) (append_empty s)

pub append_assoc : (s t u : String) → ((s <> t) <> u) ≡ (s <> (t <> u))
append_assoc String.[] t u = ap (λ x. x <> u) (nil_append t) ∙ sym (nil_append (t <> u))
append_assoc (String.◌∷◌ c s) t u =
    ap (λ x. x <> u) (cons_append c s t)
    ∙ cons_append c (s <> t) u
    ∙ ap (String.◌∷◌ c) (append_assoc s t u)
    ∙ sym (cons_append c s (t <> u))

pub one_char : (c : Char) (s : String) → (String.◌∷◌ c "" <> s) ≡ String.◌∷◌ c s
one_char c s = cons_append c "" s ∙ ap (String.◌∷◌ c) (nil_append s)

pub all_chars-imp :
    (p q : Char → Bool)
    → ((c : Char) → p c ≡ true → q c ≡ true)
    → (s : String) → all_chars p s ≡ true
    → all_chars q s ≡ true
unfolding all_chars
all_chars-imp p q f String.[] h = refl
all_chars-imp p q f (String.◌∷◌ c s) h =
    let here = f c (ground arith) in let rest = all_chars-imp p q f s (ground arith) in ground arith
