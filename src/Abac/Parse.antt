-- ===== src/Abac/Parse.antt =====
-- `parse_tag_condition` of app/services/abac_resolver.py: from the text of a condition to its meaning.
use Prim.Native.Char.{Char, code}
use Prim.Native.Nat.{zero, suc}
use fabric_unified_permissio.Base.{
  String, ℕ, ◌<>◌, ◌-◌, Bool, true, false, not, ◌&&◌, ◌||◌, List, [], ◌∷◌, ◌++◌, Option, none, some,
}
use fabric_unified_permissio.Base.{◌==◌, string_eq, if◌then◌else◌, eqb, any_of}
use fabric_unified_permissio.Base.Dict.{Dict}
use fabric_unified_permissio.Base.Outcome.{Outcome, ok, raised}
use fabric_unified_permissio.Base.Scan.{is_word_char, word}
use fabric_unified_permissio.Base.Text.{
  is_empty, strip, lstrip, lower, has_char, before, after as text_after, text_length, starts_with,
  is_digit,
}
use fabric_unified_permissio.Abac.Condition.{
  Test, has_tag, has_tag_value, Expr, Token, call, and_word, or_word, open_paren, close_paren,
  evaluate,
}
use fabric_unified_permissio.Abac.Condition.{fresh, Reader, reading, after, odd, closed, read_all}

abbrev expect : ℕ → String → Option String
expect n String.[] = none
expect n (String.◌∷◌ c s) = if eqb (code c) n then some s else none

-- What a call of a tag function is in the text, and the text behind it.
pub record Found : Type 0 where
  pub key : String
  pub value : Option String
  pub rest : String

-- `'[^']*'`
abbrev in_quotes : Option String → Option (String × String)
in_quotes none = none
in_quotes (some s) = if has_char 39 s then some (before 39 s, text_after 39 s) else none

abbrev quoted : String → Option (String × String)
quoted s = in_quotes (expect 39 (lstrip s))

abbrev closing : String → Option String → Option String → Option Found
closing k v none = none
closing k v (some rest) = some (record { key = k; value = v; rest = rest })

abbrev with_value : String → Option (String × String) → Option Found
with_value k none = none
with_value k (some (v, s)) = closing k (some v) (expect b')' (lstrip s))

abbrev second : String → Option String → String → Option Found
second k none s = closing k none (expect b')' s)
second k (some behind_comma) s = with_value k (quoted behind_comma)

abbrev first_arg : Option (String × String) → Option Found
first_arg none = none
first_arg (some (k, s)) = second k (expect b',' (lstrip s)) (lstrip s)

abbrev arguments : Option String → Option Found
arguments none = none
arguments (some s) = first_arg (quoted s)

abbrev called : List String → Option Found
called [] = none
called (s ∷ more) = arguments (expect b'(' (lstrip s))

abbrev value_or_blank : Option String → String
value_or_blank none = ""
value_or_blank (some v) = v

abbrev test_of : Bool → Found → Test × String
test_of false f = (has_tag (lower (strip f.key)), f.rest)
test_of true f = (has_tag_value (lower (strip f.key)) (value_or_blank f.value), f.rest)

abbrev or_try : Bool → Option Found → Option (Test × String) → Option (Test × String)
or_try valued none more = more
or_try valued (some f) more = some (test_of valued f)

-- `_FUNC_RE` at the front of a text.
pub match_call : String → Option (Test × String)
unfolding word strip lstrip lower has_char before text_after
match_call s = or_try true (called (word "has_tag_value" s)) (
    or_try true (called (word "hastagvalue" s))
      (or_try false (called (word "has_tag" s)) (or_try false (called (word "hastag" s)) none)))

-- A piece of the text: a token, one that only Python reads, or one that is not allowed.
pub data Piece : Type 0 where
  token : Token → Piece
  other : Piece
  stray : Piece

-- Nothing is left of a run of word characters but digits, `and` and `or`.
all_gone : String → ℕ → Bool
unfolding starts_with
all_gone String.[] n = true
all_gone (String.◌∷◌ c s) (suc n) = all_gone s n
all_gone (String.◌∷◌ c s) zero =
    let digit = all_gone s 0 in
    let and_rest = all_gone s 2 in
    let or_rest = all_gone s 1 in
    if is_digit c
    then digit
    else if starts_with "and" (String.◌∷◌ c s)
    then and_rest
    else starts_with "or" (String.◌∷◌ c s) && or_rest

-- A run, which may stand directly before a call.
run_piece : String → Bool → List Piece
unfolding all_gone lower
run_piece run glued =
    if is_empty run
    then []
    else if not (all_gone (lower run) 0)
    then stray ∷ []
    else if glued
    then other ∷ []
    else if lower run == "and"
    then token and_word ∷ []
    else if lower run == "or"
    then token or_word ∷ []
    else other ∷ []

-- A character that is in no word. Python's own reader decides on line breaks and NUL.
abbrev char_piece : Char → List Piece
char_piece c =
    if eqb (code c) 32 || eqb (code c) 9 || eqb (code c) 12
    then []
    else if eqb (code c) b'('
    then token open_paren ∷ []
    else if eqb (code c) b')'
    then token close_paren ∷ []
    else if eqb (code c) 10 || eqb (code c) 11 || eqb (code c) 13 || eqb (code c) 0
    then other ∷ []
    else stray ∷ []

-- The pieces of a text, with the number of characters that the last call still covers and the run
-- that is being read.
pub pieces : String → ℕ → String → List Piece
unfolding match_call run_piece text_length
pieces String.[] n run = run_piece run false
pieces (String.◌∷◌ c s) (suc n) run = pieces s n ""
pieces (String.◌∷◌ c s) zero run =
    let more = pieces s 0 (run <> String.◌∷◌ c "") in
    let next = pieces s 0 "" in
    elim (match_call (String.◌∷◌ c s)) [
      | some (t, rest) ↦
          run_piece run true ++ (token (call t) ∷ pieces s (text_length s - text_length rest) "")
      | none ↦ if is_word_char c then more else run_piece run false ++ (char_piece c ++ next)
    ]

abbrev is_stray : Piece → Bool
is_stray stray = true
is_stray _ = false

abbrev is_other : Piece → Bool
is_other other = true
is_other _ = false

abbrev tokens_of : List Piece → List Token
tokens_of [] = []
tokens_of (token t ∷ ps) = t ∷ tokens_of ps
tokens_of (p ∷ ps) = tokens_of ps

-- Not more than `room` parentheses are open at a time.
abbrev nests_within : ℕ → List Token → Bool
nests_within room [] = true
nests_within zero (open_paren ∷ ts) = false
nests_within (suc room) (open_paren ∷ ts) = nests_within room ts
nests_within room (close_paren ∷ ts) = nests_within (suc room) ts
nests_within room (t ∷ ts) = nests_within room ts

-- A condition: always true, an expression, or a text that Python itself has to compile.
pub data Parsed : Type 0 where
  always : Parsed
  expression : Expr → Parsed
  python : Parsed
  unsupported : Parsed

abbrev finished : Reader → Parsed
finished (after f e []) = expression (closed f e)
finished odd = python
finished _ = unsupported

-- Python refuses an expression whose parentheses nest too deep: what it does from a hundred on is left
-- to it.
abbrev pub of_pieces : List Piece → Parsed
of_pieces ps =
    if any_of is_stray ps
    then unsupported
    else if any_of is_other ps
    then python
    else if not (nests_within 100 (tokens_of ps))
    then python
    else finished (read_all (reading fresh []) (tokens_of ps))

unfoldable pub parse_text : String → Parsed
unfolding pieces strip
parse_text text = if is_empty (strip text) then always else of_pieces (pieces (strip text) 0 "")

-- `compile` and `eval` of Python, for the texts that are no expression of the conditions' grammar:
-- none is a SyntaxError.
pub record Python : Type 0 where
  pub compile : String → Option (Dict String String → Outcome Bool)

pub record TagCondition : Type 0 where
  pub predicate : Dict String String → Outcome Bool
  pub source : String

abbrev of_python : String → Option (Dict String String → Outcome Bool) → Outcome TagCondition
of_python text none = raised "unsupported tag condition syntax"
of_python text (some f) = ok (record { predicate = f; source = text })

abbrev pub condition_of : Python → String → Parsed → Outcome TagCondition
condition_of py text always = ok (record { predicate = λ tags. ok true; source = "TRUE" })
condition_of py text (expression e) =
    ok (record { predicate = λ tags. ok (evaluate e tags); source = text })
condition_of py text python = of_python text (py.compile text)
condition_of py text unsupported = raised "unsupported tag condition syntax"

unfoldable pub parse_tag_condition : Python → String → Outcome TagCondition
unfolding parse_text
parse_tag_condition py text = condition_of py (strip text) (parse_text text)
