-- ===== src/Base/Scan.antt =====
-- The patterns of `re` that the program uses, as scans: a scan gives what is left of a text after
-- each way to match at its front, in the order in which the matcher tries them.
use Prim.Native.Char.{Char, code}
use Prim.Native.Nat.{ℕ}
use Prim.Native.String.{String, ◌++◌ as ◌<>◌}
use mathlib.Core.Bool.{Bool, ◌||◌}
use mathlib.Core.List.{List, [], ◌∷◌, ◌++◌, map}
use mathlib.Core.Option.{Option, none, some}
use fabric_unified_permissio.Base.Equality.{if◌then◌else◌, eqb}
use fabric_unified_permissio.Base.Text.{lower_char, is_empty, is_upper, is_lower, is_digit}

abbrev pub Scan : Type 0
Scan = String → List String

pub each {ℓ κ} : {A : Type ℓ} {B : Type κ} → (A → List B) → List A → List B
each f [] = []
each f (x ∷ xs) = f x ++ each f xs

-- One scan after the other.
unfoldable pub in_turn : List Scan → Scan
unfolding each
in_turn [] s = s ∷ []
in_turn (f ∷ fs) s = each (in_turn fs) (f s)

-- One character of a class.
unfoldable pub one : (Char → Bool) → Scan
one p String.[] = []
one p (String.◌∷◌ c s) = if p c then s ∷ [] else []

-- A text in lower case, under re.IGNORECASE.
unfoldable pub word : String → Scan
unfolding lower_char
word String.[] s = s ∷ []
word (String.◌∷◌ c w) String.[] = []
word (String.◌∷◌ c w) (String.◌∷◌ d s) =
    let rest = word w s in if eqb (code (lower_char d)) (code c) then rest else []

-- `p*`
unfoldable pub many : (Char → Bool) → Scan
many p String.[] = "" ∷ []
many p (String.◌∷◌ c s) =
    let rest = many p s in if p c then rest ++ (String.◌∷◌ c s ∷ []) else String.◌∷◌ c s ∷ []

-- `p+`
unfoldable pub some_of : (Char → Bool) → Scan
unfolding in_turn one many
some_of p = in_turn (one p ∷ many p ∷ [])

-- `(?:f)?`
unfoldable pub maybe : Scan → Scan
maybe f s = f s ++ (s ∷ [])

-- `$`, which lets one newline stand at the end.
unfoldable pub at_end : Scan
at_end String.[] = "" ∷ []
at_end (String.◌∷◌ c String.[]) = if eqb (code c) 10 then String.◌∷◌ c "" ∷ [] else []
at_end (String.◌∷◌ c (String.◌∷◌ d s)) = []

-- `.+?` under re.DOTALL
unfoldable pub any_lazy : Scan
any_lazy String.[] = []
any_lazy (String.◌∷◌ c s) = s ∷ any_lazy s

abbrev behind : Char → String × String → String × String
behind c (g, r) = (String.◌∷◌ c g, r)

-- `(.+?)` and `(.+)`: what is captured and what is left.
unfoldable pub lazily : String → List (String × String)
lazily String.[] = []
lazily (String.◌∷◌ c s) = (String.◌∷◌ c "", s) ∷ map (behind c) (lazily s)

unfoldable pub greedily : String → List (String × String)
greedily String.[] = []
greedily (String.◌∷◌ c s) = map (behind c) (greedily s) ++ ((String.◌∷◌ c "", s) ∷ [])

abbrev if_left : List String → String → List String
if_left [] g = []
if_left (r ∷ rs) g = g ∷ []

abbrev matched : List Scan → String × String → List String
matched fs (g, r) = if_left (in_turn fs r) g

abbrev head_of : List String → Option String
head_of [] = none
head_of (x ∷ xs) = some x

-- The group of a pattern that has scans before the group and after it.
unfoldable pub capture :
    List Scan → (String → List (String × String)) → List Scan → String → Option String
unfolding in_turn each
capture front splits back s = head_of (each (λ r. each (matched back) (splits r)) (in_turn front s))

abbrev pub is_char : ℕ → Char → Bool
is_char n c = eqb (code c) n

abbrev pub is_word_char : Char → Bool
is_word_char c = is_upper c || is_lower c || is_digit c || eqb (code c) b'_'

abbrev piece_of : String → List String
piece_of s = if is_empty s then [] else s ∷ []

-- The longest runs of characters of a class, with the run that is being read.
unfoldable pub runs : (Char → Bool) → String → String → List String
runs p String.[] piece = piece_of piece
runs p (String.◌∷◌ c s) piece =
    let more = runs p s (piece <> String.◌∷◌ c "") in
    let cut = runs p s "" in if p c then more else piece_of piece ++ cut
