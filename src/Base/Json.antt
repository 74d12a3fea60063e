-- ===== src/Base/Json.antt =====
-- The values of `json` and `yaml`: what the program gets from services and reads by `.get`.
use Prim.Native.Nat.{ℕ, zero, suc}
use Prim.Native.String.{String}
use mathlib.Core.Bool.{Bool, true, false}
use mathlib.Core.List.{List, [], ◌∷◌}
use mathlib.Core.Option.{Option, none, some}
use mathlib.Core.Path.{◌≡◌, refl, ap}
use mathlib.Core.Logic.{◌≢◌}
use native.Mathlib.Omega.{arith}
use fabric_unified_permissio.Base.Equality.{◌==◌, string_eq, if◌then◌else◌}

mutual
  pub data Json : Type 0 where
    null : Json
    bool : Bool → Json
    num : ℕ → Json
    str : String → Json
    arr : Items → Json
    obj : Fields → Json

  pub data Items : Type 0 where
    nil : Items
    cons : Json → Items → Items

  pub data Fields : Type 0 where
    end : Fields
    field : String → Json → Fields → Fields

-- `d.get(k)`, with `null` for None, on a dict.
unfoldable pub get_field : String → Fields → Json
get_field k end = null
get_field k (field j v fs) = if k == j then v else get_field k fs

-- `bool(x)`
abbrev pub truthy : Json → Bool
truthy null = false
truthy (bool b) = b
truthy (num zero) = false
truthy (num (suc n)) = true
truthy (str String.[]) = false
truthy (str (String.◌∷◌ c s)) = true
truthy (arr nil) = false
truthy (arr (cons x xs)) = true
truthy (obj end) = false
truthy (obj (field k v fs)) = true

-- `x or y`
abbrev pub or_else : Json → Json → Json
or_else x y = if truthy x then x else y

-- The elements of an array, and none of any other value.
abbrev pub elements_of : Items → List Json
elements_of nil = []
elements_of (cons x xs) = x ∷ elements_of xs

abbrev pub elements : Json → List Json
elements (arr xs) = elements_of xs
elements _ = []

-- The fields of a dict, and none of any other value (`x if isinstance(x, dict) else {}`).
abbrev pub fields : Json → Fields
fields (obj fs) = fs
fields _ = end

abbrev pub is_dict : Json → Bool
is_dict (obj fs) = true
is_dict _ = false

abbrev pub is_list : Json → Bool
is_list (arr xs) = true
is_list _ = false

-- A text field read as `d.get(k) or ""`.
abbrev pub text_of : Json → String
text_of (str s) = s
text_of _ = ""

abbrev pub get : Json → String → Json
get j k = get_field k (fields j)

-- An identifier that may be missing.
abbrev pub text? : Json → Option String
text? (str s) = some s
text? _ = none

-- `[f(x) for x in xs]` as an array
abbrev pub array_of : List Json → Items
array_of [] = nil
array_of (x ∷ xs) = cons x (array_of xs)

-- `d[k] = v`: the place of a key that is there stays.
unfoldable pub set_field : String → Json → Fields → Fields
set_field k v end = field k v end
set_field k v (field j w fs) =
    let rest = set_field k v fs in if k == j then field j v fs else field j w rest

-- `d[k]`, where the key is there.
unfoldable pub field? : String → Fields → Option Json
field? k end = none
field? k (field j v fs) = let rest = field? k fs in if k == j then some v else rest

pub get_field-set_field : (k : String) (v : Json) (fs : Fields) → get_field k (set_field k v fs) ≡ v
unfolding get_field set_field
get_field-set_field k v end = ground arith
get_field-set_field k v (field j w fs) = ground (arith, get_field-set_field k v fs)

pub get_field-set_field_ne :
    (k j : String) (v : Json) (fs : Fields)
    → k ≢ j
    → get_field k (set_field j v fs) ≡ get_field k fs
unfolding get_field set_field
get_field-set_field_ne k j v end h = ground arith
get_field-set_field_ne k j v (field i w fs) h = ground (arith, get_field-set_field_ne k j v fs h)

pub elements-array_of : (xs : List Json) → elements_of (array_of xs) ≡ xs
elements-array_of [] = refl
elements-array_of (x ∷ xs) = ap (λ r. x ∷ r) (elements-array_of xs)
