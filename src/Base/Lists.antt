-- ===== src/Base/Lists.antt =====
-- Lists measured by native numbers, membership tests and predicates by recursion.
use Prim.Native.Nat.{ℕ, zero, suc, ◌+◌, ◌≤◌}
use mathlib.Core.Path.{◌≡◌, refl, sym, ap, ◌∙◌}
use mathlib.Core.Bool.{Bool, true, false, not, ◌||◌, ◌&&◌}
use mathlib.Core.List.{List, [], ◌∷◌, ◌++◌, map}
use mathlib.Core.Option.{Option, none, some}
use native.Mathlib.Omega.{arith}
use fabric_unified_permissio.Base.Equality.{Eq, ◌==◌, if◌then◌else◌, if_rule, Bool-cases}
use mathlib.Core.Logic.{inl, inr}

module _ {ℓ} {A : Type ℓ} where
  abbrev pub length : List A → ℕ
  length [] = 0
  length (x ∷ xs) = suc (length xs)

  abbrev pub get_elem? : List A → ℕ → Option A
  get_elem? [] i = none
  get_elem? (x ∷ xs) zero = some x
  get_elem? (x ∷ xs) (suc i) = get_elem? xs i

  abbrev pub take : ℕ → List A → List A
  take zero xs = []
  take (suc n) [] = []
  take (suc n) (x ∷ xs) = x ∷ take n xs

  pub length-append : (xs ys : List A) → length (xs ++ ys) ≡ length xs + length ys
  length-append [] ys = omega arith
  length-append (x ∷ xs) ys = omega (arith, length-append xs ys)

  -- `[x for x in xs if p(x)]`
  abbrev pub keep : (A → Bool) → List A → List A
  keep p [] = []
  keep p (x ∷ xs) = let rest = keep p xs in if p x then x ∷ rest else rest

  -- `any(p(x) for x in xs)`
  abbrev pub any_of : (A → Bool) → List A → Bool
  any_of p [] = false
  any_of p (x ∷ xs) = p x || any_of p xs

  -- `all(p(x) for x in xs)`
  abbrev pub all_of : (A → Bool) → List A → Bool
  all_of p [] = true
  all_of p (x ∷ xs) = p x && all_of p xs

  -- `sum(1 for x in xs if p(x))`
  abbrev pub count_of : (A → Bool) → List A → ℕ
  count_of p [] = 0
  count_of p (x ∷ xs) = if p x then suc (count_of p xs) else count_of p xs

  -- `P` holds at every element.
  abbrev pub All {κ} : (A → Type κ) → List A → Type κ
  All P [] = Unit
  All P (x ∷ xs) = P x × All P xs

module _ {ℓ} {A : Type ℓ} ⦃e : Eq A⦄ where
  -- `a in xs`
  abbrev pub contains : List A → A → Bool
  contains [] a = false
  contains (x ∷ xs) a = a == x || contains xs a

module _ {ℓ} {A : Type ℓ} where
  pub All-append {κ} : (P : A → Type κ) (xs ys : List A) → All P xs → All P ys → All P (xs ++ ys)
  All-append P [] ys hx hy = hy
  All-append P (x ∷ xs) ys hx hy = (hx.0, All-append P xs ys hx.1 hy)

module _ {ℓ} {A : Type ℓ} ⦃e : Eq A⦄ where
  pub contains-append :
      (xs ys : List A) (a : A) → contains (xs ++ ys) a ≡ (contains xs a || contains ys a)
  contains-append [] ys a = refl
  contains-append (x ∷ xs) ys a = ground (arith, contains-append xs ys a)

module _ {ℓ} {A : Type ℓ} where
  -- What holds of every element stays so by implication.
  pub All-imp {κ μ} :
      (P : A → Type κ) (Q : A → Type μ) (xs : List A) → ((a : A) → P a → Q a) → All P xs → All Q xs
  All-imp P Q [] f h = tt
  All-imp P Q (x ∷ xs) f (hx, h) = (f x hx, All-imp P Q xs f h)

  kept_if {κ} :
      (Q : A → Type κ) (b : Bool) (x : A) (xs : List A)
      → (b ≡ true → Q x)
      → All Q xs
      → All Q (if b then x ∷ xs else xs)
  kept_if Q true x xs hx h = (hx refl, h)
  kept_if Q false x xs hx h = h

  -- Every element that is kept passes the test.
  pub All-keep {κ} :
      (P : A → Type κ) (p : A → Bool) (xs : List A)
      → All P xs
      → All (λ a. P a × (p a ≡ true)) (keep p xs)
  All-keep P p [] h = tt
  All-keep P p (x ∷ xs) (hx, h) =
      kept_if (λ a. P a × (p a ≡ true)) (p x) x (keep p xs) (λ e. (hx, e)) (All-keep P p xs h)

module _ {ℓ} {A : Type ℓ} ⦃e : Eq A⦄ where
  contains_one :
      (p : A → Bool) (a x : A) (rest whole : Bool)
      → rest ≡ (whole && p a)
      → (if p x then a == x || rest else rest) ≡ ((a == x || whole) && p a)
  contains_one p a x rest whole h = elim (Bool-cases (a == x)) [
    | inl s ↦ (let same : a ≡ x = ground arith in rw (h, s) (rw (sym same) (ground arith)))
    | inr d ↦ rw (h, d) (ground arith)
  ]

  contains_if :
      (b : Bool) (a x : A) (xs : List A)
      → contains (if b then x ∷ xs else xs) a
        ≡ (if b then a == x || contains xs a else contains xs a)
  contains_if true a x xs = refl
  contains_if false a x xs = refl

  -- The list holds what it held and what passes the test.
  pub contains-keep :
      (p : A → Bool) (a : A) (xs : List A) → contains (keep p xs) a ≡ (contains xs a && p a)
  contains-keep p a [] = refl
  contains-keep p a (x ∷ xs) =
      contains_if (p x) a x (keep p xs)
      ∙ contains_one p a x (contains (keep p xs) a) (contains xs a) (contains-keep p a xs)

  -- No element of a list fails a test that all of it passes.
  pub all_of-contains :
      (p : A → Bool) (a : A) (xs : List A)
      → all_of p xs ≡ true
      → (contains xs a && not (p a)) ≡ false
  all_of-contains p a [] h = refl
  all_of-contains p a (x ∷ xs) h =
      let rest = all_of-contains p a xs (ground arith) in
      elim (Bool-cases (a == x)) [
        | inl s ↦ (let same : a ≡ x = ground arith in rw same (ground arith))
        | inr d ↦ rw d rest
      ]

pub length-take : {A : Type 0} (n : ℕ) (xs : List A) → length (take n xs) ≤ n
length-take zero xs = omega arith
length-take (suc n) [] = omega arith
length-take (suc n) (x ∷ xs) = grind (arith, length-take n xs)

pub length-keep : {A : Type 0} (p : A → Bool) (xs : List A) → length (keep p xs) ≤ length xs
length-keep p [] = omega arith
length-keep {A = A} p (x ∷ xs) =
    let rest = length-keep p xs in
    if_rule {A = List A} (λ ys. length ys ≤ suc (length xs)) (p x) {x = x ∷ keep p xs}
      {y = keep p xs} (omega arith) (omega arith)

pub length-map : {A B : Type 0} (f : A → B) (xs : List A) → length (map f xs) ≡ length xs
length-map f [] = refl
length-map f (x ∷ xs) = ap suc (length-map f xs)

-- A list holds each of its elements.
pub contains_self : {A : Type 0} ⦃e : Eq A⦄ (xs : List A) → All (λ a. contains xs a ≡ true) xs
contains_self [] = tt
contains_self (x ∷ xs) = (
  ground arith,
  All-imp (λ a. contains xs a ≡ true) (λ a. contains (x ∷ xs) a ≡ true) xs (λ a h. ground arith)
      (contains_self xs),
)

pub All-before : {A : Type 0} (P : A → Type 0) (xs ys : List A) → All P (xs ++ ys) → All P xs
All-before P [] ys h = tt
All-before P (x ∷ xs) ys h = (h.0, All-before P xs ys h.1)

pub All-after : {A : Type 0} (P : A → Type 0) (xs ys : List A) → All P (xs ++ ys) → All P ys
All-after P [] ys h = h
All-after P (x ∷ xs) ys h = All-after P xs ys h.1
