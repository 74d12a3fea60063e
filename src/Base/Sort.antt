-- ===== src/Base/Sort.antt =====
-- Python's `sorted`, which keeps the order of equals.
use mathlib.Core.Bool.{Bool}
use mathlib.Core.List.{List, [], ◌∷◌}
use mathlib.Core.Path.{◌≡◌, refl}
use native.Mathlib.Omega.{arith}
use fabric_unified_permissio.Base.Equality.{if◌then◌else◌, if_rule}
use fabric_unified_permissio.Base.Lists.{All, count_of}

module _ {ℓ} {A : Type ℓ} (before : A → A → Bool) where
  insert_in : A → List A → List A
  insert_in x [] = x ∷ []
  insert_in x (y ∷ ys) = let rest = insert_in x ys in if before x y then x ∷ y ∷ ys else y ∷ rest

  unfoldable pub sorted : List A → List A
  unfolding insert_in
  sorted [] = []
  sorted (x ∷ xs) = insert_in x (sorted xs)

  All-insert_in {κ} :
      (P : A → Type κ) (x : A) (xs : List A) → P x → All P xs → All P (insert_in x xs)
  unfolding insert_in
  All-insert_in P x [] h g = (h, tt)
  All-insert_in P x (y ∷ ys) h (gy, g) =
      if_rule (All P) (before x y) (h, (gy, g)) (gy, All-insert_in P x ys h g)

  pub All-sorted {κ} : (P : A → Type κ) (xs : List A) → All P xs → All P (sorted xs)
  unfolding sorted
  All-sorted P [] h = tt
  All-sorted P (x ∷ xs) (hx, h) = All-insert_in P x (sorted xs) hx (All-sorted P xs h)

  count_of-insert_in :
      (p : A → Bool) (x : A) (xs : List A) → count_of p (insert_in x xs) ≡ count_of p (x ∷ xs)
  unfolding insert_in
  count_of-insert_in p x [] = refl
  count_of-insert_in p x (y ∷ ys) = ground (arith, count_of-insert_in p x ys)

  pub count_of-sorted : (p : A → Bool) (xs : List A) → count_of p (sorted xs) ≡ count_of p xs
  unfolding sorted
  count_of-sorted p [] = refl
  count_of-sorted p (x ∷ xs) =
      ground (arith, count_of-insert_in p x (sorted xs), count_of-sorted p xs)
