-- ===== src/Base/Outcome.antt =====
-- Python calls that return or raise, and methods that change a state and may raise: what was
-- written before a raise stays written.
use Prim.Native.String.{String}
use mathlib.Core.Bool.{Bool, true, false}
use mathlib.Core.Path.{◌≡◌, refl}

pub data Outcome {ℓ} (A : Type ℓ) : Type ℓ where
  ok : A → Outcome A
  raised : String → Outcome A

infixl 5 ◌>>=◌
abbrev pub ◌>>=◌ {ℓ κ} : {A : Type ℓ} {B : Type κ} → Outcome A → (A → Outcome B) → Outcome B
ok a >>= f = f a
raised e >>= f = raised e

-- The next statement of a method, over the state that the last one left.
abbrev pub and_then {ℓ κ μ} :
    {T : Type ℓ} {A : Type κ} {B : Type μ} → Outcome A × T → (A → T → Outcome B × T) → Outcome B × T
and_then (ok a, t) f = f a t
and_then (raised e, t) f = (raised e, t)

-- If the call returns, its value meets the condition.
abbrev pub Ensures {ℓ κ} : {A : Type ℓ} → (A → Type κ) → Outcome A → Type κ
Ensures P (ok a) = P a
Ensures P (raised e) = Unit

pub Ensures-bind {ℓ κ μ ν} :
    {A : Type ℓ} {B : Type κ} (Q : A → Type μ) (P : B → Type ν) (m : Outcome A) (f : A → Outcome B)
    → Ensures Q m
    → ((a : A) → Q a → Ensures P (f a))
    → Ensures P (m >>= f)
Ensures-bind Q P (ok a) f h g = g a h
Ensures-bind Q P (raised e) f h g = tt

abbrev pub is_ok {ℓ} : {A : Type ℓ} → Outcome A → Bool
is_ok (ok a) = true
is_ok (raised x) = false

-- What holds of every value of the last statement holds of the whole.
pub Ensures-last {ℓ κ ν} :
    {A : Type ℓ} {B : Type κ} (P : B → Type ν) (m : Outcome A) (f : A → Outcome B)
    → ((a : A) → Ensures P (f a))
    → Ensures P (m >>= f)
Ensures-last P (ok a) f g = g a
Ensures-last P (raised e) f g = tt

pub Ensures-self {ℓ} : {A : Type ℓ} (m : Outcome A) → Ensures (λ a. m ≡ ok a) m
Ensures-self (ok a) = refl
Ensures-self (raised e) = tt

pub Ensures-imp {ℓ κ μ} :
    {A : Type ℓ} (P : A → Type κ) (Q : A → Type μ) (m : Outcome A)
    → ((a : A) → P a → Q a)
    → Ensures P m
    → Ensures Q m
Ensures-imp P Q (ok a) f h = f a h
Ensures-imp P Q (raised e) f h = tt
