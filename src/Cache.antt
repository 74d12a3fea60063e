-- ===== src/Cache.antt =====
-- app/services/cache.py: the store of values with the time at which they expire. Times are in whole
-- seconds; the lock makes each operation one step.
pub mod Laws
use Prim.Native.Nat.{ℕ}
use fabric_unified_permissio.Base.{String, ◌+◌, Bool, false, [], ◌∷◌, Option, none, some}
use fabric_unified_permissio.Base.{◌==◌, string_eq, if◌then◌else◌, ltb, length}
use fabric_unified_permissio.Base.Dict.{Dict, lookup, insert, erase}
use fabric_unified_permissio.Base.Text.{is_empty, starts_with}

-- The time of expiry and the value.
abbrev pub Store {ℓ} : Type ℓ → Type ℓ
Store A = Dict String (ℕ × A)

module _ {ℓ} {A : Type ℓ} where
  abbrev pub fresh_value : ℕ → Option (ℕ × A) → Option A
  fresh_value now none = none
  fresh_value now (some (expires_at, v)) = if ltb expires_at now then none else some v

  abbrev pub is_expired : ℕ → Option (ℕ × A) → Bool
  is_expired now none = false
  is_expired now (some (expires_at, v)) = ltb expires_at now

  -- What `get` returns and what it leaves: an expired entry is taken out.
  unfoldable pub get : String → ℕ → Store A → Option A × Store A
  get key now store =
      let rec = lookup key store in
      (fresh_value now rec, if is_expired now rec then erase key store else store)

  pub set : String → A → ℕ → ℕ → Store A → Store A
  set key value ttl now store = insert key (now + ttl, value) store

  pub drop_prefix : String → Store A → Store A
  unfolding starts_with
  drop_prefix prefix [] = []
  drop_prefix prefix ((k, r) ∷ store) =
      let rest = drop_prefix prefix store in if starts_with prefix k then rest else (k, r) ∷ rest

  pub count_prefix : String → Store A → ℕ
  unfolding starts_with
  count_prefix prefix [] = 0
  count_prefix prefix ((k, r) ∷ store) =
      let rest = count_prefix prefix store in if starts_with prefix k then 1 + rest else rest

  -- How many entries went, and what is left.
  pub invalidate : String → Store A → ℕ × Store A
  unfolding drop_prefix count_prefix
  invalidate prefix store =
      if is_empty prefix
      then (length store, [])
      else (count_prefix prefix store, drop_prefix prefix store)

  abbrev or_computed : Option A → A → String → ℕ → ℕ → Store A → A × Store A
  or_computed (some v) made key ttl now store = (v, store)
  or_computed none made key ttl now store = (made, set key made ttl now store)

  -- `made` is what the factory would give; it is only kept where nothing fresh is there.
  pub cached : String → A → ℕ → ℕ → Store A → A × Store A
  unfolding get set
  cached key made ttl now store =
      or_computed (get key now store).0 made key ttl now (get key now store).1
