-- ===== src/Cache/Laws.antt =====
-- What the cache answers after an invalidation (app/services/cache.py).
use Prim.Native.Nat.{ℕ}
use mathlib.Core.Bool.{true≢false}
use fabric_unified_permissio.Base.{
  ◌≢◌, ==_ne, String, true, false, ◌≡◌, refl, sym, [], ◌∷◌, none, if_rule, if_true, if_false,
  Bool-cases, inl, inr, ◌==◌, string_eq, ap, ◌∙◌,
}
use fabric_unified_permissio.Base.Dict.{lookup}
use fabric_unified_permissio.Base.Text.{is_empty, starts_with}
use fabric_unified_permissio.Cache.{Store, fresh_value, get, drop_prefix, invalidate}

apart :
    (key prefix k : String) → starts_with prefix k ≡ false → starts_with prefix key ≡ true → key ≢ k
apart key prefix k e h same = true≢false (sym h ∙ ap (starts_with prefix) same ∙ e)

module _ {ℓ} {A : Type ℓ} (key prefix : String) where
  abbrev Gone : Store A → Type ℓ
  Gone store = lookup key store ≡ none

  lookup-drop_prefix :
      starts_with prefix key ≡ true
      → (store : Store A) → lookup key (drop_prefix prefix store) ≡ none
  unfolding drop_prefix lookup
  lookup-drop_prefix h [] = refl
  lookup-drop_prefix h ((k, r) ∷ store) =
      let rest = lookup-drop_prefix h store in
      elim (Bool-cases (starts_with prefix k)) [
        | inl e ↦ if_true Gone (starts_with prefix k) _ e rest
        | inr e ↦
            if_false Gone (starts_with prefix k) _ e (
              let other : (key == k) ≡ false = ==_ne key k (apart key prefix k e h) in
              rw other rest)
      ]

  -- After the invalidation of a prefix no key with it is answered from the cache, at any time.
  pub get-invalidate :
      (store : Store A) (now : ℕ)
      → starts_with prefix key ≡ true
      → (get key now (invalidate prefix store).1).0 ≡ none
  unfolding get invalidate lookup
  get-invalidate store now h =
      if_rule {A = ℕ × Store A} (λ st. fresh_value now (lookup key st.1) ≡ none) (is_empty prefix)
        refl (ap (fresh_value now) (lookup-drop_prefix h store))
