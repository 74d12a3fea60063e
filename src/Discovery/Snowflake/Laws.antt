-- ===== src/Discovery/Snowflake/Laws.antt =====
-- What permission-sync/src/discovery/snowflake_discovery.py makes of accounts that fail.
use fabric_unified_permissio.Base.{◌≡◌, refl, String, Bool, true, false, List, [], ◌∷◌, arith, not}
use fabric_unified_permissio.Base.Json.{Json, Fields}
use fabric_unified_permissio.Base.Http.{Services}
use fabric_unified_permissio.Base.Outcome.{Outcome, ok, raised, is_ok}
use fabric_unified_permissio.Base.Text.{is_empty}
use fabric_unified_permissio.Canonical.{CanonicalPermission}
use fabric_unified_permissio.Discovery.Found.{Collect, for_each, unless, both}
use fabric_unified_permissio.Discovery.Snowflake.{
  Vault, SnowflakeDiscovery, Session, quiet, quiet_result, of_account, with_bundle,
  discover_account, accounts, discover_all, connected, connect_arguments, get_snowflake_auth,
  list_secret_names,
}

quiet_returns :
    {T : Type 0} (r : Outcome (List CanonicalPermission) × T) → is_ok (quiet_result r).0 ≡ true
quiet_returns (ok ps, t) = refl
quiet_returns (raised e, t) = refl

both_returns :
    {T : Type 0} (f g : Collect T)
    → ((t : T) → is_ok (f t).0 ≡ true)
    → ((t : T) → is_ok (g t).0 ≡ true)
    → (t : T) → is_ok (both f g t).0 ≡ true
unfolding both
both_returns f g h k t = ground (arith, h t, k (f t).1)

for_each_returns :
    {A T : Type 0} (f : A → Collect T)
    → ((a : A) (t : T) → is_ok (f a t).0 ≡ true)
    → (xs : List A) (t : T) → is_ok (for_each f xs t).0 ≡ true
unfolding for_each
for_each_returns f h [] t = refl
for_each_returns f h (x ∷ xs) t =
    both_returns (f x) (for_each f xs) (h x) (for_each_returns f h xs) t

for_each_nothing :
    {A T : Type 0} (f : A → Collect T) (t : T)
    → ((a : A) → f a t ≡ (ok [], t))
    → (xs : List A) → for_each f xs t ≡ (ok [], t)
unfolding for_each both
for_each_nothing f t h [] = refl
for_each_nothing f t h (x ∷ xs) = rw (h x) (rw (for_each_nothing f t h xs))

unless_returns :
    {T : Type 0} (b : Bool) (f : Collect T) (t : T)
    → is_ok (f t).0 ≡ true
    → is_ok (unless b f t).0 ≡ true
unfolding unless
unless_returns true f t h = refl
unless_returns false f t h = h

unless_nothing :
    {T : Type 0} (b : Bool) (f : Collect T) (t : T) → f t ≡ (ok [], t) → unless b f t ≡ (ok [], t)
unfolding unless
unless_nothing true f t h = refl
unless_nothing false f t h = h

module _ (S : Services) (v : Vault S) (d : SnowflakeDiscovery) where
  of_account_returns :
      (name : String) (t : Session S v d) → is_ok (of_account S v d name t).0 ≡ true
  unfolding of_account quiet
  of_account_returns name (c, s) =
      quiet_returns (with_bundle S v d (get_snowflake_auth S v d name s) (c, s))

  -- The discovery never raises, whatever Key Vault and the accounts do.
  pub discover_all_returns : (t : Session S v d) → is_ok (discover_all S v d t).0 ≡ true
  unfolding discover_all
  discover_all_returns (c, s) =
      unless_returns (is_empty d.prefix) _ (c, s)
        (for_each_returns (of_account S v d) of_account_returns
          (accounts S v d (list_secret_names S v d s)) (c, s))

  -- No account can be connected to.
  abbrev pub Unreachable : S.State → Type 0
  Unreachable s = (args : Fields) → is_ok (S.connect args s) ≡ false

  connected_fails :
      (r : Outcome (Unit {0})) (f : Collect (Session S v d)) (t : Session S v d)
      → is_ok r ≡ false
      → quiet_result (connected S v d r f t) ≡ (ok [], t)
  unfolding connected
  connected_fails (ok u) f t h = cc
  connected_fails (raised e) f t h = refl

  quiet_unless :
      (b : Bool) (f : Collect (Session S v d)) (t : Session S v d)
      → quiet_result (f t) ≡ (ok [], t)
      → quiet_result (unless b f t) ≡ (ok [], t)
  unfolding unless
  quiet_unless true f t h = refl
  quiet_unless false f t h = h

  with_bundle_fails :
      (r : Outcome Json) (t : Session S v d)
      → Unreachable t.1
      → quiet_result (with_bundle S v d r t) ≡ (ok [], t)
  unfolding with_bundle discover_account
  with_bundle_fails (raised e) t h = refl
  with_bundle_fails (ok bundle) (c, s) h =
      quiet_unless (not S.has_connector) _ (c, s)
        (connected_fails (S.connect (connect_arguments bundle) s) _ (c, s)
          (h (connect_arguments bundle)))

  of_account_fails :
      (name : String) (t : Session S v d) → Unreachable t.1 → of_account S v d name t ≡ (ok [], t)
  unfolding of_account quiet
  of_account_fails name (c, s) h = with_bundle_fails (get_snowflake_auth S v d name s) (c, s) h

  pub discover_all-Unreachable :
      (t : Session S v d) → Unreachable t.1 → discover_all S v d t ≡ (ok [], t)
  unfolding discover_all
  discover_all-Unreachable (c, s) h =
      unless_nothing (is_empty d.prefix) _ (c, s)
        (for_each_nothing (of_account S v d) (c, s) (λ name. of_account_fails name (c, s) h)
          (accounts S v d (list_secret_names S v d s)))
