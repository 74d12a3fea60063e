-- ===== src/Discovery/Fabric/Paging.antt =====
-- `_paged` of permission-sync/src/discovery/fabric_discovery.py: the pages of a listing, which the
-- service chains by continuation. The loop takes fuel, one unit for each page: a service that
-- always gives another page keeps the program in the loop.
use Prim.Native.Nat.{ℕ, zero, suc, ◌≤◌, ◌<◌}
use fabric_unified_permissio.Base.{
  ◌≡◌, refl, String, Bool, true, false, ◌&&◌, List, [], ◌∷◌, ◌++◌, Option, none, some, arith,
}
use fabric_unified_permissio.Base.{if◌then◌else◌, Bool-cases, inl, inr}
use fabric_unified_permissio.Base.Json.{Json, end, get, text_of, truthy, elements}
use fabric_unified_permissio.Base.Http.{Services}
use fabric_unified_permissio.Base.Outcome.{Outcome, ok, raised}
use fabric_unified_permissio.Base.Text.{is_empty}
use fabric_unified_permissio.OneSync.{ok_body}

-- A call that returns or raises, or has run out of fuel.
abbrev pub Run : Type 0 → Type 0
Run A = Option (Outcome A)

unfoldable pub bind : {A B : Type 0} → Run A → (A → Run B) → Run B
bind none f = none
bind (some (raised e)) f = some (raised e)
bind (some (ok a)) f = f a

-- `except httpx.HTTPError: return []`
unfoldable pub catch : {A : Type 0} → Run (List A) → Run (List A)
catch none = none
catch (some (raised e)) = some (ok [])
catch (some (ok xs)) = some (ok xs)

-- `if skipped: continue`
unfoldable pub unless_run : {A : Type 0} → Bool → Run (List A) → Run (List A)
unless_run true f = some (ok [])
unless_run false f = f

-- `for x in xs: out.extend(f(x))`
unfoldable pub each_run : {A B : Type 0} → (A → Run (List B)) → List A → Run (List B)
unfolding bind
each_run f [] = some (ok [])
each_run f (x ∷ xs) = bind (f x) λ here. bind (each_run f xs) λ more. some (ok (here ++ more))

-- The address of the next page, blank if there is none.
abbrev pub next_url : Json → String
next_url body =
    if truthy (get body "continuationToken") && truthy (get body "continuationUri")
    then text_of (get body "continuationUri")
    else ""

abbrev pub values_of : Json → List Json
values_of body = elements (get body "value")

-- `while next_url`: this page, and what the others hold.
page : Outcome Json → (String → Run (List Json)) → Run (List Json)
unfolding bind
page (raised e) next = some (raised e)
page (ok body) next =
    if is_empty (next_url body)
    then some (ok (values_of body))
    else bind (next (next_url body)) λ more. some (ok (values_of body ++ more))

module _ (S : Services) (s : S.State) where
  -- `list(self._paged(url))`
  unfoldable pub paged : ℕ → String → Run (List Json)
  unfolding page
  paged zero url = none
  paged (suc fuel) url = page (ok_body (S.fetch url end s)) (paged fuel)

-- From some fuel on, the call ends, and always in the same way.
abbrev pub Settled : {A : Type 0} → ℕ → (ℕ → Run A) → Type 0
Settled {A} k f = (r : Outcome A) × ((n : ℕ) → k ≤ n → f n ≡ some r)

bind_at :
    {A B : Type 0} (k : ℕ) (r : Outcome A) (f : ℕ → Run A) (g : ℕ → A → Run B)
    → ((n : ℕ) → k ≤ n → f n ≡ some r)
    → ((a : A) → Settled k (λ n. g n a))
    → Settled k (λ n. bind (f n) (g n))
unfolding bind
bind_at k (raised e) f g h next = (raised e, λ n m. rw (h n m))
bind_at k (ok a) f g h next = ((next a).0, λ n m. rw (h n m) ((next a).1 n m))

pub bind-Settled :
    {A B : Type 0} (k : ℕ) (f : ℕ → Run A) (g : ℕ → A → Run B)
    → Settled k f
    → ((a : A) → Settled k (λ n. g n a))
    → Settled k (λ n. bind (f n) (g n))
bind-Settled k f g h next = bind_at k h.0 f g h.1 next

catch_at :
    {A : Type 0} (k : ℕ) (r : Outcome (List A)) (f : ℕ → Run (List A))
    → ((n : ℕ) → k ≤ n → f n ≡ some r)
    → Settled k (λ n. catch (f n))
unfolding catch
catch_at k (raised e) f h = (ok [], λ n m. rw (h n m))
catch_at k (ok xs) f h = (ok xs, λ n m. rw (h n m))

pub catch-Settled :
    {A : Type 0} (k : ℕ) (f : ℕ → Run (List A)) → Settled k f → Settled k (λ n. catch (f n))
catch-Settled k f h = catch_at k h.0 f h.1

pub each_run-Settled :
    {A B : Type 0} (k : ℕ) (f : ℕ → A → Run (List B))
    → ((a : A) → Settled k (λ n. f n a))
    → (xs : List A) → Settled k (λ n. each_run (f n) xs)
unfolding each_run
each_run-Settled k f h [] = (ok [], λ n m. refl)
each_run-Settled k f h (x ∷ xs) =
    bind-Settled k (λ n. f n x)
      (λ n here. bind (each_run (f n) xs) λ more. some (ok (here ++ more))) (h x)
      (λ here.
        bind-Settled k (λ n. each_run (f n) xs) (λ n more. some (ok (here ++ more)))
          (each_run-Settled k f h xs) (λ more. (ok (here ++ more), λ n m. refl)))

pub unless_run-Settled :
    {A : Type 0} (k : ℕ) (b : Bool) (f : ℕ → Run (List A))
    → Settled k f
    → Settled k (λ n. unless_run b (f n))
unfolding unless_run
unless_run-Settled k true f h = (ok [], λ n m. refl)
unless_run-Settled k false f h = h

page-Settled :
    (k : ℕ) (r : Outcome Json) (f : ℕ → String → Run (List Json))
    → ((body : Json)
        → r ≡ ok body
        → is_empty (next_url body) ≡ false
        → Settled k (λ n. f n (next_url body)))
    → Settled k (λ n. page r (f n))
unfolding page
page-Settled k (raised e) f h = (raised e, λ n m. refl)
page-Settled k (ok body) f h = elim (Bool-cases (is_empty (next_url body))) [
  | inl e ↦ (ok (values_of body), λ n m. rw e)
  | inr e ↦
      let q =
        bind-Settled k (λ n. f n (next_url body)) (λ n more. some (ok (values_of body ++ more)))
          (h body refl e) (λ more. (ok (values_of body ++ more), λ n m. refl)) in
      (q.0, λ n m. rw e (q.1 n m))
]

-- No listing has more than `k` pages: on every address stands how many more pages its listing
-- has, and the address of the next page has fewer.
pub record FinitePages (S : Services) (s : S.State) (k : ℕ) : Type 0 where
  pub pages_left : String → ℕ
  pub bounded : (url : String) → pages_left url < k
  pub falls :
      (url : String) (body : Json)
      → ok_body (S.fetch url end s) ≡ ok body
      → is_empty (next_url body) ≡ false
      → pages_left (next_url body) < pages_left url

from_suc : (P : ℕ → Type 0) (j : ℕ) → ((n : ℕ) → j ≤ n → P (suc n)) → (n : ℕ) → suc j ≤ n → P n
from_suc P j h zero m = elim m [ ]
from_suc P j h (suc n) m = h n (omega arith)

module _ (S : Services) (s : S.State) (k : ℕ) (finite : FinitePages S s k) where
  paged_within :
      (fuel : ℕ) (url : String) → finite.pages_left url < fuel → Settled fuel (λ n. paged S s n url)
  unfolding paged
  paged_within zero url h = elim h [ ]
  paged_within (suc fuel) url h =
      let rest = page-Settled fuel (ok_body (S.fetch url end s)) (paged S s) (λ body e more.
        paged_within fuel (next_url body) (let f = finite.falls url body e more in omega arith)) in
      (rest.0, from_suc (λ n. paged S s n url ≡ some rest.0) fuel rest.1)

  -- `_paged` ends once it has fuel for every page, and more fuel changes nothing.
  pub paged-Settled : (url : String) → Settled k (λ n. paged S s n url)
  paged-Settled url = paged_within k url (finite.bounded url)
