-- ===== src/DbxClient/Laws.antt =====
-- The pages of app/services/databricks_rest.py.
use fabric_unified_permissio.Base.{
  ℕ, zero, suc, ◌+◌, ◌*◌, ◌≤◌, String, List, [], length, length-append, arith, if_rule, ◌||◌, eqb,
  ◌++◌,
}
use fabric_unified_permissio.Base.Json.{Json, Fields, get, elements, truthy, text_of}
use fabric_unified_permissio.Base.Http.{Services}
use fabric_unified_permissio.Base.Outcome.{Outcome, Ensures, Ensures-imp}
use fabric_unified_permissio.DbxClient.{
  Answer, body, status, lost, ask, policies_page, policies_from, list_policies,
}

-- No more than so many policies stand in an answer.
abbrev pub AtMost : ℕ → Answer → Type 0
AtMost m (body j) = length (elements (get j "policies")) ≤ m
AtMost m _ = Unit

page_bound :
    (m n : ℕ) (out : List Json) (a : Answer) (next : List Json → String → Outcome (List Json))
    → AtMost m a
    → ((found : List Json) (token : String)
        → Ensures (λ ps. length ps ≤ length found + n * m) (next found token))
    → Ensures (λ ps. length ps ≤ length out + suc n * m) (policies_page out a next)
unfolding policies_page
page_bound m n out (lost e) next h k = tt
page_bound m n out (status code text) next h k =
    if_rule {A = Outcome (List Json)} (Ensures (λ ps. length ps ≤ length out + suc n * m))
      (eqb code 400 || (eqb code 404 || eqb code 501)) (omega arith) tt
page_bound m n out (body j) next h k =
    let found = out ++ elements (get j "policies") in
    let size = length-append out (elements (get j "policies")) in
    if_rule {A = Outcome (List Json)} (Ensures (λ ps. length ps ≤ length out + suc n * m))
      (truthy (get j "next_page_token"))
      (Ensures-imp (λ ps. length ps ≤ length found + n * m) _ (next found _)
        (λ ps g. grind (arith, size)) (k found (text_of (get j "next_page_token"))))
      (grind (arith, size))

module _ (S : Services) (url : String) (s : S.State) (m : ℕ)
    (paged : (path : String) (params : Fields) → AtMost m (ask S url s path params)) where
  policies_from_bound :
      (pages : ℕ) (path : String) (out : List Json) (token : String)
      → Ensures
          (λ ps. length ps ≤ length out + pages * m)
          (policies_from S url s pages path out token)
  unfolding policies_from
  policies_from_bound zero path out token = omega arith
  policies_from_bound (suc pages) path out token =
      page_bound m pages out _ (policies_from S url s pages path) (paged path _)
        (policies_from_bound pages path)

  -- A listing of policies ends after fifty pages: where a page holds at most `m` policies, at most
  -- 50 * m are returned, however many pages the service has.
  pub list_policies_bound :
      (securable_type full_name : String)
      → Ensures (λ ps. length ps ≤ 50 * m) (list_policies S url s securable_type full_name)
  unfolding list_policies
  list_policies_bound securable_type full_name =
      Ensures-imp (λ ps. length ps ≤ 0 + 50 * m) _ _ (λ ps h. omega arith)
        (policies_from_bound 50 _ [] "")
