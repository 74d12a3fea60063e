-- ===== src/DbxClient.antt =====
-- What app/services/databricks_rest.py reads of Unity Catalog. A request that fails in transport is
-- made four times; to the same state of the services it has the same answer each time, so that one
-- request stands for them.
pub mod Laws
use fabric_unified_permissio.Base.{
  ℕ, zero, suc, String, ◌<>◌, ◌&&◌, ◌||◌, List, [], ◌∷◌, ◌++◌, if◌then◌else◌, leb, eqb,
}
use fabric_unified_permissio.Base.Json.{
  Json, str, num, Fields, end, field, get, text_of, truthy, elements,
}
use fabric_unified_permissio.Base.Http.{Services, Response, reply, failed}
use fabric_unified_permissio.Base.Outcome.{Outcome, ok, raised, ◌>>=◌}

-- The decoded body, an HTTPStatusError, or an error of transport.
pub data Answer : Type 0 where
  body : Json → Answer
  status : ℕ → String → Answer
  lost : String → Answer

abbrev pub answer : Response → Answer
answer (reply code text j) = if leb 200 code && leb code 299 then body j else status code text
answer (failed e) = lost e

abbrev pub outcome_of : Answer → Outcome Json
outcome_of (body j) = ok j
outcome_of (status code text) = raised text
outcome_of (lost e) = raised e

abbrev listed : String → Answer → Outcome (List Json)
listed key (body j) = ok (elements (get j key))
listed key (status code text) = raised text
listed key (lost e) = raised e

-- What is granted on a securable that is not there reads as nothing.
abbrev grants_in : Answer → Outcome (List Json)
grants_in (status code text) = if eqb code 404 then ok [] else raised text
grants_in a = listed "privilege_assignments" a

abbrev page_params : String → Fields
page_params String.[] = end
page_params (String.◌∷◌ c s) = field "page_token" (str (String.◌∷◌ c s)) end

-- One page of policies: the last one, or the next with its token.
policies_page :
    List Json → Answer → (List Json → String → Outcome (List Json)) → Outcome (List Json)
policies_page out (body j) next =
    let found = out ++ elements (get j "policies") in
    if truthy (get j "next_page_token")
    then next found (text_of (get j "next_page_token"))
    else ok found
policies_page out (status code text) next =
    if eqb code 400 || (eqb code 404 || eqb code 501) then ok out else raised text
policies_page out (lost e) next = raised e

module _ (S : Services) (url : String) (s : S.State) where
  unfoldable pub ask : String → Fields → Answer
  ask path params = answer (S.fetch (url <> path) params s)

  unfoldable pub list_schemas : String → Outcome (List Json)
  unfolding ask
  list_schemas catalog =
      listed "schemas"
        (ask "/api/2.1/unity-catalog/schemas" (field "catalog_name" (str catalog) end))

  unfoldable pub list_tables : String → String → Outcome (List Json)
  unfolding ask
  list_tables catalog schema = listed "tables" (
      ask "/api/2.1/unity-catalog/tables" (
        field "catalog_name" (str catalog)
          (field "schema_name" (str schema) (field "max_results" (num 1000) end))))

  unfoldable pub get_table : String → Answer
  unfolding ask
  get_table full_name = ask ("/api/2.1/unity-catalog/tables/" <> full_name) end

  unfoldable pub get_function : String → Answer
  unfolding ask
  get_function full_name = ask ("/api/2.1/unity-catalog/functions/" <> full_name) end

  unfoldable pub get_grants : String → String → Outcome (List Json)
  unfolding ask
  get_grants securable_type full_name =
      grants_in
        (ask ("/api/2.1/unity-catalog/permissions/" <> securable_type <> "/" <> full_name) end)

  -- `for _ in range(50)`: the pages that are left.
  unfoldable pub policies_from : ℕ → String → List Json → String → Outcome (List Json)
  unfolding policies_page ask
  policies_from zero path out token = ok out
  policies_from (suc pages) path out token =
      policies_page out (ask path (page_params token)) (policies_from pages path)

  -- `list_policies`, without inherited ones.
  unfoldable pub list_policies : String → String → Outcome (List Json)
  list_policies securable_type full_name =
      policies_from 50 ("/api/2.1/unity-catalog/policies/" <> securable_type <> "/" <> full_name) []
        ""
