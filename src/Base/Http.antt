-- ===== src/Base/Http.antt =====
-- The services outside the program, as a parameter: their state is unknown, a read answers from
-- it, and a request that is no GET, or a statement of SQL, may change it. Signing requests and
-- fetching tokens belong to the services. A call that fails in transport is an `httpx.HTTPError`.
use Prim.Native.Nat.{ℕ}
use Prim.Native.String.{String}
use mathlib.Core.Bool.{Bool}
use mathlib.Core.List.{List}
use fabric_unified_permissio.Base.Json.{Json, Fields}
use fabric_unified_permissio.Base.Outcome.{Outcome}

pub data Method : Type 0 where
  post put patch delete : Method

pub record Request : Type 0 where
  pub method : Method
  pub url : String
  pub body : Json

-- A reply with its status, its text and its decoded body, or an `httpx.HTTPError`.
pub data Response : Type 0 where
  reply : ℕ → String → Json → Response
  failed : String → Response

pub record Services : Type 1 where
  pub State : Type 0
  -- `httpx.get(url, params=...)`
  pub fetch : String → Fields → State → Response
  -- `httpx.post`, `put`, `patch` and `delete`
  pub send : Request → State → Response × State
  -- `identity.get_secret(name)`
  pub secret : String → State → Outcome String
  -- Whether `snowflake.connector` can be imported.
  pub has_connector : Bool
  -- `snowflake.connector.connect(**params)`
  pub connect : Fields → State → Outcome (Unit {0})
  -- `cur.execute(sql)`, with the rows of `cur.fetchall()`
  pub run_sql : String → State → Outcome (List (List String)) × State
