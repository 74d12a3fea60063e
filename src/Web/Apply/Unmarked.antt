-- ===== src/Web/Apply/Unmarked.antt =====
-- An approval that could not be marked as executed (app/routers/pairings.py): the exception of
-- `approvals.mark_executed` is passed over.
use fabric_unified_permissio.Base.{String, ◌≡◌, List}
use fabric_unified_permissio.Base.Http.{Services}
use fabric_unified_permissio.Base.Outcome.{Outcome}
use fabric_unified_permissio.Approvals.{Approval}
use fabric_unified_permissio.PairApply.Clients.{Clients}
use fabric_unified_permissio.PairApply.DataRoles.Write.{Identity}
use fabric_unified_permissio.Web.Apply.{Env, View, Site}

module _ (S : Services) (i : Identity) (C : Clients S) (e : Env) (x : String) where
  abbrev Stays : List Approval → Outcome View × Site S → Type 0
  Stays table st = st.1.approvals ≡ table
