-- ===== src/Web/Route.antt =====
-- The whole of `apply_view` of app/routers/pairings.py: its fields are validated, the pairing is looked
-- up, and Web.Apply does the rest.
pub mod Laws
use fabric_unified_permissio.Base.{String, List, [], ◌∷◌, Option, none, some, ◌==◌, string_eq}
use fabric_unified_permissio.Base.Http.{Services}
use fabric_unified_permissio.Base.Outcome.{Outcome, ok, raised, ◌>>=◌}
use fabric_unified_permissio.Base.Text.{lower}
use fabric_unified_permissio.PairApply.Clients.{Clients}
use fabric_unified_permissio.PairApply.DataRoles.Write.{Identity}
use fabric_unified_permissio.Pairings.{Stored, get_pairing, pairing_of}
use fabric_unified_permissio.Web.Apply.{Call, Env, View, Site, Collectors, live_diff, apply_view}
use fabric_unified_permissio.Web.Validation.{require_pairing_id, require_choice}

-- The fields as they are posted.
pub record Form : Type 0 where
  pub pairing_id : String
  pub direction : String
  pub dry_run : String
  pub row : List String
  pub approval_id : String
  pub client_host : String

pub data Answer : Type 0 where
  -- A 400 with its detail.
  bad_request : String → Answer
  -- The redirect to the start page.
  home : Answer
  view : Outcome View → Answer

-- The fields that passed.
pub record Valid : Type 0 where
  pub pairing_id : String
  pub direction : String
  pub dry_run : String

pub validated : Form → Outcome Valid
unfolding lower
validated f = do
  id ← require_pairing_id f.pairing_id
  direction ← require_choice f.direction ("dbx_to_fabric" ∷ "fabric_to_dbx" ∷ []) "direction"
  dry_run ← require_choice (lower f.dry_run) ("true" ∷ "false" ∷ []) "dry_run"
  ok (record { pairing_id = id; direction = direction; dry_run = dry_run })

-- `walk` is the order in which Python walks the set of a list.
abbrev pub call_of : (List String → List String) → Form → Valid → Stored → Call
call_of walk f v p = record {
  pairing_id = v.pairing_id;
  pairing = pairing_of p;
  direction = v.direction;
  dry_run = v.dry_run == "true";
  selected = walk f.row;
  approval_id = f.approval_id;
  client_host = f.client_host;
}

module _ (S : Services) (i : Identity) (C : Clients S) (K : Collectors S) (e : Env)
    (walk : List String → List String) (f : Form) where
  pub with_pairing : Valid → Option Stored → Site S → Answer × Site S
  unfolding apply_view
  with_pairing v none t = (home, t)
  with_pairing v (some p) t =
      let st =
        apply_view S i C e (call_of walk f v p) (ok (live_diff S K (pairing_of p) t.hub.services))
          t in
      (view st.0, st.1)

  pub with_valid : List Stored → Outcome Valid → Site S → Answer × Site S
  unfolding with_pairing get_pairing
  with_valid pairings (raised detail) t = (bad_request detail, t)
  with_valid pairings (ok v) t = with_pairing v (get_pairing v.pairing_id pairings) t

  -- `compute_diff` does not raise here: it keeps the exceptions of both sides in its result.
  pub apply_route : List Stored → Site S → Answer × Site S
  unfolding with_valid validated
  apply_route pairings t = with_valid pairings (validated f) t
