-- ===== src/PairApply/Clients/Laws.antt =====
-- What the steps of `apply_rows` in app/services/pair_apply.py add and leave as it is.
use fabric_unified_permissio.Base.{String, Bool, ◌≡◌, refl, length}
use fabric_unified_permissio.Base.Outcome.{Outcome, ok, raised}
use fabric_unified_permissio.Base.Http.{Services}
use fabric_unified_permissio.PairApply.Layers.{ApplyAction}
use fabric_unified_permissio.PairApply.DataRoles.{Verdict}
use fabric_unified_permissio.PairApply.Clients.{
  Attempt, done, refused, escaped, Tried, Hub, Step, of_verdict, of_tried, shown,
}
use fabric_unified_permissio.IdentityQueue.{Queue}

module _ (S : Services) where
  -- A step that returns adds one action.
  abbrev pub One : Step S → Type 0
  One (ok xs, h) = length xs ≡ 1
  One (raised e, h) = Unit

  -- A step leaves the services and the queue as they were.
  abbrev pub Still : Hub S → Step S → Type 0
  Still h st = st.1 ≡ h

  pub of_verdict-One :
      (f : Verdict → ApplyAction) (q : Queue) (o : Outcome Verdict × S.State)
      → One (of_verdict S f q o)
  of_verdict-One f q (ok v, s) = refl
  of_verdict-One f q (raised e, s) = tt

  pub of_tried-One :
      (f : Tried → ApplyAction) (q : Queue) (o : Outcome Tried × S.State) → One (of_tried S f q o)
  of_tried-One f q (ok v, s) = refl
  of_tried-One f q (raised e, s) = tt

  module _ {ℓ} {A : Type ℓ} (act : Bool → String → ApplyAction) (f : A → String) where
    pub shown-One : (m : Attempt A) (h : Hub S) → One (shown S act f m h)
    shown-One (done a) h = refl
    shown-One (refused e) h = refl
    shown-One (escaped e) h = tt

    pub shown-Still : (m : Attempt A) (h : Hub S) → Still h (shown S act f m h)
    shown-Still (done a) h = refl
    shown-Still (refused e) h = refl
    shown-Still (escaped e) h = refl
