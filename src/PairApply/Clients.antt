-- ===== src/PairApply/Clients.antt =====
-- What `apply_rows` of app/services/pair_apply.py calls and changes, and the steps it is made of.
pub mod Laws
use fabric_unified_permissio.Base.{
  ℕ, String, ◌<>◌, Bool, true, false, ◌&&◌, ◌||◌, List, [], ◌∷◌, ◌++◌,
}
use fabric_unified_permissio.Base.{Option, ◌==◌, string_eq, if◌then◌else◌}
use fabric_unified_permissio.Base.Json.{Json}
use fabric_unified_permissio.Base.Outcome.{Outcome, ok, raised}
use fabric_unified_permissio.Base.Http.{Services}
use fabric_unified_permissio.Base.Text.{is_empty}
use fabric_unified_permissio.PairApply.Layers.{ApplyAction, UcGrant}
use fabric_unified_permissio.PairApply.DataRoles.{Verdict}
use fabric_unified_permissio.PairDiff.{DiffRow}
use fabric_unified_permissio.IdentityQueue.{Queue}

pub record Pairing : Type 0 where
  pub id : Option String
  pub label : String
  pub dbx_workspace_url : String
  pub uc_catalog : String
  pub fabric_workspace_id : String

-- A call that may raise one of the exceptions that the caller handles, or another one.
pub data Attempt {ℓ} (A : Type ℓ) : Type ℓ where
  done : A → Attempt A
  refused : String → Attempt A
  escaped : String → Attempt A

-- `(ok, skipped, message)`
pub record Tried : Type 0 where
  pub ok : Bool
  pub skipped : Bool
  pub message : String

-- What the dry run of a constraint shows of its translation.
pub record Translation : Type 0 where
  pub table_path : String
  pub note : String

-- An update of grants: done, refused with a status, or with a ValueError; any other exception is
-- not handled.
pub data GrantReply : Type 0 where
  updated : GrantReply
  status_error : ℕ → String → GrantReply
  value_error : String → GrantReply
  other_error : String → GrantReply

-- The clients and the translator of constraints that `apply_rows` calls. A list, a translation and
-- the statements for Unity Catalog only read.
pub record Clients (S : Services) : Type 0 where
  -- `fabric_rest.list_items(workspace_id)`
  pub list_items : String → S.State → Outcome (List Json)
  -- `DatabricksUCClient(url).update_grants(type, name, [{"principal": ..., "add": ...}])`
  pub update_grants : String → UcGrant → String → S.State → GrantReply × S.State
  -- `_fabric_constraint_translation(pairing, row)`
  pub constraint_translation : Pairing → DiffRow → S.State → Attempt Translation
  -- `_fabric_constraint_uc_sql(pairing, row)`
  pub constraint_uc_sql : Pairing → DiffRow → S.State → Attempt (List String)
  -- `_grant_fabric_constraint(pairing, row, item_id)`
  pub grant_fabric_constraint : Pairing → DiffRow → String → S.State → Outcome Tried × S.State
  -- `_grant_uc_constraint(pairing, row)`
  pub grant_uc_constraint : Pairing → DiffRow → S.State → Outcome Tried × S.State

abbrev pub action_of : String → DiffRow → String → String → Bool → Bool → String → ApplyAction
action_of direction row target layer b skip message = record {
  direction = direction;
  principal = row.principal_display;
  securable_scope = row.securable_scope;
  access_class = row.access_class;
  target_action = target;
  layer = layer;
  ok = b;
  skipped = skip;
  message = message;
}

-- `f"; {note}"`, if there is one.
abbrev pub noted : String → String
noted note = if is_empty note then "" else "; " <> note

abbrev pub refusal : String
refusal = "skipped: no exact Fabric mirrored catalog item match; refusing workspace-role fallback"

module _ (S : Services) where
  -- What an apply may change: the services and the identity queue.
  pub record Hub : Type 0 where
    pub services : S.State
    pub queue : Queue

  -- The actions that one row adds to the report, at most one.
  abbrev pub Step : Type 0
  Step = Outcome (List ApplyAction) × Hub

  abbrev pub adds : ApplyAction → Hub → Step
  adds a h = (ok (a ∷ []), h)

  abbrev pub of_verdict : (Verdict → ApplyAction) → Queue → Outcome Verdict × S.State → Step
  of_verdict f q (ok v, s) = (ok (f v ∷ []), record { services = s; queue = q })
  of_verdict f q (raised e, s) = (raised e, record { services = s; queue = q })

  abbrev pub of_tried : (Tried → ApplyAction) → Queue → Outcome Tried × S.State → Step
  of_tried f q (ok v, s) = (ok (f v ∷ []), record { services = s; queue = q })
  of_tried f q (raised e, s) = (raised e, record { services = s; queue = q })

  -- The dry run of a constraint.
  abbrev pub shown {ℓ} :
      {A : Type ℓ} → (Bool → String → ApplyAction) → (A → String) → Attempt A → Hub → Step
  shown act f (done a) h = adds (act false (f a)) h
  shown act f (refused e) h = adds (act true ("would skip: " <> e)) h
  shown act f (escaped e) h = (raised e, h)
