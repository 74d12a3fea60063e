-- ===== src/Approvals.antt =====
-- app/services/approvals.py: the requests that wait for an approver, as the table that the program
-- keeps in SQLite. The keys of a request's rows are kept as the list that their JSON text holds.
pub mod Laws
use fabric_unified_permissio.Base.{ℕ, String, Bool, ◌&&◌, List, [], ◌∷◌, ◌++◌, Option, none, some}
use fabric_unified_permissio.Base.{◌==◌, string_eq, if◌then◌else◌, any_of, count_of}

pub record Approval : Type 0 where
  pub id : String
  pub pairing_id : String
  pub direction : String
  pub requested_by : String
  pub requested_at : ℕ
  pub status : String
  pub row_keys : List String
  pub note : String
  pub decided_by : Option String
  pub decided_at : Option ℕ

-- What `create_request` is called with.
pub record Wanted : Type 0 where
  pub pairing_id : String
  pub direction : String
  pub row_keys : List String
  pub requested_by : String
  pub note : String

abbrev pub requested : String → ℕ → Wanted → Approval
requested id now w = record {
  id = id;
  pairing_id = w.pairing_id;
  direction = w.direction;
  requested_by = w.requested_by;
  requested_at = now;
  status = "pending";
  row_keys = w.row_keys;
  note = w.note;
  decided_by = none;
  decided_at = none;
}

-- `id` is the first twelve digits of a `uuid4`.
unfoldable pub create_request : String → ℕ → Wanted → List Approval → List Approval
create_request id now w table = table ++ (requested id now w ∷ [])

-- `SELECT * FROM approvals WHERE id = ?`
unfoldable pub get : String → List Approval → Option Approval
get id [] = none
get id (a ∷ table) = let rest = get id table in if a.id == id then some a else rest

-- `WHERE id=? AND status='pending'`
abbrev pub decidable : String → Approval → Bool
decidable id a = a.id == id && a.status == "pending"

abbrev pub decided : Bool → String → ℕ → Approval → Approval
decided approved decided_by now a = record a {
  status = if approved then "approved" else "rejected";
  decided_by = some decided_by;
  decided_at = some now;
}

pub decide_rows : String → Bool → String → ℕ → List Approval → List Approval
decide_rows id approved by now [] = []
decide_rows id approved by now (a ∷ table) =
    (if decidable id a then decided approved by now a else a) ∷ decide_rows id approved by now table

-- `cur.rowcount > 0`, and the table.
pub decide : String → Bool → String → ℕ → List Approval → Bool × List Approval
unfolding decide_rows
decide id approved by now table =
    (any_of (decidable id) table, decide_rows id approved by now table)

pub mark_executed : String → List Approval → List Approval
mark_executed id [] = []
mark_executed id (a ∷ table) =
    (if a.id == id then record a { status = "executed" } else a) ∷ mark_executed id table

pub pending_count : List Approval → ℕ
pending_count table = count_of (λ a. a.status == "pending") table
