-- ===== src/PairDiff/Compare.antt =====
-- `compute_diff` of app/services/pair_diff.py, on the rows that the two sides were collected into.
pub mod Sound
use fabric_unified_permissio.Base.{
  String, ◌<>◌, Bool, true, false, ◌&&◌, ◌||◌, List, [], ◌∷◌, ◌++◌, map,
}
use fabric_unified_permissio.Base.{Option, none, some, ◌==◌, string_eq, if◌then◌else◌}
use fabric_unified_permissio.Base.Dict.{values}
use fabric_unified_permissio.Base.Outcome.{Outcome, ok, raised}
use fabric_unified_permissio.Base.Sort.{sorted}
use fabric_unified_permissio.Base.Text.{is_empty, lower, has_char, text_leb}
use fabric_unified_permissio.PairApply.Graph.{Resolved}
use fabric_unified_permissio.PairDiff.{DiffRow, status, merge_rows, bucket}

pub record Buckets : Type 0 where
  pub all : List DiffRow
  pub dbx_only : List DiffRow
  pub fabric_only : List DiffRow
  pub in_sync : List DiffRow
  pub errors : List String

abbrev pub no_buckets : Buckets
no_buckets = record { all = []; dbx_only = []; fabric_only = []; in_sync = []; errors = [] }

abbrev with_oid : Option Resolved → DiffRow → DiffRow
with_oid none r = r
with_oid (some who) r = record r { principal_key = lower who.object_id }

-- `(r.principal_display or r.principal_key).lower()`
abbrev display_email : DiffRow → String
display_email r =
    lower (if is_empty r.principal_display then r.principal_key else r.principal_display)

-- A row that is keyed by an e-mail takes the object id of the principal that the e-mail resolves to.
abbrev pub normalize_dbx : (String → Option Resolved) → DiffRow → DiffRow
normalize_dbx resolve r =
    if has_char b'@' r.principal_key then with_oid (resolve (display_email r)) r else r

abbrev pub normalize_fabric : (String → Option Resolved) → DiffRow → DiffRow
normalize_fabric resolve r =
    if has_char b'@' r.principal_key then with_oid (resolve (lower r.principal_key)) r else r

-- The order of two texts, and where they are equal, another order.
abbrev text_then : String → String → Bool → Bool
text_then s t rest = if s == t then rest else text_leb s t

-- The tuple that `compute_diff` sorts by: False comes before True.
abbrev pub row_leb : DiffRow → DiffRow → Bool
row_leb r q =
    let rest = text_then r.constraint_kind q.constraint_kind (
      text_then r.principal_display q.principal_display (text_leb r.access_class q.access_class)) in
    if status r == "in_sync"
    then if status q == "in_sync" then rest else true
    else if status q == "in_sync"
    then false
    else rest

abbrev pub rows_or_none : Outcome (List DiffRow) → List DiffRow
rows_or_none (ok rows) = rows
rows_or_none (raised e) = []

abbrev pub error_of : String → Outcome (List DiffRow) → List String
error_of side (ok rows) = []
error_of side (raised e) = (side <> ": " <> e) ∷ []

-- `dbx + fab`, normalized.
abbrev pub both_sides :
    (String → Option Resolved) → Outcome (List DiffRow) → Outcome (List DiffRow) → List DiffRow
both_sides resolve dbx fab =
    map (normalize_dbx resolve) (rows_or_none dbx)
    ++ map (normalize_fabric resolve) (rows_or_none fab)

abbrev in_buckets : List DiffRow → List String → Buckets
in_buckets rows errors = record {
  all = rows;
  dbx_only = bucket "dbx_only" rows;
  fabric_only = bucket "fabric_only" rows;
  in_sync = bucket "in_sync" rows;
  errors = errors;
}

unfoldable pub compare_sides :
    (String → Option Resolved) → Outcome (List DiffRow) → Outcome (List DiffRow) → Buckets
compare_sides resolve dbx fab =
    in_buckets (sorted row_leb (values (merge_rows [] (both_sides resolve dbx fab))))
      (error_of "DBX" dbx ++ error_of "Fabric" fab)
