-- ===== src/Drift.antt =====
-- app/services/drift_service.py: a snapshot of the rows of a pairing, and what changed since the
-- last one. A snapshot keeps the rows that its JSON text holds.
pub mod Laws
use fabric_unified_permissio.Base.{
  ℕ, ◌+◌, String, Bool, false, true, List, [], ◌∷◌, ◌++◌, Option, none, some,
}
use fabric_unified_permissio.Base.{◌==◌, string_eq, if◌then◌else◌, ◌&&◌}
use fabric_unified_permissio.Base.Dict.{Dict, insert, has}
use fabric_unified_permissio.Base.Text.{join}
use fabric_unified_permissio.PairDiff.{DiffRow}

-- `_serialize_row`
pub record SnapshotRow : Type 0 where
  pub principal_key : String
  pub principal_display : String
  pub principal_type : String
  pub securable_scope : String
  pub access_class : String
  pub constraint_kind : String
  pub constraint_key : String
  pub on_dbx : Bool
  pub on_fabric : Bool

abbrev pub serialize_row : DiffRow → SnapshotRow
serialize_row r = record {
  principal_key = r.principal_key;
  principal_display = r.principal_display;
  principal_type = r.principal_type;
  securable_scope = r.securable_scope;
  access_class = r.access_class;
  constraint_kind = r.constraint_kind;
  constraint_key = r.constraint_key;
  on_dbx = r.on_dbx;
  on_fabric = r.on_fabric;
}

abbrev pub row_key : SnapshotRow → String
row_key r = join "|" (
    r.principal_key ∷ r.securable_scope ∷ r.access_class ∷ r.constraint_kind ∷ r.constraint_key
    ∷ [])

pub record Snapshot : Type 0 where
  pub id : ℕ
  pub pairing_id : String
  pub taken_at : ℕ
  pub row_count : ℕ
  pub dbx_only : ℕ
  pub fabric_only : ℕ
  pub in_sync : ℕ
  pub fingerprint : String
  pub rows : List SnapshotRow

-- `{_row_key(r): r for r in rows}`
pub by_row_key : Dict String SnapshotRow → List SnapshotRow → Dict String SnapshotRow
by_row_key d [] = d
by_row_key d (r ∷ rs) = by_row_key (insert (row_key r) r d) rs

-- `[xs[k] for k in xs.keys() - ys.keys()]`, in the order of `xs`; a set of Python has none.
pub only_in : Dict String SnapshotRow → Dict String SnapshotRow → List SnapshotRow
only_in [] ys = []
only_in ((k, r) ∷ xs) ys = let rest = only_in xs ys in if has k ys then rest else r ∷ rest

pub record DriftReport : Type 0 where
  pub added : List SnapshotRow
  pub removed : List SnapshotRow
  pub is_first : Bool

pub drift_from : Option Snapshot → List SnapshotRow → DriftReport
unfolding by_row_key only_in
drift_from none current = record { added = []; removed = []; is_first = true }
drift_from (some prev) current = record {
  added = only_in (by_row_key [] current) (by_row_key [] prev.rows);
  removed = only_in (by_row_key [] prev.rows) (by_row_key [] current);
  is_first = false;
}
