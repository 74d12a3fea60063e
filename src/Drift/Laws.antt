-- ===== src/Drift/Laws.antt =====
-- What the drift of app/services/drift_service.py holds.
use fabric_unified_permissio.Base.{String, not, ◌&&◌, ◌||◌, ◌≡◌, refl, List, [], ◌∷◌, some}
use fabric_unified_permissio.Base.{string_eq, contains, arith}
use fabric_unified_permissio.Base.Dict.{Dict, lookup, insert, has, lookup-insert}
use fabric_unified_permissio.Drift.{SnapshotRow, row_key, Snapshot, by_row_key, only_in, drift_from}

abbrev pub keys_of_rows : List SnapshotRow → List String
keys_of_rows [] = []
keys_of_rows (r ∷ rs) = row_key r ∷ keys_of_rows rs

-- Every row stands under its own key.
abbrev Keyed : Dict String SnapshotRow → Type 0
Keyed [] = Unit
Keyed ((k, r) ∷ d) = (row_key r ≡ k) × Keyed d

insert-Keyed :
    (r : SnapshotRow) (d : Dict String SnapshotRow) → Keyed d → Keyed (insert (row_key r) r d)
unfolding insert
insert-Keyed r [] h = (refl, tt)
insert-Keyed r ((k, q) ∷ d) (e, h) = ground (arith, insert-Keyed r d h)

by_row_key-Keyed :
    (d : Dict String SnapshotRow) (rs : List SnapshotRow) → Keyed d → Keyed (by_row_key d rs)
unfolding by_row_key
by_row_key-Keyed d [] h = h
by_row_key-Keyed d (r ∷ rs) h = by_row_key-Keyed (insert (row_key r) r d) rs (insert-Keyed r d h)

has-by_row_key :
    (k : String) (d : Dict String SnapshotRow) (rs : List SnapshotRow)
    → has k (by_row_key d rs) ≡ (contains (keys_of_rows rs) k || has k d)
unfolding by_row_key
has-by_row_key k d [] = refl
has-by_row_key k d (r ∷ rs) =
    ground (arith, has-by_row_key k (insert (row_key r) r d) rs, lookup-insert k (row_key r) r d)

has_row :
    (k : String) (rs : List SnapshotRow) → has k (by_row_key [] rs) ≡ contains (keys_of_rows rs) k
unfolding lookup
has_row k rs = ground (arith, has-by_row_key k [] rs)

contains-only_in :
    (k : String) (ys xs : Dict String SnapshotRow)
    → Keyed xs
    → contains (keys_of_rows (only_in xs ys)) k ≡ (has k xs && not (has k ys))
unfolding only_in lookup
contains-only_in k ys [] h = refl
contains-only_in k ys ((j, r) ∷ xs) (e, h) = ground (arith, e, contains-only_in k ys xs h)

-- Between two snapshots, a key is reported as added exactly if only the current rows have it, and as
-- removed exactly if only the previous rows do.
pub drift_from_keys :
    (prev : Snapshot) (current : List SnapshotRow) (k : String)
    → (contains (keys_of_rows (drift_from (some prev) current).added) k
        ≡ (contains (keys_of_rows current) k && not (contains (keys_of_rows prev.rows) k)))
      × (contains (keys_of_rows (drift_from (some prev) current).removed) k
          ≡ (contains (keys_of_rows prev.rows) k && not (contains (keys_of_rows current) k)))
unfolding drift_from
drift_from_keys prev current k = (
  rw (contains-only_in k _ _ (by_row_key-Keyed [] current tt))
      (rw (has_row k current, has_row k prev.rows) refl),
  rw (contains-only_in k _ _ (by_row_key-Keyed [] prev.rows tt))
      (rw (has_row k current, has_row k prev.rows) refl),
)
