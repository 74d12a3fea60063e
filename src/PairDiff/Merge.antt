-- ===== src/PairDiff/Merge.antt =====
-- The merge of both sides' rows in app/services/pair_diff.py.
use fabric_unified_permissio.Base.{Bool, false, ◌&&◌, ◌||◌, ◌≡◌, refl, sym, List, [], ◌∷◌}
use fabric_unified_permissio.Base.{Option, none, some, ◌==◌, string_eq, any_of, arith, ap, ◌∙◌}
use fabric_unified_permissio.Base.{is_some}
use fabric_unified_permissio.Base.Dict.{lookup, insert, lookup-insert}
use fabric_unified_permissio.PairDiff.{
  DiffRow, RowKey, row_key_eq, row_identity, Rows, merge_rows, merged_with, absorb,
}

-- Whether some row of a list has the key and the flag.
abbrev pub any_on : (DiffRow → Bool) → RowKey → List DiffRow → Bool
any_on flag k = any_of (λ r. k == row_identity r && flag r)

abbrev pub flag_at : (DiffRow → Bool) → Option DiffRow → Bool
flag_at flag none = false
flag_at flag (some r) = flag r

module _ (flag : DiffRow → Bool)
    (flag-absorb : (m r : DiffRow) → flag (absorb m r) ≡ (flag m || flag r)) where
  flag_at-merged_with :
      (o : Option DiffRow) (r : DiffRow) → flag (merged_with o r) ≡ (flag_at flag o || flag r)
  flag_at-merged_with none r = refl
  flag_at-merged_with (some m) r = flag-absorb m r

  flag_at-step :
      (k : RowKey) (d : Rows) (r : DiffRow)
      → flag_at flag
          (lookup k (insert (row_identity r) (merged_with (lookup (row_identity r) d) r) d))
        ≡ (flag_at flag (lookup k d) || (k == row_identity r && flag r))
  flag_at-step k d r = ground (
    arith,
    lookup-insert k (row_identity r) (merged_with (lookup (row_identity r) d) r) d,
    flag_at-merged_with (lookup (row_identity r) d) r,
  )

  flag_at-merge_rows :
      (k : RowKey) (rs : List DiffRow) (d : Rows)
      → flag_at flag (lookup k (merge_rows d rs)) ≡ (flag_at flag (lookup k d) || any_on flag k rs)
  unfolding merge_rows
  flag_at-merge_rows k [] d = ground arith
  flag_at-merge_rows k (r ∷ rs) d = ground (
    arith,
    flag_at-merge_rows k rs (insert (row_identity r) (merged_with (lookup (row_identity r) d) r) d),
    flag_at-step k d r,
  )

-- Whether a side's flag of a merged row stands is whether some row of its key has it.
abbrev pub SumsUp : RowKey → List DiffRow → DiffRow → Type 0
SumsUp k rows r =
    (r.on_dbx ≡ any_on (λ x. x.on_dbx) k rows) × (r.on_fabric ≡ any_on (λ x. x.on_fabric) k rows)

-- A row of the merge is on Databricks, or on Fabric, exactly if some row of its key is.
pub merge_rows-SumsUp :
    (rows : List DiffRow) (k : RowKey) (r : DiffRow)
    → lookup k (merge_rows [] rows) ≡ some r
    → SumsUp k rows r
unfolding lookup
merge_rows-SumsUp rows k r h = (
  sym (ap (flag_at (λ x. x.on_dbx)) h) ∙ flag_at-merge_rows (λ x. x.on_dbx) (λ m q. refl) k rows [],
  sym (ap (flag_at (λ x. x.on_fabric)) h)
      ∙ flag_at-merge_rows (λ x. x.on_fabric) (λ m q. refl) k rows [],
)

found_from :
    (k : RowKey) (rs : List DiffRow) (d : Rows)
    → is_some (lookup k (merge_rows d rs))
      ≡ (is_some (lookup k d) || any_of (λ r. k == row_identity r) rs)
unfolding merge_rows
found_from k [] d = ground arith
found_from k (r ∷ rs) d = ground (
  arith,
  found_from k rs (insert (row_identity r) (merged_with (lookup (row_identity r) d) r) d),
  lookup-insert k (row_identity r) (merged_with (lookup (row_identity r) d) r) d,
)

-- The merge has a row for a key exactly if one of the rows has that key.
pub merge_rows_found :
    (rows : List DiffRow) (k : RowKey)
    → is_some (lookup k (merge_rows [] rows)) ≡ any_of (λ r. k == row_identity r) rows
unfolding lookup
merge_rows_found rows k = found_from k rows []
