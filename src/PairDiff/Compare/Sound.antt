-- ===== src/PairDiff/Compare/Sound.antt =====
-- What stands in each bucket of a comparison (app/services/pair_diff.py).
use fabric_unified_permissio.Base.{◌+◌, String, true, false, ◌≡◌, refl, List, [], ◌∷◌}
use fabric_unified_permissio.Base.{
  Option, none, some, ◌==◌, string_eq, length, All, arith, text_ne, ==_refl, if_rule, All-imp,
  All-keep,
}
use fabric_unified_permissio.Base.Dict.{lookup, insert, values, NodupKeys, insert-NodupKeys}
use fabric_unified_permissio.Base.Outcome.{Outcome}
use fabric_unified_permissio.Base.Sort.{sorted, All-sorted}
use fabric_unified_permissio.PairApply.Graph.{Resolved}
use fabric_unified_permissio.PairDiff.{
  DiffRow, RowKey, row_key_eq, row_identity, Rows, status, merge_rows, merged_with, bucket,
}
use fabric_unified_permissio.PairDiff.Merge.{any_on, SumsUp, merge_rows-SumsUp}
use fabric_unified_permissio.PairDiff.Compare.{compare_sides, both_sides, row_leb}

three_buckets :
    (rows : List DiffRow)
    → length (bucket "dbx_only" rows)
        + length (bucket "fabric_only" rows)
        + length (bucket "in_sync" rows)
      ≡ length rows
three_buckets [] = refl
three_buckets (r ∷ rows) = ground (
  arith,
  three_buckets rows,
  text_ne "dbx_only" "fabric_only" refl,
  text_ne "dbx_only" "in_sync" refl,
  text_ne "fabric_only" "in_sync" refl,
  text_ne "fabric_only" "dbx_only" refl,
  text_ne "in_sync" "dbx_only" refl,
  text_ne "in_sync" "fabric_only" refl,
)

-- Every row of a comparison is in exactly one bucket.
pub compare_sides_partition :
    (resolve : String → Option Resolved) (dbx fab : Outcome (List DiffRow))
    → let b = compare_sides resolve dbx fab in
      length b.dbx_only + length b.fabric_only + length b.in_sync ≡ length b.all
unfolding compare_sides
compare_sides_partition resolve dbx fab = three_buckets _

Keyed : Rows → Type 0
Keyed [] = Unit
Keyed ((k, r) ∷ d) = (row_identity r ≡ k) × Keyed d

insert-Keyed :
    (k : RowKey) (r : DiffRow) (d : Rows) → row_identity r ≡ k → Keyed d → Keyed (insert k r d)
unfolding insert Keyed
insert-Keyed k r [] e h = (e, tt)
insert-Keyed k r ((j, q) ∷ d) e (g, h) = if_rule Keyed (k == j) (e, h) (g, insert-Keyed k r d e h)

lookup-Keyed :
    (k : RowKey) (m : DiffRow) (d : Rows) → Keyed d → lookup k d ≡ some m → row_identity m ≡ k
unfolding lookup Keyed
lookup-Keyed k m [] h e = ground (arith, e)
lookup-Keyed k m ((j, q) ∷ d) (g, h) e = ground (arith, g, e, lookup-Keyed k m d h)

merged_identity :
    (r : DiffRow) (o : Option DiffRow)
    → ((m : DiffRow) → o ≡ some m → row_identity m ≡ row_identity r)
    → row_identity (merged_with o r) ≡ row_identity r
merged_identity r none h = refl
merged_identity r (some m) h = h m refl

merge_rows-Keyed : (rs : List DiffRow) (d : Rows) → Keyed d → Keyed (merge_rows d rs)
unfolding merge_rows
merge_rows-Keyed [] d h = h
merge_rows-Keyed (r ∷ rs) d h = merge_rows-Keyed rs _ (
    insert-Keyed (row_identity r) (merged_with (lookup (row_identity r) d) r) d
      (merged_identity r (lookup (row_identity r) d) (λ m e. lookup-Keyed (row_identity r) m d h e))
      h)

merge_rows-NodupKeys : (rs : List DiffRow) (d : Rows) → NodupKeys d → NodupKeys (merge_rows d rs)
unfolding merge_rows
merge_rows-NodupKeys [] d h = h
merge_rows-NodupKeys (r ∷ rs) d h =
    merge_rows-NodupKeys rs _
      (insert-NodupKeys (row_identity r) (merged_with (lookup (row_identity r) d) r) d h)

-- A row that a dict of rows holds under its own key.
abbrev StandsIn : Rows → DiffRow → Type 0
StandsIn d r = lookup (row_identity r) d ≡ some r

stands_later :
    (k : RowKey) (v : DiffRow) (d : Rows)
    → lookup k d ≡ none
    → (r : DiffRow) → StandsIn d r
    → StandsIn ((k, v) ∷ d) r
unfolding lookup
stands_later k v d h r e = ground (arith, h, e)

stands_first : (k : RowKey) (v : DiffRow) (d : Rows) → row_identity v ≡ k → StandsIn ((k, v) ∷ d) v
unfolding lookup
stands_first k v d e = rw (e, ==_refl k) refl

values-StandsIn : (d : Rows) → Keyed d → NodupKeys d → All (StandsIn d) (values d)
unfolding Keyed
values-StandsIn [] h u = tt
values-StandsIn ((k, v) ∷ d) (e, h) (f, u) = (
  stands_first k v d e,
  All-imp (StandsIn d) (StandsIn ((k, v) ∷ d)) (values d) (stands_later k v d f)
      (values-StandsIn d h u),
)

-- Whether the rows of its key are on either side.
abbrev pub Located : List DiffRow → DiffRow → Type 0
Located rows r = SumsUp (row_identity r) rows r

merged-Located : (rows : List DiffRow) → All (Located rows) (values (merge_rows [] rows))
unfolding Keyed
merged-Located rows =
    All-imp (StandsIn (merge_rows [] rows)) (Located rows) _
      (λ r e. merge_rows-SumsUp rows (row_identity r) r e)
      (values-StandsIn (merge_rows [] rows) (merge_rows-Keyed rows [] tt)
        (merge_rows-NodupKeys rows [] tt))

-- A key on Databricks alone: some row of it is there, and none is on Fabric.
abbrev pub OnlyDbx : List DiffRow → DiffRow → Type 0
OnlyDbx rows r =
    (any_on (λ x. x.on_dbx) (row_identity r) rows ≡ true)
    × (any_on (λ x. x.on_fabric) (row_identity r) rows ≡ false)

abbrev pub OnlyFabric : List DiffRow → DiffRow → Type 0
OnlyFabric rows r =
    (any_on (λ x. x.on_fabric) (row_identity r) rows ≡ true)
    × (any_on (λ x. x.on_dbx) (row_identity r) rows ≡ false)

only_dbx :
    (rows : List DiffRow) (r : DiffRow)
    → Located rows r × ((status r == "dbx_only") ≡ true)
    → OnlyDbx rows r
only_dbx rows r (h, e) =
    ground (arith, h, e, text_ne "fabric_only" "dbx_only" refl, text_ne "in_sync" "dbx_only" refl)

only_fabric :
    (rows : List DiffRow) (r : DiffRow)
    → Located rows r × ((status r == "fabric_only") ≡ true)
    → OnlyFabric rows r
only_fabric rows r (h, e) =
    ground
      (arith, h, e, text_ne "dbx_only" "fabric_only" refl, text_ne "in_sync" "fabric_only" refl)

-- Every row offered for Fabric has a key that some collected row has on Databricks and none on
-- Fabric, and the other way round.
pub compare_sides_sound :
    (resolve : String → Option Resolved) (dbx fab : Outcome (List DiffRow))
    → let b = compare_sides resolve dbx fab in
      All (OnlyDbx (both_sides resolve dbx fab)) b.dbx_only
      × All (OnlyFabric (both_sides resolve dbx fab)) b.fabric_only
unfolding compare_sides
compare_sides_sound resolve dbx fab = (
  All-imp _ _ _ (only_dbx rows) (All-keep (Located rows) _ _ located),
  All-imp _ _ _ (only_fabric rows) (All-keep (Located rows) _ _ located),
)
  where
    rows : List DiffRow
    rows = both_sides resolve dbx fab

    located :
        All
          (Located (both_sides resolve dbx fab))
          (sorted row_leb (values (merge_rows [] (both_sides resolve dbx fab))))
    located = All-sorted row_leb _ _ (merged-Located (both_sides resolve dbx fab))
