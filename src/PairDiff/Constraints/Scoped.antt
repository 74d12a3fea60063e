-- ===== src/PairDiff/Constraints/Scoped.antt =====
-- Where the rows of a collection stand (app/services/pair_diff.py): under their own key, and on a
-- scope of some kind, unless they are constraints.
use fabric_unified_permissio.Base.{
  ◌≡◌, ◌⊎◌, inr, refl, sym, subst, String, false, [], ◌∷◌, Option, none, some, arith, if_rule, ◌==◌,
  All,
}
use fabric_unified_permissio.Base.Dict.{lookup, insert, values}
use fabric_unified_permissio.Base.Text.{is_empty}
use fabric_unified_permissio.PairDiff.{DiffRow, RowKey, row_key_eq, row_identity, Rows}
use fabric_unified_permissio.PairDiff.Constraints.{
  Recorded, constraint_row, record_constraint_row, on_existing,
}

module _ (P : String → Type 0) where
  -- A key on a scope that is meant, or of a constraint.
  abbrev pub OnScope : RowKey → Type 0
  OnScope k = P k.securable_scope ⊎ (is_empty k.constraint_kind ≡ false)

  abbrev pub Scoped : Rows → Type 0
  Scoped [] = Unit
  Scoped ((k, r) ∷ d) = (row_identity r ≡ k) × OnScope k × Scoped d

  pub lookup-Scoped :
      (k : RowKey) (r : DiffRow) (d : Rows) → Scoped d → lookup k d ≡ some r → row_identity r ≡ k
  unfolding lookup
  lookup-Scoped k r [] h e = cc
  lookup-Scoped k r ((j, q) ∷ d) h e = ground (arith, lookup-Scoped k r d h.2)

  pub insert-Scoped :
      (k : RowKey) (r : DiffRow) (d : Rows)
      → row_identity r ≡ k
      → OnScope k
      → Scoped d
      → Scoped (insert k r d)
  unfolding insert
  insert-Scoped k r [] e o h = (e, o, tt)
  insert-Scoped k r ((j, q) ∷ d) e o h =
      if_rule {A = Rows} Scoped (k == j) (e, o, h.2) (h.0, h.1, insert-Scoped k r d e o h.2)

  existing_identity :
      (c : Recorded) (o : Option DiffRow)
      → ((m : DiffRow) → o ≡ some m → row_identity m ≡ row_identity (constraint_row c))
      → row_identity (on_existing o c) ≡ row_identity (constraint_row c)
  existing_identity c none h = refl
  existing_identity c (some m) h = h m refl

  pub record_constraint_row-Scoped :
      (c : Recorded) (rows : Rows)
      → is_empty c.constraint_kind ≡ false
      → Scoped rows
      → Scoped (record_constraint_row c rows)
  unfolding record_constraint_row
  record_constraint_row-Scoped c rows e h =
      let k = row_identity (constraint_row c) in
      insert-Scoped k (on_existing (lookup k rows) c) rows
        (existing_identity c (lookup k rows) (λ m f. lookup-Scoped k m rows h f)) (inr e) h

  -- The rows are on such scopes, or constraints.
  pub values-Scoped :
      (d : Rows)
      → Scoped d
      → All (λ r. P r.securable_scope ⊎ (is_empty r.constraint_kind ≡ false)) (values d)
  values-Scoped [] h = tt
  values-Scoped ((k, r) ∷ d) h = (subst OnScope (sym h.0) h.1, values-Scoped d h.2)
