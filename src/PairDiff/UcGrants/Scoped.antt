-- ===== src/PairDiff/UcGrants/Scoped.antt =====
-- Where the rows of grants stand (app/services/pair_diff.py).
use fabric_unified_permissio.Base.{
  ◌≡◌, inl, refl, String, List, [], ◌∷◌, Option, none, some, if_rule, map,
}
use fabric_unified_permissio.Base.Dict.{lookup}
use fabric_unified_permissio.Base.Json.{Json, get, text_of, elements}
use fabric_unified_permissio.Base.Text.{is_empty}
use fabric_unified_permissio.PairDiff.{
  DiffRow, row_key_eq, row_identity, Rows, Principal, fresh_row, or_new,
}
use fabric_unified_permissio.PairDiff.Constraints.Scoped.{Scoped, lookup-Scoped, insert-Scoped}
use fabric_unified_permissio.PairDiff.UcGrants.{
  record_dbx, record_if, record_privileges, record_grants, dbx_principal_key,
}

module _ (P : String → Type 0) where
  pub new_identity :
      (fresh : DiffRow) (o : Option DiffRow)
      → ((m : DiffRow) → o ≡ some m → row_identity m ≡ row_identity fresh)
      → row_identity (or_new o fresh) ≡ row_identity fresh
  new_identity fresh none h = refl
  new_identity fresh (some m) h = h m refl

  record_if-Scoped :
      (p : Principal) (scope privilege : String) (access : Option String) (rows : Rows)
      → P scope
      → Scoped P rows
      → Scoped P (record_if rows p scope privilege access)
  unfolding record_dbx
  record_if-Scoped p scope privilege none rows o h = h
  record_if-Scoped p scope privilege (some access) rows o h =
      let fresh = fresh_row p scope access in
      insert-Scoped P (row_identity fresh) _ rows
        (new_identity fresh (lookup (row_identity fresh) rows)
          (λ m f. lookup-Scoped P (row_identity fresh) m rows h f))
        (inl o) h

  record_privileges-Scoped :
      (p : Principal) (scope : String) (qs : List String) (rows : Rows)
      → P scope
      → Scoped P rows
      → Scoped P (record_privileges p scope qs rows)
  unfolding record_privileges
  record_privileges-Scoped p scope [] rows o h = h
  record_privileges-Scoped p scope (q ∷ qs) rows o h =
      record_privileges-Scoped p scope qs _ o (record_if-Scoped p scope q _ rows o h)

  pub record_grants-Scoped :
      (scope : String) (gs : List Json) (rows : Rows)
      → P scope
      → Scoped P rows
      → Scoped P (record_grants scope gs rows)
  unfolding record_grants
  record_grants-Scoped scope [] rows o h = h
  record_grants-Scoped scope (g ∷ gs) rows o h = record_grants-Scoped scope gs _ o (
      if_rule {A = Rows} (Scoped P) (is_empty (dbx_principal_key g).key) h (
        record_privileges-Scoped (dbx_principal_key g) scope
          (map text_of (elements (get g "privileges"))) rows o h))
