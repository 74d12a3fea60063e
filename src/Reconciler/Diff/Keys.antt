-- ===== src/Reconciler/Diff/Keys.antt =====
-- What `compute_diff` (permission-sync/src/reconciler/diff_engine.py) returns, key by key.
use mathlib.Core.List.{append_assoc, append-nil}
use fabric_unified_permissio.Base.{◌≡◌, refl, sym, ◌∙◌, ap, subst, Bool, not, ◌&&◌, ◌||◌}
use fabric_unified_permissio.Base.{List, [], ◌∷◌, ◌++◌, arith, inl, inr, Bool-cases}
use fabric_unified_permissio.Base.{if◌then◌else◌, contains}
use fabric_unified_permissio.Base.Dict.{Dict, insert, lookup, has, lookup-insert}
use fabric_unified_permissio.Canonical.{CanonicalPermission, Key, key, key_eq}
use fabric_unified_permissio.Reconciler.Diff.{PermissionDiff, by_key, scan_desired}
use fabric_unified_permissio.Reconciler.Diff.{
  scan_current, Draws, compute_diff, empty_diff, find_conflicts,
}

abbrev Index : Type 0
Index = Dict Key CanonicalPermission

-- The keys of a list of permissions.
abbrev pub keys_of : List CanonicalPermission → List Key
keys_of [] = []
keys_of (p ∷ ps) = key p ∷ keys_of ps

pub keys_of-append :
    (ps qs : List CanonicalPermission) → keys_of (ps ++ qs) ≡ keys_of ps ++ keys_of qs
keys_of-append [] qs = refl
keys_of-append (p ∷ ps) qs = ap (λ ks. key p ∷ ks) (keys_of-append ps qs)

-- Every permission stands under its own key.
abbrev Keyed : Index → Type 0
Keyed [] = Unit
Keyed ((k, p) ∷ d) = (key p ≡ k) × Keyed d

insert-Keyed : (p : CanonicalPermission) (d : Index) → Keyed d → Keyed (insert (key p) p d)
unfolding insert
insert-Keyed p [] h = (refl, tt)
insert-Keyed p ((j, q) ∷ d) (e, h) = ground (arith, insert-Keyed p d h)

by_key-Keyed : (d : Index) (ps : List CanonicalPermission) → Keyed d → Keyed (by_key d ps)
unfolding by_key
by_key-Keyed d [] h = h
by_key-Keyed d (p ∷ ps) h = by_key-Keyed (insert (key p) p d) ps (insert-Keyed p d h)

pub has-by_key :
    (k : Key) (d : Index) (ps : List CanonicalPermission)
    → has k (by_key d ps) ≡ (contains (keys_of ps) k || has k d)
unfolding by_key
has-by_key k d [] = refl
has-by_key k d (p ∷ ps) =
    ground (arith, has-by_key k (insert (key p) p d) ps, lookup-insert k (key p) p d)

-- The permissions of one index whose key the other lacks, and those whose key it has.
abbrev missing : Index → Index → List CanonicalPermission
missing other [] = []
missing other ((k, p) ∷ d) = let rest = missing other d in if has k other then rest else p ∷ rest

abbrev shared : Index → Index → List CanonicalPermission
shared other [] = []
shared other ((k, p) ∷ d) = let rest = shared other d in if has k other then p ∷ rest else rest

scan_desired_lem :
    (current desired : Index) (diff : PermissionDiff)
    → scan_desired current desired diff ≡ record diff {
      to_grant = diff.to_grant ++ missing current desired;
      unchanged = diff.unchanged ++ shared current desired;
    }
unfolding scan_desired
scan_desired_lem current [] diff = simp append-nil
scan_desired_lem current ((k, p) ∷ desired) diff = elim (Bool-cases (has k current)) [
  | inl e ↦ rw e (
      scan_desired_lem current desired (record diff { unchanged = diff.unchanged ++ (p ∷ []) })
      ∙ simp append_assoc)
  | inr e ↦ rw e (
      scan_desired_lem current desired (record diff { to_grant = diff.to_grant ++ (p ∷ []) })
      ∙ simp append_assoc)
]

scan_current_lem :
    (desired current : Index) (diff : PermissionDiff)
    → scan_current desired current diff
      ≡ record diff { to_revoke = diff.to_revoke ++ missing desired current }
unfolding scan_current
scan_current_lem desired [] diff = simp append-nil
scan_current_lem desired ((k, p) ∷ current) diff = elim (Bool-cases (has k desired)) [
  | inl e ↦ rw e (scan_current_lem desired current diff)
  | inr e ↦ rw e (
      scan_current_lem desired current (record diff { to_revoke = diff.to_revoke ++ (p ∷ []) })
      ∙ simp append_assoc)
]

contains-missing_cons :
    (k : Key) (p : CanonicalPermission) (other d : Index)
    → contains (keys_of (missing other d)) k ≡ (has k d && not (has k other))
    → contains (keys_of (missing other ((key p, p) ∷ d))) k
      ≡ (has k ((key p, p) ∷ d) && not (has k other))
unfolding lookup
contains-missing_cons k p other d ih = ground arith

contains-missing :
    (k : Key) (other d : Index)
    → Keyed d
    → contains (keys_of (missing other d)) k ≡ (has k d && not (has k other))
unfolding lookup
contains-missing k other [] h = refl
contains-missing k other ((j, p) ∷ d) (e, h) =
    subst
      (λ i.
        contains (keys_of (missing other ((i, p) ∷ d))) k
        ≡ (has k ((i, p) ∷ d) && not (has k other)))
      e (contains-missing_cons k p other d (contains-missing k other d h))

contains-shared_cons :
    (k : Key) (p : CanonicalPermission) (other d : Index)
    → contains (keys_of (shared other d)) k ≡ (has k d && has k other)
    → contains (keys_of (shared other ((key p, p) ∷ d))) k ≡ (has k ((key p, p) ∷ d) && has k other)
unfolding lookup
contains-shared_cons k p other d ih = ground arith

contains-shared :
    (k : Key) (other d : Index)
    → Keyed d
    → contains (keys_of (shared other d)) k ≡ (has k d && has k other)
unfolding lookup
contains-shared k other [] h = refl
contains-shared k other ((j, p) ∷ d) (e, h) =
    subst
      (λ i. contains (keys_of (shared other ((i, p) ∷ d))) k ≡ (has k ((i, p) ∷ d) && has k other))
      e (contains-shared_cons k p other d (contains-shared k other d h))

has_index :
    (k : Key) (ps : List CanonicalPermission) → has k (by_key [] ps) ≡ contains (keys_of ps) k
unfolding lookup
has_index k ps = ground (arith, has-by_key k [] ps)

-- The keys that a state holds once the grants are made, and then the revocations.
abbrev pub held_after : List CanonicalPermission → PermissionDiff → Key → Bool
held_after current diff k =
    (contains (keys_of current) k || contains (keys_of diff.to_grant) k)
    && not (contains (keys_of diff.to_revoke) k)

-- Where a key goes, by the states that hold it.
abbrev pub Splits :
    List CanonicalPermission → List CanonicalPermission → PermissionDiff → Key → Type 0
Splits current desired diff k =
    let wanted = contains (keys_of desired) k in
    let had = contains (keys_of current) k in
    (contains (keys_of diff.to_grant) k ≡ (wanted && not had))
    × (contains (keys_of diff.to_revoke) k ≡ (had && not wanted))
    × (contains (keys_of diff.unchanged) k ≡ (wanted && had))

module _ (e : Draws) (current_state desired_state : List CanonicalPermission) where
  abbrev the_diff : PermissionDiff
  the_diff = compute_diff e current_state desired_state

  to_grant_lem : the_diff.to_grant ≡ missing (by_key [] current_state) (by_key [] desired_state)
  unfolding compute_diff
  to_grant_lem = rw (scan_current_lem, scan_desired_lem)

  to_revoke_lem : the_diff.to_revoke ≡ missing (by_key [] desired_state) (by_key [] current_state)
  unfolding compute_diff
  to_revoke_lem = rw (scan_current_lem, scan_desired_lem)

  unchanged_lem : the_diff.unchanged ≡ shared (by_key [] current_state) (by_key [] desired_state)
  unfolding compute_diff
  unchanged_lem = rw (scan_current_lem, scan_desired_lem)

  -- A key is to be granted, to be revoked or unchanged exactly if the desired state alone, the
  -- current state alone or both states hold it.
  pub compute_diff_keys : (k : Key) → Splits current_state desired_state the_diff k
  compute_diff_keys k = (
    rw to_grant_lem (
        rw (contains-missing k _ _ (by_key-Keyed [] desired_state tt))
          (rw (has_index k desired_state, has_index k current_state))),
    rw to_revoke_lem (
        rw (contains-missing k _ _ (by_key-Keyed [] current_state tt))
          (rw (has_index k desired_state, has_index k current_state))),
    rw unchanged_lem (
        rw (contains-shared k _ _ (by_key-Keyed [] desired_state tt))
          (rw (has_index k desired_state, has_index k current_state))),
  )

  -- Granting `to_grant` and then revoking `to_revoke` turns the keys of the current state into
  -- those of the desired state.
  pub compute_diff_reconciles :
      (k : Key) → held_after current_state the_diff k ≡ contains (keys_of desired_state) k
  compute_diff_reconciles k = ground (arith, compute_diff_keys k)

-- Where nothing is desired, nothing is granted, nothing is in conflict, and the keys of the current
-- state are revoked.
pub nothing_desired :
    (e : Draws) (current : List CanonicalPermission)
    → (revoked : List CanonicalPermission) × ((compute_diff e current []
          ≡ record empty_diff { to_revoke = revoked })
        × ((k : Key) → contains (keys_of revoked) k ≡ contains (keys_of current) k))
unfolding compute_diff by_key scan_desired find_conflicts
nothing_desired e current = (
  missing [] (by_key [] current),
  (
    rw scan_current_lem refl,
    λ k. rw (sym (to_revoke_lem e current [])) (ground (arith, compute_diff_keys e current [] k)),
  ),
)
