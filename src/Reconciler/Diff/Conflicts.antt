-- ===== src/Reconciler/Diff/Conflicts.antt =====
-- The conflicts that `compute_diff` (permission-sync/src/reconciler/diff_engine.py) reports.
use fabric_unified_permissio.Base.{ℕ, ◌+◌, ◌≡◌, ◌≢◌, refl, ◌∙◌, ap, Bool, false, not}
use fabric_unified_permissio.Base.{List, [], ◌∷◌, ◌++◌, arith, Option, none, some, ◌⊎◌}
use fabric_unified_permissio.Base.{◌==◌, if◌then◌else◌, contains, All, All-append, keep, length}
use fabric_unified_permissio.Base.{string_eq, inl, inr, sym, Option-cases, Bool-cases}
use fabric_unified_permissio.Base.Dict.{Dict, lookup, insert, lookup-insert}
use fabric_unified_permissio.Canonical.{CanonicalPermission, Key, key_eq}
use fabric_unified_permissio.Reconciler.Diff.{PermissionConflict, Draws, compute_diff, clash}
use fabric_unified_permissio.Reconciler.Diff.{SecureKey, secure_key, secure_key_eq, by_secure_key}
use fabric_unified_permissio.Reconciler.Diff.{find_conflicts}
use fabric_unified_permissio.Reconciler.Diff.Keys.{keys_of, compute_diff_keys}

-- The permission stands in the list.
abbrev pub In : CanonicalPermission → List CanonicalPermission → Type 0
In p [] = ⊥
In p (x ∷ xs) = (p ≡ x) ⊎ In p xs

abbrev or_last :
    Option CanonicalPermission → Option CanonicalPermission → Option CanonicalPermission
or_last (some q) o = some q
or_last none o = o

-- The last permission of a state on a securable for a principal.
abbrev pub last_on : SecureKey → List CanonicalPermission → Option CanonicalPermission
last_on k [] = none
last_on k (p ∷ ps) = or_last (last_on k ps) (if k == secure_key p then some p else none)

lookup-by_secure_key :
    (k : SecureKey) (d : Dict SecureKey CanonicalPermission) (ps : List CanonicalPermission)
    → lookup k (by_secure_key d ps) ≡ or_last (last_on k ps) (lookup k d)
unfolding by_secure_key
lookup-by_secure_key k d [] = refl
lookup-by_secure_key k d (p ∷ ps) = ground (
  arith,
  lookup-by_secure_key k (insert (secure_key p) p d) ps,
  lookup-insert k (secure_key p) p d,
)

last_on-In :
    (k : SecureKey) (ps : List CanonicalPermission) (q : CanonicalPermission)
    → last_on k ps ≡ some q
    → In q ps × (secure_key q ≡ k)
last_on-In k [] q h = cc
last_on-In k (p ∷ ps) q h = elim (Option-cases (last_on k ps)) [
  | inl e ↦ ground (arith, last_on-In k ps q)
  | inr (r, e) ↦ ground (arith, last_on-In k ps q)
]

-- A reported conflict is between two permissions of one principal on one securable, one that is
-- desired and one that is there, of different access classes, and it records what they say.
pub record IsGenuine (current desired : List CanonicalPermission) (c : PermissionConflict)
    : Type 0 where
  pub wanted : In c.source_permission desired
  pub there : In c.target_permission current
  pub same_securable : secure_key c.source_permission ≡ secure_key c.target_permission
  pub classes_differ : c.source_access_class ≢ c.target_access_class
  pub source_class : c.source_access_class ≡ c.source_permission.access_class
  pub target_class : c.target_access_class ≡ c.target_permission.access_class
  pub on_principal : c.principal_entra_id ≡ c.source_permission.principal_entra_id
  pub on_securable : c.securable_fqn ≡ c.source_permission.securable_fqn
  pub on_type : c.securable_type ≡ c.source_permission.securable_type

clash-IsGenuine :
    (current desired : List CanonicalPermission) (e : Draws) (n : ℕ) (p : CanonicalPermission)
    (o : Option CanonicalPermission)
    → In p desired
    → ((q : CanonicalPermission) → o ≡ some q → In q current × (secure_key q ≡ secure_key p))
    → All (IsGenuine current desired) (clash e n p o)
unfolding clash
clash-IsGenuine current desired e n p none h g = tt
clash-IsGenuine current desired e n p (some q) h g =
    elim (Bool-cases (q.access_class == p.access_class)) [
      | inl same ↦ rw same tt
      | inr other ↦ rw other (
        record {
          wanted = h;
          there = (g q refl).0;
          same_securable = sym (g q refl).1;
          classes_differ = λ x. ground arith;
          source_class = refl;
          target_class = refl;
          on_principal = refl;
          on_securable = refl;
          on_type = refl;
        },
        tt,
      )
    ]

lookup-last_on :
    (k : SecureKey) (ps : List CanonicalPermission) → lookup k (by_secure_key [] ps) ≡ last_on k ps
unfolding lookup
lookup-last_on k ps = ground (arith, lookup-by_secure_key k [] ps)

find_conflicts-IsGenuine :
    (current desired : List CanonicalPermission) (e : Draws) (n : ℕ) (ps : List CanonicalPermission)
    → ((p : CanonicalPermission) → In p ps → In p desired)
    → All (IsGenuine current desired) (find_conflicts e n (by_secure_key [] current) ps)
unfolding find_conflicts
find_conflicts-IsGenuine current desired e n [] h = tt
find_conflicts-IsGenuine current desired e n (p ∷ ps) h =
    let found = clash e n p (lookup (secure_key p) (by_secure_key [] current)) in
    All-append (IsGenuine current desired) found _
      (clash-IsGenuine current desired e n p _ (h p (inl refl)) (λ q x.
        last_on-In (secure_key p) current q (sym (lookup-last_on (secure_key p) current) ∙ x)))
      (find_conflicts-IsGenuine current desired e (n + length found) ps (λ q i. h q (inr i)))

-- The desired permissions whose principal last holds another class on the same securable.
abbrev pub differs : Option CanonicalPermission → CanonicalPermission → Bool
differs none p = false
differs (some q) p = not (q.access_class == p.access_class)

abbrev pub contested :
    List CanonicalPermission → List CanonicalPermission → List CanonicalPermission
contested current = keep (λ p. differs (last_on (secure_key p) current) p)

abbrev pub sources : List PermissionConflict → List CanonicalPermission
sources [] = []
sources (c ∷ cs) = c.source_permission ∷ sources cs

sources-append : (cs ds : List PermissionConflict) → sources (cs ++ ds) ≡ sources cs ++ sources ds
sources-append [] ds = refl
sources-append (c ∷ cs) ds = ap (λ ps. c.source_permission ∷ ps) (sources-append cs ds)

sources-clash :
    (e : Draws) (n : ℕ) (p : CanonicalPermission) (o : Option CanonicalPermission)
    → sources (clash e n p o) ≡ (if differs o p then p ∷ [] else [])
unfolding clash
sources-clash e n p none = refl
sources-clash e n p (some q) = ground arith

sources-find_conflicts :
    (current : List CanonicalPermission) (e : Draws) (n : ℕ) (ps : List CanonicalPermission)
    → sources (find_conflicts e n (by_secure_key [] current) ps) ≡ contested current ps
unfolding find_conflicts
sources-find_conflicts current e n [] = refl
sources-find_conflicts current e n (p ∷ ps) = rw sources-append (
    rw (sources-clash, lookup-last_on)
      (rw
        (sources-find_conflicts current e
          (n + length (clash e n p (last_on (secure_key p) current))) ps)
        (ground arith)))

module _ (e : Draws) (current_state desired_state : List CanonicalPermission) where
  conflicts_lem :
      (compute_diff e current_state desired_state).conflicts
      ≡ find_conflicts e 0 (by_secure_key [] current_state) desired_state
  unfolding compute_diff
  conflicts_lem = refl

  -- Every reported conflict is genuine.
  pub compute_diff_conflicts :
      All
        (IsGenuine current_state desired_state)
        (compute_diff e current_state desired_state).conflicts
  compute_diff_conflicts =
      rw conflicts_lem
        (find_conflicts-IsGenuine current_state desired_state e 0 desired_state (λ p i. i))

  -- The conflicts stand for exactly the desired permissions whose principal last holds another
  -- class on the same securable, in their order.
  pub sources-compute_diff :
      sources (compute_diff e current_state desired_state).conflicts
      ≡ contested current_state desired_state
  sources-compute_diff = rw conflicts_lem (sources-find_conflicts current_state e 0 desired_state)

-- The diff of a state with itself changes no key, and still reports a conflict about one permission.
abbrev pub InConflictWithItself : Draws → List CanonicalPermission → CanonicalPermission → Type 0
InConflictWithItself e state p =
    let diff = compute_diff e state state in
    ((k : Key) → contains (keys_of diff.to_grant) k ≡ false)
    × ((k : Key) → contains (keys_of diff.to_revoke) k ≡ false)
    × (sources diff.conflicts ≡ p ∷ [])

-- A principal with two classes on one securable: a state that holds both is in conflict with
-- itself, although nothing is to be granted or revoked.
pub compute_diff_two_classes :
    (e : Draws) (p q : CanonicalPermission)
    → secure_key p ≡ secure_key q
    → p.access_class ≢ q.access_class
    → InConflictWithItself e (p ∷ q ∷ []) p
compute_diff_two_classes e p q same other = (
  λ k. ground (arith, compute_diff_keys e (p ∷ q ∷ []) (p ∷ q ∷ []) k),
  λ k. ground (arith, compute_diff_keys e (p ∷ q ∷ []) (p ∷ q ∷ []) k),
  rw (sources-compute_diff e (p ∷ q ∷ []) (p ∷ q ∷ [])) (ground arith),
)
