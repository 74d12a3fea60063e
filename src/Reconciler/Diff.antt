-- ===== src/Reconciler/Diff.antt =====
-- permission-sync/src/reconciler/diff_engine.py
pub mod Keys
pub mod Conflicts
use fabric_unified_permissio.Base.{ℕ, ◌+◌, String, List, [], ◌∷◌, ◌++◌, not, Option, none, some}
use fabric_unified_permissio.Base.{Eq, ◌==◌, string_eq, string_discrete, if◌then◌else◌, length}
use fabric_unified_permissio.Base.Dict.{Dict, insert, lookup, has}
use fabric_unified_permissio.Canonical.{CanonicalPermission, Key, key, key_eq}

-- `detected_at` counts in the clock's own unit.
pub record PermissionConflict : Type 0 where
  pub conflict_id : String
  pub principal_entra_id : String
  pub securable_fqn : String
  pub securable_type : String
  pub source_access_class : String
  pub target_access_class : String
  pub source_platform : String
  pub target_platform : String
  pub detected_at : ℕ
  pub source_permission : CanonicalPermission
  pub target_permission : CanonicalPermission

pub record PermissionDiff : Type 0 where
  pub to_grant : List CanonicalPermission
  pub to_revoke : List CanonicalPermission
  pub conflicts : List PermissionConflict
  pub unchanged : List CanonicalPermission

abbrev pub empty_diff : PermissionDiff
empty_diff = record { to_grant = []; to_revoke = []; conflicts = []; unchanged = [] }

-- `{p.key(): p for p in state}`, on top of what the dict has.
pub by_key : Dict Key CanonicalPermission → List CanonicalPermission → Dict Key CanonicalPermission
by_key d [] = d
by_key d (p ∷ ps) = by_key (insert (key p) p d) ps

-- `for k, p in desired_by_key.items()`
pub scan_desired :
    Dict Key CanonicalPermission → Dict Key CanonicalPermission → PermissionDiff → PermissionDiff
scan_desired current [] diff = diff
scan_desired current ((k, p) ∷ desired) diff = scan_desired current desired (
    if has k current
    then record diff { unchanged = diff.unchanged ++ (p ∷ []) }
    else record diff { to_grant = diff.to_grant ++ (p ∷ []) })

-- `for k, p in current_by_key.items()`
pub scan_current :
    Dict Key CanonicalPermission → Dict Key CanonicalPermission → PermissionDiff → PermissionDiff
scan_current desired [] diff = diff
scan_current desired ((k, p) ∷ current) diff =
    scan_current desired current
      (if not (has k desired) then record diff { to_revoke = diff.to_revoke ++ (p ∷ []) } else diff)

pub record SecureKey : Type 0 where
  pub principal : String
  pub fqn : String
  pub kind : String

pub SecureKey-discrete : Discrete SecureKey
SecureKey-discrete = hlevel string_discrete

instance abbrev pub secure_key_eq : Eq SecureKey
secure_key_eq = record { dec = SecureKey-discrete }

abbrev pub secure_key : CanonicalPermission → SecureKey
secure_key p = record {
  principal = p.principal_entra_id;
  fqn = p.securable_fqn;
  kind = p.securable_type;
}

-- `for p in current_state: current_by_sec[secure_key(p)] = p`
pub by_secure_key :
    Dict SecureKey CanonicalPermission
    → List CanonicalPermission
    → Dict SecureKey CanonicalPermission
by_secure_key d [] = d
by_secure_key d (p ∷ ps) = by_secure_key (insert (secure_key p) p d) ps

-- What `uuid4` and the clock give: the identifier drawn at each count, the time, and its text.
pub record Draws : Type 0 where
  pub uuid4 : ℕ → String
  pub now : ℕ
  pub isoformat : ℕ → String

abbrev pub conflict_of : Draws → ℕ → CanonicalPermission → CanonicalPermission → PermissionConflict
conflict_of e n p q = record {
  conflict_id = e.uuid4 n;
  principal_entra_id = p.principal_entra_id;
  securable_fqn = p.securable_fqn;
  securable_type = p.securable_type;
  source_access_class = p.access_class;
  target_access_class = q.access_class;
  source_platform = p.source_platform;
  target_platform = q.source_platform;
  detected_at = e.now;
  source_permission = p;
  target_permission = q;
}

-- One round of the loop over `desired_state`.
pub clash : Draws → ℕ → CanonicalPermission → Option CanonicalPermission → List PermissionConflict
clash e n p none = []
clash e n p (some q) =
    if not (q.access_class == p.access_class) then conflict_of e n p q ∷ [] else []

-- `for p in desired_state`: `n` identifiers have been drawn.
pub find_conflicts :
    Draws
    → ℕ
    → Dict SecureKey CanonicalPermission
    → List CanonicalPermission
    → List PermissionConflict
find_conflicts e n current [] = []
find_conflicts e n current (p ∷ ps) =
    let found = clash e n p (lookup (secure_key p) current) in
    found ++ find_conflicts e (n + length found) current ps

pub compute_diff : Draws → List CanonicalPermission → List CanonicalPermission → PermissionDiff
unfolding by_key scan_desired scan_current by_secure_key find_conflicts clash
compute_diff e current_state desired_state =
    let current = by_key [] current_state in
    let desired = by_key [] desired_state in
    let diff = scan_current desired current (scan_desired current desired empty_diff) in
    record diff { conflicts = find_conflicts e 0 (by_secure_key [] current_state) desired_state }
