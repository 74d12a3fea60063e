-- ===== src/SyncEngine/Strategy.antt =====
-- What the conflict strategy changes in permission-sync/src/orchestrator/sync_engine.py.
use fabric_unified_permissio.Base.{◌≡◌, Bool, true, false, not, ◌||◌, ◌&&◌}
use fabric_unified_permissio.Base.{List, [], ◌∷◌, ◌++◌, arith, contains, contains-append, All}
use fabric_unified_permissio.Base.{All-append, ◌==◌, string_eq, inl, inr, Option, none}
use fabric_unified_permissio.Base.{some, if_rule}
use fabric_unified_permissio.Base.Http.{Services}
use fabric_unified_permissio.Canonical.{CanonicalPermission, Key, key, key_eq}
use fabric_unified_permissio.Reconciler.Diff.{
  PermissionDiff, PermissionConflict, Draws, compute_diff,
}
use fabric_unified_permissio.Reconciler.Diff.Keys.{keys_of, keys_of-append, compute_diff_keys}
use fabric_unified_permissio.Reconciler.Diff.Keys.{held_after}
use fabric_unified_permissio.Reconciler.Diff.Conflicts.{In, IsGenuine, compute_diff_conflicts}
use fabric_unified_permissio.Reconciler.Resolver.{
  ConflictResolver, Desk, resolve, resolve_all, add_winner,
}
use fabric_unified_permissio.SyncEngine.{add_winners, with_winners}

contains-In :
    (p : CanonicalPermission) (ps : List CanonicalPermission)
    → In p ps
    → contains (keys_of ps) (key p) ≡ true
contains-In p [] i = elim i [ ]
contains-In p (q ∷ ps) (inl e) = rw e (ground arith)
contains-In p (q ∷ ps) (inr i) = ground (arith, contains-In p ps i)

-- One of the two sides holds the key.
abbrev Known : List CanonicalPermission → List CanonicalPermission → Key → Type 0
Known current desired k = (contains (keys_of desired) k || contains (keys_of current) k) ≡ true

abbrev OnSome : (CanonicalPermission → Type 0) → Option CanonicalPermission → Type 0
OnSome P none = Unit
OnSome P (some w) = P w

add_winner-All :
    (P : CanonicalPermission → Type 0) (o : Option CanonicalPermission)
    (out : List CanonicalPermission)
    → OnSome P o
    → All P out
    → All P (add_winner o out)
unfolding add_winner
add_winner-All P none out h a = a
add_winner-All P (some w) out h a = All-append P out (w ∷ []) a (h, tt)

module _ (S : Services) (e : Draws) (r : ConflictResolver) (P : CanonicalPermission → Type 0) where
  -- The winner of a conflict, if there is one, is one of its two permissions.
  resolve-OnSome :
      (c : PermissionConflict) (d : Desk S)
      → P c.source_permission
      → P c.target_permission
      → OnSome P (resolve S e r c d).0
  unfolding resolve
  resolve-OnSome c d s t =
      if_rule (λ (x : Option CanonicalPermission × Desk S). OnSome P x.0)
        (r.strategy == "source_wins") s
        (if_rule (λ (x : Option CanonicalPermission × Desk S). OnSome P x.0)
          (r.strategy == "target_wins") t
          (if_rule (λ (x : Option CanonicalPermission × Desk S). OnSome P x.0)
            (r.strategy == "manual") tt s))

  resolve_all-All :
      (cs : List PermissionConflict) (out : List CanonicalPermission) (d : Desk S)
      → All (λ c. P c.source_permission × P c.target_permission) cs
      → All P out
      → All P (resolve_all S e r cs out d).0
  unfolding resolve_all
  resolve_all-All [] out d h o = o
  resolve_all-All (c ∷ cs) out d h o =
      resolve_all-All cs _ _ h.1 (add_winner-All P _ out (resolve-OnSome c d h.0.0 h.0.1) o)

All-map {ℓ} :
    {A : Type ℓ} (P Q : A → Type 0) (xs : List A) → ((x : A) → P x → Q x) → All P xs → All Q xs
All-map P Q [] f h = tt
All-map P Q (x ∷ xs) f h = (f x h.0, All-map P Q xs f h.1)

-- Adding winners keeps the keys that were there, and adds none that neither side holds.
add_winners-keeps :
    (existing : List Key) (ws grants : List CanonicalPermission) (k : Key)
    → contains (keys_of grants) k ≡ true
    → contains (keys_of (add_winners existing grants ws)) k ≡ true
unfolding add_winners
add_winners-keeps existing [] grants k h = h
add_winners-keeps existing (w ∷ ws) grants k h = add_winners-keeps existing ws _ k (
    if_rule (λ g. contains (keys_of g) k ≡ true) (contains existing (key w)) h
      (rw (keys_of-append, contains-append) (ground arith)))

snoc-Known :
    (current desired grants : List CanonicalPermission) (w : CanonicalPermission) (k : Key)
    → Known current desired (key w)
    → (contains (keys_of grants) k ≡ true → Known current desired k)
    → contains (keys_of (grants ++ (w ∷ []))) k ≡ true
    → Known current desired k
snoc-Known current desired grants w k a g h =
    let x : (contains (keys_of grants) k || contains (keys_of (w ∷ [])) k) ≡ true =
      rw (keys_of-append, contains-append) at h in
    ground arith

add_winners-Known :
    (current desired : List CanonicalPermission) (existing : List Key)
    (ws grants : List CanonicalPermission) (k : Key)
    → All (λ w. Known current desired (key w)) ws
    → (contains (keys_of grants) k ≡ true → Known current desired k)
    → contains (keys_of (add_winners existing grants ws)) k ≡ true
    → Known current desired k
unfolding add_winners
add_winners-Known current desired existing [] grants k a g h = g h
add_winners-Known current desired existing (w ∷ ws) grants k a g h =
    add_winners-Known current desired existing ws _ k a.1
      (if_rule (λ x. contains (keys_of x) k ≡ true → Known current desired k)
        (contains existing (key w)) g (snoc-Known current desired grants w k a.0 g))
      h

held_cases :
    (had wanted grants all revokes : Bool)
    → grants ≡ (wanted && not had)
    → revokes ≡ (had && not wanted)
    → (grants ≡ true → all ≡ true)
    → (all ≡ true → (wanted || had) ≡ true)
    → ((had || all) && not revokes) ≡ wanted
held_cases had wanted grants all revokes g r up down = ground arith

module _ (S : Services) (e : Draws) (r : ConflictResolver)
    (current desired : List CanonicalPermission) (d : Desk S) where
  -- The diff that is applied, under the strategy of `r`.
  abbrev pub applied_diff : PermissionDiff
  applied_diff =
      let diff = compute_diff e current desired in
      with_winners diff (resolve_all S e r diff.conflicts [] d).0

  winners-Known :
      All
        (λ w. Known current desired (key w))
        (resolve_all S e r (compute_diff e current desired).conflicts [] d).0
  winners-Known =
      resolve_all-All S e r (λ w. Known current desired (key w)) _ [] d
        (All-map (IsGenuine current desired) _ _
          (λ c g. (
            ground (arith, contains-In c.source_permission desired g.wanted),
            ground (arith, contains-In c.target_permission current g.there),
          ))
          (compute_diff_conflicts e current desired))
        tt

  -- Whatever the conflict strategy, the grants and then the revocations leave exactly the keys of
  -- the desired state.
  pub reconcile_any_strategy :
      (k : Key) → held_after current applied_diff k ≡ contains (keys_of desired) k
  unfolding with_winners
  reconcile_any_strategy k =
      let diff = compute_diff e current desired in
      let ws = (resolve_all S e r diff.conflicts [] d).0 in
      let keys = compute_diff_keys e current desired k in
      held_cases _ _ _ _ _ keys.0 keys.1
        (add_winners-keeps (keys_of diff.to_grant) ws diff.to_grant k)
        (add_winners-Known current desired (keys_of diff.to_grant) ws diff.to_grant k winners-Known
          (λ x. ground (arith, keys.0)))

  -- Whatever the strategy, the revocations are those of the plain diff, so a conflict's target
  -- permission whose key is not desired is revoked.
  pub conflict_target_revoked :
      All
        (λ c.
          contains (keys_of desired) (key c.target_permission) ≡ false
          → contains (keys_of applied_diff.to_revoke) (key c.target_permission) ≡ true)
        applied_diff.conflicts
  unfolding with_winners
  conflict_target_revoked =
      All-map (IsGenuine current desired) _ _
        (λ c g x. ground (
          arith,
          compute_diff_keys e current desired (key c.target_permission),
          contains-In c.target_permission current g.there,
        ))
        (compute_diff_conflicts e current desired)
