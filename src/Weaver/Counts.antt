-- ===== src/Weaver/Counts.antt =====
-- Every permission that permission-sync/src/policy_weaver/policy_weaver_client.py dispatches is
-- filed in one of the four lists.
use fabric_unified_permissio.Base.{
  true, false, ℕ, ◌+◌, String, Bool, ◌≡◌, List, [], ◌∷◌, ◌++◌, arith,
}
use fabric_unified_permissio.Base.{
  ◌==◌, string_eq, length, length-append, if_rule, subst, Option, none, some,
}
use fabric_unified_permissio.Base.Text.{is_empty}
use fabric_unified_permissio.Base.Json.{Fields}
use fabric_unified_permissio.Base.Outcome.{Outcome, ok, raised, and_then}
use fabric_unified_permissio.Base.Http.{Services}
use fabric_unified_permissio.Canonical.{CanonicalPermission, Key, key}
use fabric_unified_permissio.Reconciler.Diff.{PermissionDiff}
use fabric_unified_permissio.Weaver.{ApplyRecord, ApplyResult, no_result, PolicyWeaverClient, file}
use fabric_unified_permissio.Weaver.{skip, filed, dispatch, dispatch_all, apply_diff, with_priv}

abbrev pub filed_count : ApplyResult → ℕ
filed_count r = length r.granted + length r.revoked + length r.skipped + length r.errors

length-snoc : (rs : List ApplyRecord) (r : ApplyRecord) → length (rs ++ (r ∷ [])) ≡ length rs + 1
length-snoc rs r = omega (arith, length-append {0} rs (r ∷ []))

filed_count-file :
    (r : ApplyResult) (k : Key) (out : Fields) → filed_count (file r k out) ≡ filed_count r + 1
unfolding file
filed_count-file r k out = grind (arith, length-snoc)

filed_count-skip :
    (r : ApplyResult) (k : Key) (why : String) → filed_count (skip r k why) ≡ filed_count r + 1
unfolding skip
filed_count-skip r k why = grind (arith, length-snoc)

-- If the call returns, it has filed `n` more.
abbrev Files {ℓ} : {T : Type ℓ} → ApplyResult → ℕ → Outcome ApplyResult × T → Type 0
Files r n (ok r', t) = filed_count r' ≡ filed_count r + n
Files r n (raised e, t) = Unit

filed-Files {ℓ} :
    {T : Type ℓ} (r : ApplyResult) (k : Key) (o : Outcome Fields × T) → Files r 1 (filed r k o)
unfolding filed
filed-Files r k (ok out, t) = filed_count-file r k out
filed-Files r k (raised e, t) = tt

Files-add {ℓ} :
    {T : Type ℓ} (r r' : ApplyResult) (m n : ℕ) (o : Outcome ApplyResult × T)
    → filed_count r' ≡ filed_count r + m
    → Files r' n o
    → Files r (m + n) o
Files-add r r' m n (ok q, t) h g = omega arith
Files-add r r' m n (raised e, t) h g = tt

module _ (S : Services) where
  with_priv-Files :
      (r : ApplyResult) (k : Key) (why : String) (o : Option String)
      (call : String → S.State → Outcome Fields × S.State) (s : S.State)
      → Files r 1 (with_priv S r k why o call s)
  unfolding with_priv
  with_priv-Files r k why none call s = filed_count-skip r k why
  with_priv-Files r k why (some priv) call s =
      if_rule (Files r 1) (is_empty priv) (filed_count-skip r k why) (filed-Files r k (call priv s))

  dispatch-Files :
      (c : PolicyWeaverClient) (p : CanonicalPermission) (target : String) (grant : Bool)
      (ctx : Fields) (r : ApplyResult) (s : S.State)
      → Files r 1 (dispatch S c p target grant ctx r s)
  unfolding dispatch
  dispatch-Files c p target grant ctx r s =
      if_rule (Files r 1) (target == "fabric") (filed-Files r (key p) _) (
        if_rule (Files r 1) (target == "unity_catalog") (with_priv-Files r (key p) _ _ _ s) (
          if_rule (Files r 1) (target == "snowflake") (with_priv-Files r (key p) _ _ _ s)
            (filed_count-skip r (key p) _)))

  Files-and_then :
      (r : ApplyResult) (m n : ℕ) (o : Outcome ApplyResult × S.State)
      (f : ApplyResult → S.State → Outcome ApplyResult × S.State)
      → Files r m o
      → ((r' : ApplyResult) (t : S.State) → Files r' n (f r' t))
      → Files r (m + n) (and_then o f)
  Files-and_then r m n (ok r', t) f h g = Files-add r r' m n (f r' t) h (g r' t)
  Files-and_then r m n (raised e, t) f h g = tt

  dispatch_all-Files :
      (c : PolicyWeaverClient) (ps : List CanonicalPermission) (target : String) (grant : Bool)
      (ctx : Fields) (r : ApplyResult) (s : S.State)
      → Files r (length ps) (dispatch_all S c ps target grant ctx r s)
  unfolding dispatch_all
  dispatch_all-Files c [] target grant ctx r s = omega arith
  dispatch_all-Files c (p ∷ ps) target grant ctx r s =
      subst
        (λ n. Files r n (
          and_then (dispatch S c p target grant ctx r s)
            (λ r' t. dispatch_all S c ps target grant ctx r' t)))
        (omega arith)
        (Files-and_then r 1 (length ps) _ _ (dispatch-Files c p target grant ctx r s)
          (λ r' t. dispatch_all-Files c ps target grant ctx r' t))

  apply_diff-Files :
      (c : PolicyWeaverClient) (diff : PermissionDiff) (target : String) (ctx : Fields)
      (s : S.State)
      → Files no_result
          (length diff.to_grant + length diff.to_revoke)
          (apply_diff S c diff target ctx s)
  unfolding apply_diff
  apply_diff-Files c diff target ctx s =
      Files-and_then no_result _ _ _ _
        (dispatch_all-Files c diff.to_grant target true ctx no_result s)
        (λ r t. dispatch_all-Files c diff.to_revoke target false ctx r t)

  -- If `apply_diff` returns, the four lists of its result together hold one record for each
  -- permission to grant and each to revoke.
  pub apply_diff_counts :
      (c : PolicyWeaverClient) (diff : PermissionDiff) (target : String) (ctx : Fields)
      (s t : S.State) (r : ApplyResult)
      → apply_diff S c diff target ctx s ≡ (ok r, t)
      → filed_count r ≡ length diff.to_grant + length diff.to_revoke
  apply_diff_counts c diff target ctx s t r h = omega (
    arith,
    subst (Files no_result (length diff.to_grant + length diff.to_revoke)) h
        (apply_diff-Files c diff target ctx s),
  )
