-- ===== src/Abac/Resolve/Sound.antt =====
-- What a target of a policy meets (app/services/abac_resolver.py).
use fabric_unified_permissio.Base.{
  String, Bool, true, false, ◌≡◌, refl, ◌⊎◌, inl, inr, List, [], ◌∷◌, Option, none, some, All,
  All-append, All-imp, map, if◌then◌else◌,
}
use fabric_unified_permissio.Base.{if_rule, ◌==◌, string_eq, subst, any_of}
use fabric_unified_permissio.Base.Dict.{Dict, lookup, values}
use fabric_unified_permissio.Base.Json.{Json, text_of}
use fabric_unified_permissio.Base.Outcome.{Outcome, ok, Ensures, Ensures-self, Ensures-bind}
use fabric_unified_permissio.Abac.Parse.{Python, TagCondition}
use fabric_unified_permissio.Abac.Resolve.{
  Tags, GovernedTags, effective_table_tags, lower_keys, ResolvedTarget, Policy, mask_target,
  targets_of, masked_columns, either_of,
}
use fabric_unified_permissio.Abac.Resolve.{
  matching, alias_matches, at_table, resolve_tables, read_policy, with_policy, resolve_policy,
  policy_kind, candidate_tables,
}

kept_column :
    (holds : String → Outcome Bool) (c : String) (rest : List String) (b : Bool)
    → holds c ≡ ok b
    → All (λ c. holds c ≡ ok true) rest
    → All (λ c. holds c ≡ ok true) (if b then c ∷ rest else rest)
kept_column holds c rest true h g = (h, g)
kept_column holds c rest false h g = g

matching-Ensures :
    (holds : String → Outcome Bool) (cs : List String)
    → Ensures (All (λ c. holds c ≡ ok true)) (matching holds cs)
unfolding matching
matching-Ensures holds [] = tt
matching-Ensures holds (c ∷ cs) =
    let P : List String → Type 0 = All (λ c. holds c ≡ ok true) in
    Ensures-bind (λ b. holds c ≡ ok b) P (holds c) _ (Ensures-self (holds c))
      (λ b h.
        Ensures-bind P P (matching holds cs) _ (matching-Ensures holds cs)
          (λ rest g. kept_column holds c rest b h g))

-- Some condition of the policy holds for a column.
abbrev pub Matched : Dict String TagCondition → (String → Tags) → String → Type 0
Matched [] tags c = ⊥
Matched ((a, cond) ∷ d) tags c = (cond.predicate (lower_keys (tags c)) ≡ ok true) ⊎ Matched d tags c

abbrev AllColumns : (String → Type 0) → Dict String (List String) → Type 0
AllColumns P d = All (λ e. All P e.1) d

alias_matches-Ensures :
    (d : Dict String TagCondition) (tags : String → Tags) (columns : List String)
    → Ensures (AllColumns (Matched d tags)) (alias_matches d tags columns)
unfolding alias_matches
alias_matches-Ensures [] tags columns = tt
alias_matches-Ensures ((a, cond) ∷ d) tags columns =
    let P : Dict String (List String) → Type 0 = AllColumns (Matched ((a, cond) ∷ d) tags) in
    Ensures-bind (All (λ c. cond.predicate (lower_keys (tags c)) ≡ ok true)) P
      (matching (λ c. cond.predicate (lower_keys (tags c))) columns) _ (matching-Ensures _ columns)
      (λ matched hm.
        Ensures-bind (AllColumns (Matched d tags)) P (alias_matches d tags columns) _
          (alias_matches-Ensures d tags columns)
          (λ rest hr. (
            All-imp _ (Matched ((a, cond) ∷ d) tags) matched (λ c h. inl h) hm,
            All-imp _ _ rest (λ e h. All-imp _ (Matched ((a, cond) ∷ d) tags) e.1 (λ c k. inr k) h)
                hr,
          )))

abbrev All? : (String → Type 0) → Option (List String) → Type 0
All? P none = Unit
All? P (some cs) = All P cs

masked-All :
    (P : String → Type 0) (o : Option (List String)) (d : Dict String (List String))
    → All? P o
    → AllColumns P d
    → All P (masked_columns o d)
masked-All P (some (c ∷ cs)) d h g = h
masked-All P (some []) [] h g = tt
masked-All P (some []) (e ∷ d) h g = g.0
masked-All P none [] h g = tt
masked-All P none (e ∷ d) h g = g.0

lookup-All :
    (P : String → Type 0) (k : String) (d : Dict String (List String))
    → AllColumns P d
    → All? P (lookup k d)
unfolding lookup
lookup-All P k [] h = tt
lookup-All P k ((a, xs) ∷ d) h =
    if_rule (All? P) (k == a) {x = some xs} {y = lookup k d} h.0 (lookup-All P k d h.1)

map-All {ℓ κ} :
    {A : Type ℓ} {B : Type κ} (P : A → Type 0) (Q : B → Type 0) (f : A → B)
    → ((a : A) → P a → Q (f a))
    → (xs : List A) → All P xs
    → All Q (map f xs)
map-All P Q f g [] h = tt
map-All P Q f g (x ∷ xs) (hx, h) = (g x hx, map-All P Q f g xs h)

module _ (g : GovernedTags) (columns_by_table : String → String → List String) (p : Policy) where
  -- The policy's condition holds for the tags of the target's table, and a masked column meets one of
  -- its conditions on columns.
  abbrev pub Meets : ResolvedTarget → Type 0
  Meets t =
      (p.when.predicate (lower_keys (effective_table_tags g t.schema t.table)) ≡ ok true)
      × ((t.constraint_kind ≡ "row_filter")
          ⊎ (Matched p.conditions (g.column t.schema t.table) t.column))

  targets-Meets :
      (s t : String) (d : Dict String (List String))
      → p.when.predicate (lower_keys (effective_table_tags g s t)) ≡ ok true
      → AllColumns (Matched p.conditions (g.column s t)) d
      → All Meets (targets_of p (s, t) d)
  targets-Meets s t d hw hd =
      let o = lookup (text_of (either_of p.spec "on_column" "onColumn")) d in
      if_rule (All Meets) (any_of _ (values d)) tt (
        if_rule (All Meets) (p.kind == "column_mask")
          (map-All (Matched p.conditions (g.column s t)) Meets (mask_target p (s, t))
            (λ c h. (hw, inr h)) (masked_columns o d) (masked-All _ o d (lookup-All _ _ d hd) hd))
          ((hw, inl refl), tt))

  at_table-Meets :
      (s t : String) (b : Bool)
      → p.when.predicate (lower_keys (effective_table_tags g s t)) ≡ ok b
      → Ensures (All Meets) (at_table g columns_by_table p (s, t) b)
  unfolding at_table
  at_table-Meets s t false h = tt
  at_table-Meets s t true h =
      Ensures-bind (AllColumns (Matched p.conditions (g.column s t))) (All Meets)
        (alias_matches p.conditions (g.column s t) (columns_by_table s t)) _
        (alias_matches-Ensures p.conditions (g.column s t) (columns_by_table s t))
        (λ d hd. targets-Meets s t d h hd)

  resolve_tables-Meets :
      (places : List (String × String))
      → Ensures (All Meets) (resolve_tables g columns_by_table p places)
  unfolding resolve_tables
  resolve_tables-Meets [] = tt
  resolve_tables-Meets ((s, t) ∷ places) =
      let now : Outcome Bool = p.when.predicate (lower_keys (effective_table_tags g s t)) in
      Ensures-bind (λ b. now ≡ ok b) (All Meets) now _ (Ensures-self now)
        (λ b h.
          Ensures-bind (All Meets) (All Meets) (at_table g columns_by_table p (s, t) b) _
            (at_table-Meets s t b h)
            (λ here hh.
              Ensures-bind (All Meets) (All Meets) (resolve_tables g columns_by_table p places) _
                (resolve_tables-Meets places) (λ rest hr. All-append Meets here rest hh hr)))

module _ (py : Python) (g : GovernedTags) (tables_by_schema : Dict String (List String))
    (columns_by_table : String → String → List String) where
  resolve_policy-Meets :
      (policy : Json) (p : Policy) (r : Outcome Policy)
      → r ≡ ok p
      → Ensures
          (All (Meets g columns_by_table p))
          (with_policy py g tables_by_schema columns_by_table policy r)
  unfolding with_policy
  resolve_policy-Meets policy p r h =
      rw h (resolve_tables-Meets g columns_by_table p (candidate_tables policy tables_by_schema))

  -- Every target of a policy lies in a table whose inherited tags meet the condition of the policy,
  -- and a column that it masks has tags that meet one of the policy's conditions on columns.
  pub resolve_policy_sound :
      (policy : Json) (p : Policy) (targets : List ResolvedTarget)
      → read_policy py policy ≡ ok p
      → resolve_policy py g tables_by_schema columns_by_table policy ≡ ok targets
      → All (Meets g columns_by_table p) targets
  unfolding resolve_policy
  resolve_policy_sound policy p targets hp h =
      subst (Ensures (All (Meets g columns_by_table p))) h (
        if_rule (Ensures (All (Meets g columns_by_table p))) (policy_kind policy == "") tt
          (resolve_policy-Meets policy p (read_policy py policy) hp))
