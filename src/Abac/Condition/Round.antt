-- ===== src/Abac/Condition/Round.antt =====
-- How the tokens of a tag condition are read (app/services/abac_resolver.py).
use fabric_unified_permissio.Base.{
  String, Bool, ◌&&◌, ◌||◌, ◌≡◌, refl, List, [], ◌∷◌, Option, none, some, ◌∙◌, arith, any_of,
  all_of, ap,
}
use fabric_unified_permissio.Base.Dict.{Dict}
use fabric_unified_permissio.Abac.Condition.{
  Test, Expr, test, Token, call, and_word, or_word, holds, evaluate,
}
use fabric_unified_permissio.Abac.Condition.{
  Frame, fresh, join_and, join_or, Reader, reading, after, closed, read_all,
}

-- `t AND t ...` after a first test.
abbrev pub and_tail : List Test → List Token → List Token
and_tail [] rest = rest
and_tail (t ∷ ts) rest = and_word ∷ call t ∷ and_tail ts rest

-- `t AND ... OR t AND ...`: each group has a first test and more of them.
abbrev pub or_tail : List (Test × List Test) → List Token
or_tail [] = []
or_tail ((t, ts) ∷ groups) = or_word ∷ call t ∷ and_tail ts (or_tail groups)

abbrev pub all_hold : Dict String String → Test × List Test → Bool
all_hold tags (t, ts) = holds t tags && all_of (λ u. holds u tags) ts

-- The value of what is read, behind an operand outside every parenthesis.
abbrev pub value_of : Dict String String → Reader → Option Bool
value_of tags (after f e []) = some (evaluate (closed f e) tags)
value_of tags _ = none

module _ (tags : Dict String String) where
  join_and_value :
      (a : Option Expr) (e : Expr) (t : Test)
      → evaluate (join_and (some (join_and a e)) (test t)) tags
        ≡ (evaluate (join_and a e) tags && holds t tags)
  join_and_value a e t = refl

  -- Where the reader stands behind `AND t ...`.
  abbrev LandsAt : Frame → Expr → List Test → List Token → Type 0
  LandsAt f e ts rest =
      (g : Frame) × ((d : Expr) × ((read_all (after f e []) (and_tail ts rest)
            ≡ read_all (after g d []) rest)
          × ((g.ors ≡ f.ors)
              × (evaluate (join_and g.ands d) tags
                  ≡ (evaluate (join_and f.ands e) tags && all_of (λ u. holds u tags) ts)))))

  behind_ands : (f : Frame) (e : Expr) (ts : List Test) (rest : List Token) → LandsAt f e ts rest
  behind_ands f e [] rest = (f, (e, (refl, (refl, ground arith))))
  behind_ands f e (t ∷ ts) rest =
      let (g, (d, (r, (o, v)))) =
        behind_ands (record f { ands = some (join_and f.ands e) }) (test t) ts rest in
      (g, (d, (r, (o, v ∙ ground arith))))

  behind_ors :
      (f : Frame) (e : Expr) (groups : List (Test × List Test))
      → value_of tags (read_all (after f e []) (or_tail groups))
        ≡ some (evaluate (closed f e) tags || any_of (all_hold tags) groups)
  behind_ors f e [] = ap some (ground arith)
  behind_ors f e ((t, ts) ∷ groups) =
      let (g, (d, (r, (o, v)))) =
        behind_ands (record { ors = some (closed f e); ands = none }) (test t) ts
          (or_tail groups) in
      let here : evaluate (closed g d) tags
          ≡ (evaluate (closed f e) tags || all_hold tags (t, ts)) =
        ap (λ a. evaluate (join_or a (join_and g.ands d)) tags) o
        ∙ ap (λ b. evaluate (closed f e) tags || b) v in
      ap (value_of tags) r ∙ behind_ors g d groups ∙ ap some (rw here (ground arith))

  -- Without parentheses AND binds tighter than OR: a condition that joins groups of tests by OR, and
  -- the tests of a group by AND, is read, and it holds exactly if all tests of some group hold.
  pub groups_value :
      (t : Test) (ts : List Test) (groups : List (Test × List Test))
      → value_of tags (read_all (reading fresh []) (call t ∷ and_tail ts (or_tail groups)))
        ≡ some (any_of (all_hold tags) ((t, ts) ∷ groups))
  groups_value t ts groups =
      let (g, (d, (r, (o, v)))) = behind_ands fresh (test t) ts (or_tail groups) in
      let here : evaluate (closed g d) tags ≡ all_hold tags (t, ts) =
        ap (λ a. evaluate (join_or a (join_and g.ands d)) tags) o ∙ v in
      ap (value_of tags) r ∙ behind_ors g d groups ∙ ap some (rw here refl)
