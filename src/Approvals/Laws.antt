-- ===== src/Approvals/Laws.antt =====
-- What a decision of app/services/approvals.py settles.
use fabric_unified_permissio.Base.{ℕ, String, Bool, true, false, ◌≡◌, refl, List, [], ◌∷◌}
use fabric_unified_permissio.Base.{string_eq, if◌then◌else◌, any_of, arith, text_ne, ==_refl}
use fabric_unified_permissio.Base.{
  Option, none, some, if_true, if_false, ◌==◌, ◌++◌, Bool-cases, inl, inr,
}
use fabric_unified_permissio.Approvals.{
  Wanted, requested, create_request, Approval, decidable, decided, decide_rows, decide, get,
  mark_executed,
}

decided_no_more :
    (id by : String) (approved : Bool) (now : ℕ) (a : Approval)
    → decidable id (if decidable id a then decided approved by now a else a) ≡ false
decided_no_more id by true now a = ground (arith, text_ne "approved" "pending" refl)
decided_no_more id by false now a = ground (arith, text_ne "rejected" "pending" refl)

module _ (id by by' : String) (approved approved' : Bool) (now now' : ℕ) where
  none_left :
      (table : List Approval) → any_of (decidable id) (decide_rows id approved by now table) ≡ false
  unfolding decide_rows
  none_left [] = refl
  none_left (a ∷ table) = rw (decided_no_more id by approved now a, none_left table) refl

  same_rows :
      (table : List Approval)
      → decide_rows id approved' by' now' (decide_rows id approved by now table)
        ≡ decide_rows id approved by now table
  unfolding decide_rows
  same_rows [] = refl
  same_rows (a ∷ table) = rw (decided_no_more id by approved now a, same_rows table) refl

  -- A request that has been decided is not decided again: the second call returns False and changes
  -- nothing, whatever it says.
  pub decide-decide :
      (table : List Approval)
      → decide id approved' by' now' (decide id approved by now table).1
        ≡ (false, (decide id approved by now table).1)
  unfolding decide
  decide-decide table = rw (none_left table, same_rows table) refl

-- What a lookup gives after `mark_executed`.
pub get-mark_executed {ℓ} :
    (P : Option Approval → Type ℓ) (id : String)
    → P none
    → ((a : Approval) → P (some (record a { status = "executed" })))
    → (table : List Approval) → P (get id (mark_executed id table))
unfolding get mark_executed
get-mark_executed P id hn ha [] = hn
get-mark_executed P id hn ha (a ∷ table) =
    let rest = get id (mark_executed id table) in
    let Q : Approval → Type ℓ = λ b. P (if b.id == id then some b else rest) in
    elim (Bool-cases (a.id == id)) [
      | inl h ↦ if_true Q (a.id == id) a h (if_true P (a.id == id) rest h (ha a))
      | inr h ↦
          if_false Q (a.id == id) _ h
            (if_false P (a.id == id) _ h (get-mark_executed P id hn ha table))
    ]

get-decide_rows :
    (id by : String) (approved : Bool) (now : ℕ) (a : Approval)
    → decidable id a ≡ true
    → (table : List Approval) → any_of (λ b. b.id == id) table ≡ false
    → get id (decide_rows id approved by now (table ++ (a ∷ []))) ≡ some (decided approved by now a)
unfolding get decide_rows
get-decide_rows id by approved now a ha [] h =
    let same : (a.id == id) ≡ true = ground arith in rw (ha, same) refl
get-decide_rows id by approved now a ha (b ∷ table) h =
    let other : (b.id == id) ≡ false = ground arith in
    let rest : any_of (λ b. b.id == id) table ≡ false = ground arith in
    rw (other, other, get-decide_rows id by approved now a ha table rest) refl

new_decidable : (id : String) (now : ℕ) (w : Wanted) → decidable id (requested id now w) ≡ true
new_decidable id now w = rw (==_refl id, ==_refl {A = String} "pending") refl

-- A request with a new identifier is found as it was decided.
pub get-decide :
    (id by : String) (approved : Bool) (now now' : ℕ) (w : Wanted) (table : List Approval)
    → any_of (λ b. b.id == id) table ≡ false
    → get id (decide id approved by now' (create_request id now w table)).1
      ≡ some (decided approved by now' (requested id now w))
unfolding decide create_request
get-decide id by approved now now' w table h =
    get-decide_rows id by approved now' (requested id now w) (new_decidable id now w) table h
