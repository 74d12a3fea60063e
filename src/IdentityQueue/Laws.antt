-- ===== src/IdentityQueue/Laws.antt =====
-- What the queue of app/services/identity_queue.py keeps.
use fabric_unified_permissio.Base.{
  ℕ, ◌+◌, String, Bool, true, false, ◌≡◌, refl, List, [], ◌∷◌, ◌++◌, none, some,
}
use fabric_unified_permissio.Base.{
  string_eq, any_of, length, arith, ==_refl, Bool-cases, inl, inr, if_rule, ◌∙◌, length-append,
}
use fabric_unified_permissio.Base.Text.{is_empty}
use fabric_unified_permissio.IdentityQueue.{
  Entry, Queue, Unmapped, clashes, refresh, refreshed, new_entry, enqueue, same_pairing,
}

clashes-refresh : (now : ℕ) (u : Unmapped) (e : Entry) → clashes u (refresh now u e) ≡ clashes u e
unfolding clashes
clashes-refresh now u e = refl

any_of-refreshed :
    (now : ℕ) (u : Unmapped) (es : List Entry)
    → any_of (clashes u) (refreshed now u es) ≡ any_of (clashes u) es
unfolding refreshed
any_of-refreshed now u [] = refl
any_of-refreshed now u (e ∷ es) = ground (arith, any_of-refreshed now u es, clashes-refresh now u e)

clashes-new_entry :
    (id now : ℕ) (u : Unmapped) (p : String)
    → u.pairing_id ≡ some p
    → clashes u (new_entry id now u) ≡ true
unfolding clashes same_pairing
clashes-new_entry id now u p h =
    rw (h, ==_refl p, ==_refl u.principal, ==_refl u.source_platform) refl

length-refreshed :
    (now : ℕ) (u : Unmapped) (es : List Entry) → length (refreshed now u es) ≡ length es
unfolding refreshed
length-refreshed now u [] = refl
length-refreshed now u (e ∷ es) = ground (arith, length-refreshed now u es)

any_of-snoc :
    (p : Entry → Bool) (es : List Entry) (e : Entry) → p e ≡ true → any_of p (es ++ (e ∷ [])) ≡ true
any_of-snoc p [] e h = rw h refl
any_of-snoc p (f ∷ es) e h = ground (arith, any_of-snoc p es e h)

-- Once queued for a pairing, a principal clashes with an entry.
enqueue-clashes :
    (now : ℕ) (u : Unmapped) (q : Queue) (p : String)
    → u.pairing_id ≡ some p
    → is_empty u.principal ≡ false
    → any_of (clashes u) (enqueue now u q).entries ≡ true
unfolding enqueue
enqueue-clashes now u q p h g = elim (Bool-cases (any_of (clashes u) q.entries)) [
  | inl e ↦ rw (g, e) (any_of-refreshed now u q.entries ∙ e)
  | inr e ↦
      rw (g, e)
        (any_of-snoc (clashes u) q.entries (new_entry q.next_id now u)
          (clashes-new_entry q.next_id now u p h))
]

enqueue_on_clash :
    (now : ℕ) (u : Unmapped) (q : Queue)
    → any_of (clashes u) q.entries ≡ true
    → length (enqueue now u q).entries ≡ length q.entries
unfolding enqueue
enqueue_on_clash now u q h =
    if_rule {A = Queue} (λ r. length r.entries ≡ length q.entries) (is_empty u.principal) refl
      (rw h (length-refreshed now u q.entries))

-- Queued again for the same pairing, a principal that is not empty gets no second entry.
pub enqueue-enqueue :
    (now later : ℕ) (u : Unmapped) (q : Queue) (p : String)
    → u.pairing_id ≡ some p
    → is_empty u.principal ≡ false
    → length (enqueue later u (enqueue now u q)).entries ≡ length (enqueue now u q).entries
enqueue-enqueue now later u q p h g =
    enqueue_on_clash later u (enqueue now u q) (enqueue-clashes now u q p h g)

never_clashes :
    (u : Unmapped) (es : List Entry) → u.pairing_id ≡ none → any_of (clashes u) es ≡ false
unfolding clashes same_pairing
never_clashes u [] h = refl
never_clashes u (e ∷ es) h = rw (h, never_clashes u es h) refl

-- Queued without a pairing, a principal that is not empty gets another entry every time.
pub enqueue_no_pairing :
    (now : ℕ) (u : Unmapped) (q : Queue)
    → u.pairing_id ≡ none
    → is_empty u.principal ≡ false
    → length (enqueue now u q).entries ≡ length q.entries + 1
unfolding enqueue
enqueue_no_pairing now u q h g = rw (g, never_clashes u q.entries h) (length-append q.entries _)
