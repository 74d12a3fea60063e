-- ===== src/IdentityQueue.antt =====
-- app/services/identity_queue.py: principals that no Entra object was found for, as the table that
-- the program keeps in SQLite.
pub mod Laws
use fabric_unified_permissio.Base.{
  ℕ, ◌+◌, String, Bool, false, ◌&&◌, ◌||◌, List, [], ◌∷◌, ◌++◌, Option, none, some,
}
use fabric_unified_permissio.Base.{◌==◌, string_eq, if◌then◌else◌, eqb, any_of, count_of}
use fabric_unified_permissio.Base.Text.{is_empty}

pub record Entry : Type 0 where
  pub id : ℕ
  pub pairing_id : Option String
  pub principal : String
  pub principal_type : String
  pub source_platform : String
  pub reason : String
  pub status : String
  pub resolved_oid : Option String
  pub first_seen : ℕ
  pub last_seen : ℕ

-- The rows, with the identifier that the next one gets.
pub record Queue : Type 0 where
  pub next_id : ℕ
  pub entries : List Entry

-- What `enqueue` is called with.
pub record Unmapped : Type 0 where
  pub pairing_id : Option String
  pub principal : String
  pub principal_type : String
  pub source_platform : String
  pub reason : String

-- A NULL is equal to nothing in a UNIQUE constraint.
same_pairing : Option String → Option String → Bool
same_pairing none q = false
same_pairing (some p) none = false
same_pairing (some p) (some q) = p == q

-- `ON CONFLICT(pairing_id, principal, source_platform)`
pub clashes : Unmapped → Entry → Bool
unfolding same_pairing
clashes u e =
    same_pairing u.pairing_id e.pairing_id
    && u.principal == e.principal
    && u.source_platform == e.source_platform

abbrev pub refresh : ℕ → Unmapped → Entry → Entry
refresh now u e = record e { last_seen = now; reason = u.reason; principal_type = u.principal_type }

-- `DO UPDATE SET`, on the entry that clashes.
pub refreshed : ℕ → Unmapped → List Entry → List Entry
refreshed now u [] = []
refreshed now u (e ∷ es) =
    let rest = refreshed now u es in if clashes u e then refresh now u e ∷ es else e ∷ rest

abbrev pub new_entry : ℕ → ℕ → Unmapped → Entry
new_entry id now u = record {
  id = id;
  pairing_id = u.pairing_id;
  principal = u.principal;
  principal_type = u.principal_type;
  source_platform = u.source_platform;
  reason = u.reason;
  status = "unresolved";
  resolved_oid = none;
  first_seen = now;
  last_seen = now;
}

pub enqueue : ℕ → Unmapped → Queue → Queue
unfolding refreshed
enqueue now u q =
    if is_empty u.principal
    then q
    else if any_of (clashes u) q.entries
    then record q { entries = refreshed now u q.entries }
    else record { next_id = q.next_id + 1; entries = q.entries ++ (new_entry q.next_id now u ∷ []) }

-- `UPDATE identity_queue SET ... WHERE id=?`
pub update : (Entry → Entry) → ℕ → List Entry → List Entry
update f id [] = []
update f id (e ∷ es) = (if eqb e.id id then f e else e) ∷ update f id es

-- `cur.rowcount > 0`
abbrev pub has_id : ℕ → List Entry → Bool
has_id id = any_of (λ e. eqb e.id id)

abbrev pub resolve : ℕ → String → Queue → Bool × Queue
resolve id oid q = (
  has_id id q.entries,
  record q {
    entries = update (λ e. record e { status = "resolved"; resolved_oid = some oid }) id q.entries;
  },
)

abbrev pub ignore : ℕ → Queue → Bool × Queue
ignore id q = (
  has_id id q.entries,
  record q { entries = update (λ e. record e { status = "ignored" }) id q.entries },
)

-- `counts()[s]`
abbrev pub count : String → Queue → ℕ
count s q = count_of (λ e. e.status == s) q.entries
