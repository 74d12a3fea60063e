-- ===== src/Observability.antt =====
-- permission-sync/src/observability: the audit log and the counters of a run. Counters and times
-- are natural numbers here; the source counts in floats.
use fabric_unified_permissio.Base.{ℕ, ◌+◌, String, Bool, true, none, some, List, [], ◌∷◌, ◌++◌}
use fabric_unified_permissio.Base.{string_eq, length}
use fabric_unified_permissio.Base.Dict.{Dict, insert, lookup}
use fabric_unified_permissio.Base.Json.{str, Fields, field}
use fabric_unified_permissio.Reconciler.Diff.{Draws}

-- The lines of the file, each one a JSON object.
pub record AuditLogger : Type 0 where
  pub run_id : String
  pub lines : List Fields
  pub closed : Bool

-- `emit(**fields)`. Writing is taken to succeed; the source logs a failure and goes on.
pub emit : Draws → Fields → AuditLogger → AuditLogger
emit e fs a =
    let line = field "run_id" (str a.run_id) (
      field "event_id" (str (e.uuid4 (length a.lines)))
        (field "timestamp" (str (e.isoformat e.now)) fs)) in
    record a { lines = a.lines ++ (line ∷ []) }

abbrev pub close : AuditLogger → AuditLogger
close a = record a { closed = true }

abbrev pub Metrics : Type 0
Metrics = Dict String ℕ

-- `self._counters[name]` of a `defaultdict(float)`
abbrev pub counter : String → Metrics → ℕ
counter name m = elim (lookup name m) [ none ↦ 0 | some v ↦ v ]

pub inc : String → ℕ → Metrics → Metrics
inc name value m = insert name (counter name m + value) m

abbrev pub set : String → ℕ → Metrics → Metrics
set name value m = insert name value m
