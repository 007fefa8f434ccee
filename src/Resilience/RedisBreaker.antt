-- ===== src/Resilience/RedisBreaker.antt =====
-- resilience.py: `RedisCircuitBreaker`, over the expiring store of its parameter.
-- A stored value is the JSON object that its text denotes, with the three keys that the class
-- reads and writes; `{}` and a missing value have none of them. The callers' clock is the
-- server's clock.
pub mod Window
use football_prediction_craw.Prelude.{
  ℕ, ◌+◌, Bool, true, false, Option, none, some, String, str_eq, ltb, leb, if◌then◌else◌,
}
use football_prediction_craw.Store.{Expiring}
use text.Mathlib.Text
use Prim.Native.String

pub record CircuitDoc : Type 0 where
  pub failures : Option ℕ
  pub opened : Option ℕ
  pub half_open : Option Bool

-- `{}`
abbrev pub empty : CircuitDoc
empty = record { failures = none; opened = none; half_open = none }

-- `json.loads(value or "{}")`
abbrev pub or_empty : Option CircuitDoc → CircuitDoc
or_empty none = empty
or_empty (some d) = d

-- `state.get("half_open")` as a condition
abbrev pub is_true : Option Bool → Bool
is_true none = false
is_true (some b) = b

-- `int(state.get("failures", 0))`
abbrev pub or_zero : Option ℕ → ℕ
or_zero none = 0
or_zero (some n) = n

-- `f"circuit:{source_id}"`
unfoldable pub circuit_key : String → String
circuit_key source_id = String.◌++◌ "circuit:" source_id

module _ (redis : Expiring CircuitDoc) (threshold recovery_seconds : ℕ) where
  open redis use {State, get, set}

  unfoldable pub load : String → ℕ → State → CircuitDoc
  load source_id now s = or_empty (get now (circuit_key source_id) s)

  unfoldable pub allow_request : String → ℕ → State → Bool × State
  allow_request source_id now s =
      let state = load source_id now s in
      elim state.opened [
        | none ↦ (true, s)
        | some opened ↦
            if ltb now (opened + recovery_seconds)
            then (false, s)
            else if is_true state.half_open
            then (false, s)
            else (
              true,
              set now (circuit_key source_id) (record state { half_open = some true })
                  recovery_seconds s,
            )
      ]

  unfoldable pub failed : CircuitDoc → ℕ → CircuitDoc
  failed state now =
      let failures = or_zero state.failures + 1 in
      if leb threshold failures
      then record { failures = some failures; opened = some now; half_open = none }
      else record { failures = some failures; opened = none; half_open = none }

  unfoldable pub record_failure : String → ℕ → State → State
  record_failure source_id now s =
      set now (circuit_key source_id) (failed (load source_id now s) now) recovery_seconds s

  unfoldable pub record_success : String → ℕ → State → State
  record_success source_id now s = set now (circuit_key source_id) empty 1 s
