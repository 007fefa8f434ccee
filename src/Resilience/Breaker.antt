-- ===== src/Resilience/Breaker.antt =====
-- resilience.py: `_CircuitState` and `CircuitBreaker`, the in-memory circuit of each source.
pub mod Laws
pub mod Trip
use football_prediction_craw.Prelude.{
  ℕ, ◌+◌, Bool, true, false, Option, none, some, String, ltb, leb, if◌then◌else◌, List, [], ◌∷◌,
}
use football_prediction_craw.Prelude.Dict.{Dict, lookup, insert}

pub record CircuitState : Type 0 where
  pub failures : ℕ
  pub opened_at : Option ℕ
  pub half_open : Bool

-- `_CircuitState()`
abbrev pub fresh : CircuitState
fresh = record { failures = 0; opened_at = none; half_open = false }

pub record CircuitBreaker : Type 0 where
  pub failure_threshold : ℕ
  pub recovery_seconds : ℕ
  pub states : Dict CircuitState

abbrev pub or_fresh : Option CircuitState → CircuitState
or_fresh none = fresh
or_fresh (some s) = s

-- the state that `_states.setdefault(source_id, _CircuitState())` returns
unfoldable pub state_of : String → CircuitBreaker → CircuitState
state_of source_id b = or_fresh (lookup source_id b.states)

unfoldable pub save : String → CircuitState → CircuitBreaker → CircuitBreaker
save source_id s b = record b { states = insert source_id s b.states }

-- one circuit's answer and its next state; `now - opened < recovery` without a difference
unfoldable pub allow : ℕ → ℕ → CircuitState → Bool × CircuitState
allow recovery now s = elim s.opened_at [
  | none ↦ (true, s)
  | some opened ↦
      if ltb now (opened + recovery)
      then (false, s)
      else if s.half_open
      then (false, s)
      else (true, record s { half_open = true })
]

unfoldable pub fail : ℕ → ℕ → CircuitState → CircuitState
fail threshold now s =
    let counted = record s { failures = s.failures + 1 } in
    if leb threshold counted.failures
    then record counted { opened_at = some now; half_open = false }
    else counted

unfoldable pub allow_request : String → ℕ → CircuitBreaker → Bool × CircuitBreaker
allow_request source_id now b =
    let (answer, s) = allow b.recovery_seconds now (state_of source_id b) in
    (answer, save source_id s b)

unfoldable pub record_failure : String → ℕ → CircuitBreaker → CircuitBreaker
record_failure source_id now b =
    save source_id (fail b.failure_threshold now (state_of source_id b)) b

unfoldable pub record_success : String → CircuitBreaker → CircuitBreaker
record_success source_id b = save source_id fresh b

-- The calls that a task makes, and a run of them.
pub data Call : Type 0 where
  allow_call : String → ℕ → Call
  failure_call : String → ℕ → Call
  success_call : String → Call

unfoldable pub call : Call → CircuitBreaker → CircuitBreaker
call (allow_call source_id now) b = (allow_request source_id now b).1
call (failure_call source_id now) b = record_failure source_id now b
call (success_call source_id) b = record_success source_id b

unfoldable pub calls : List Call → CircuitBreaker → CircuitBreaker
calls [] b = b
calls (c ∷ cs) b = calls cs (call c b)
