-- ===== src/Resilience/Retry.antt =====
-- resilience.py: `RetryPolicy`, `ResponseFailure`, `run_with_retry`, `should_request_human_review`.
-- A configured delay is a number of milliseconds. A jitter draw is a Python random number, a
-- multiple `r / 2^53` with `r < 2^53`, so a pause is an exact number of `2^-53` milliseconds.
pub mod Delay
pub mod Loop
use football_prediction_craw.Prelude.{
  ℕ, zero, suc, ◌+◌, ◌-◌, ◌*◌, ◌^◌, min, Bool, true, false, ◌&&◌, ◌||◌, not, Option, none, some,
  List, [], ◌∷◌, ◌++◌, String, ◌==◌, any, if◌then◌else◌,
}
use football_prediction_craw.Prelude.Text.{codes, lower, contains, is_digit, full_match}

-- what the wrapped operation may raise
pub data Failure : Type 0 where
  response : ℕ → Option String → String → Failure
  connection_error : Failure
  -- any other exception, by an opaque number
  other : ℕ → Failure
  -- `RuntimeError("retry loop exhausted")`
  exhausted : Failure

pub data Outcome (T : Type 0) : Type 0 where
  returned : T → Outcome T
  raised : Failure → Outcome T

pub record RetryPolicy : Type 0 where
  pub max_attempts : ℕ
  pub base_delay : ℕ
  pub max_delay : ℕ

-- `x in {...}` for an optional number
unfoldable pub one_of : Option ℕ → List ℕ → Bool
one_of none set = false
one_of (some n) set = any (λ m. n == m) set

pub is_connection_error : Option Failure → Bool
is_connection_error (some connection_error) = true
is_connection_error _ = false

unfoldable pub should_retry : Option ℕ → Option Failure → Bool
unfolding one_of is_connection_error
should_retry status error =
    if one_of status (401 ∷ 403 ∷ [])
    then false
    else one_of status (429 ∷ 502 ∷ 503 ∷ []) || is_connection_error error

abbrev pub jitter_scale : ℕ
jitter_scale = 2 ^ 53

-- The delay before jitter, in milliseconds; `attempt` counts from 1, as in `run_with_retry`.
unfoldable pub backoff : RetryPolicy → ℕ → ℕ
backoff policy attempt = min policy.max_delay (policy.base_delay * 2 ^ (attempt - 1))

-- `delay * (0.5 + r / 2^53)`
unfoldable pub delay_seconds : RetryPolicy → ℕ → ℕ → ℕ
delay_seconds policy attempt r = backoff policy attempt * (2 ^ 52 + r)

-- the value of a decimal numeral
decimal : ℕ → List ℕ → ℕ
decimal n [] = n
decimal n (c ∷ cs) = decimal (n * 10 + (c - b'0')) cs

-- `int(value)` when `value.isdigit()`; in whole seconds
unfoldable pub retry_after_seconds : Option String → Option ℕ
unfolding decimal is_digit full_match
retry_after_seconds none = none
retry_after_seconds (some value) =
    if full_match is_digit (codes value) then some (decimal 0 (codes value)) else none

unfoldable pub should_request_human_review : String → Bool
unfolding contains lower
should_request_human_review body =
    let lowered = lower (codes body) in
    contains (codes "captcha") lowered || contains (codes "access denied") lowered

-- What one run of the loop has done: calls of the operation, jitter draws, and the pauses.
pub record Trace : Type 0 where
  pub calls : ℕ
  pub draws : ℕ
  pub pauses : List ℕ

-- The two `except` clauses: whether the exception may be followed by another attempt.
unfoldable pub is_transient : Failure → Bool
is_transient (response status retry_after body) =
    not (should_request_human_review body) && should_retry (some status) none
is_transient connection_error = true
is_transient (other n) = false
is_transient exhausted = false

-- The argument of `sleep_seconds`, and whether a jitter value was drawn for it.
unfoldable pub pause : RetryPolicy → ℕ → ℕ → Option String → ℕ × ℕ
pause policy attempt r header = elim (retry_after_seconds header) [
  | some seconds ↦ (seconds * 1000 * jitter_scale, 0)
  | none ↦ (delay_seconds policy attempt r, 1)
]

pub header_of : Failure → Option String
header_of (response status retry_after body) = retry_after
header_of _ = none

module _ {T : Type 0} (policy : RetryPolicy) (operation : ℕ → Outcome T) (random : ℕ → ℕ) where
  -- `sleep_seconds(...)` after a failed attempt
  unfoldable pub slept : ℕ → Failure → Trace → Trace
  unfolding header_of
  slept attempt error t =
      let (length, drawn) = pause policy attempt (random t.draws) (header_of error) in
      record t { draws = t.draws + drawn; pauses = t.pauses ++ length ∷ [] }

  -- `for attempt in range(attempt, max_attempts + 1)`, with the number of attempts left
  unfoldable pub attempts : ℕ → ℕ → Trace → Outcome T × Trace
  attempts zero attempt t = (raised exhausted, t)
  attempts (suc left) attempt t = elim (operation t.calls) [
    | returned value ↦ (returned value, record t { calls = t.calls + 1 })
    | raised error ↦
        let called = record t { calls = t.calls + 1 } in
        let again = attempts left (attempt + 1) (slept attempt error called) in
        if is_transient error && not (attempt == policy.max_attempts)
        then again
        else (raised error, called)
  ]

  unfoldable pub run_with_retry : Outcome T × Trace
  unfolding attempts
  run_with_retry = attempts policy.max_attempts 1 (record { calls = 0; draws = 0; pauses = [] })
