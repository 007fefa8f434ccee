-- ===== src/Resilience/Tests.antt =====
-- Runs of the resilience primitives, and the theorems at concrete inputs.
use football_prediction_craw.Prelude.{
  ℕ, ◌+◌, ◌-◌, ◌*◌, ◌≤◌, ◌<◌, ◌≡◌, refl, min, true, false, none, some, List, [], ◌∷◌, length, ltb,
  if◌then◌else◌, arith, inr, eq_iff, ◌^◌,
}
use football_prediction_craw.Prelude.Dict.{lookup}
use football_prediction_craw.Store.{Expiring}
use football_prediction_craw.Store.Sample.{server}
use football_prediction_craw.Resilience.Retry.{
  RetryPolicy, Outcome, returned, raised, response, connection_error, Trace, jitter_scale, backoff,
  delay_seconds, run_with_retry, should_request_human_review,
}
use football_prediction_craw.Resilience.Retry
use football_prediction_craw.Resilience.Retry.Delay.{backoff-suc}
use football_prediction_craw.Resilience.Retry.Loop.{
  retryable, run_with_retry_lem, access_control_is_final,
}
use football_prediction_craw.Resilience.Breaker.{
  CircuitBreaker, state_of, allow_request, record_success, Call, allow_call, failure_call,
  success_call, calls,
}
use football_prediction_craw.Resilience.Breaker.Laws.{IsValid, fresh-IsValid}
use football_prediction_craw.Resilience.Breaker.Trip.{
  record_failures, trips_at_threshold, one_probe,
}
use football_prediction_craw.Resilience.RateLimit.{RateLimiter, admitted}
use football_prediction_craw.Resilience.RateLimit.Window.{window_admits}
use football_prediction_craw.Resilience.RedisBreaker
use football_prediction_craw.Resilience.RedisBreaker.{CircuitDoc}
use football_prediction_craw.Resilience.RedisBreaker.Window
use football_prediction_craw.Resilience.RedisBreaker.Window.{
  window_after_failure, slow_failures_never_open,
}

abbrev policy : RetryPolicy
policy = record { max_attempts = 3; base_delay = 100; max_delay = 250 }

-- Two failures, then a value.
abbrev flaky : ℕ → Outcome ℕ
flaky n = if ltb n 2 then raised connection_error else returned 7

abbrev half_draw : ℕ → ℕ
half_draw n = 2 ^ 52

run-flaky : run_with_retry policy flaky half_draw ≡ (
  returned 7,
  record { calls = 3; draws = 2; pauses = 100 * jitter_scale ∷ 200 * jitter_scale ∷ [] },
)
unfolding run_with_retry Retry.is_transient Retry.slept Retry.pause backoff delay_seconds
    Retry.retry_after_seconds
run-flaky = refl

backoff-suc_example : backoff policy 3 ≡ min policy.max_delay (2 * backoff policy 2)
backoff-suc_example = backoff-suc policy 1

run_with_retry_lem_example :
    let (result, t) = run_with_retry policy flaky half_draw in
    (0 < t.calls)
    × (t.calls ≤ policy.max_attempts)
    × (length t.pauses + 1 ≡ t.calls)
    × (result ≡ flaky (t.calls - 1))
    × ((j : ℕ) → j + 1 < t.calls → retryable (flaky j) ≡ true)
    × (t.calls < policy.max_attempts → retryable result ≡ false)
run_with_retry_lem_example = run_with_retry_lem policy flaky half_draw (omega arith)

abbrev blocked : ℕ → Outcome ℕ
blocked n = raised (response 429 none "Please solve this CAPTCHA")

asks_for_human : should_request_human_review "Please solve this CAPTCHA" ≡ true
unfolding should_request_human_review
asks_for_human = refl

access_control_is_final_example : run_with_retry policy blocked half_draw ≡ (
  raised (response 429 none "Please solve this CAPTCHA"),
  record { calls = 1; draws = 0; pauses = [] },
)
access_control_is_final_example =
    access_control_is_final policy blocked half_draw 429 none "Please solve this CAPTCHA"
      (omega arith) refl (inr (inr asks_for_human))

abbrev breaker : CircuitBreaker
breaker = record { failure_threshold = 2; recovery_seconds = 60; states = [] }

breaker-IsValid : IsValid breaker
unfolding state_of lookup
breaker-IsValid k = fresh-IsValid 2

abbrev history : List Call
history =
    failure_call "a" 1
    ∷ failure_call "a" 5
    ∷ allow_call "a" 70
    ∷ allow_call "b" 71
    ∷ success_call "b"
    ∷ []

trips_at_threshold_example :
    (state_of "a" (record_failures "a" (1 ∷ 5 ∷ []) (record_success "a" breaker))).opened_at
    ≡ some 5
trips_at_threshold_example = trips_at_threshold "a" 1 (5 ∷ []) breaker

-- the circuit of "a", open since 5
abbrev open_breaker : CircuitBreaker
open_breaker = record {
  failure_threshold = 2;
  recovery_seconds = 60;
  states = ("a", record { failures = 2; opened_at = some 5; half_open = false }) ∷ [];
}

one_probe_example :
    ((allow_request "a" 65 open_breaker).0 ≡ true)
    × ((allow_request "a" 500 (
          calls
            (allow_call "a" 66 ∷ success_call "b" ∷ [])
            (allow_request "a" 65 open_breaker).1)).0
        ≡ false)
unfolding state_of lookup
one_probe_example =
    one_probe "a" 65 5 500 open_breaker (allow_call "a" 66 ∷ success_call "b" ∷ []) refl refl
      (omega arith) (tt, (λ e. ground (arith, eq_iff "b" "a"), tt))

abbrev limiter : RateLimiter
limiter = record { max_requests = 2; window_seconds = 10; windows = [] }

window_admits_example : (admitted "a" (3 ∷ 4 ∷ 12 ∷ []) limiter).0 ≡ min 3 2
unfolding lookup
window_admits_example = window_admits "a" 3 (4 ∷ 12 ∷ []) limiter refl (omega arith) (omega arith)

abbrev redis : Expiring CircuitDoc
redis = server

window_after_failure_example :
    RedisBreaker.allow_request redis 1 60 "a" 70 (RedisBreaker.record_failure redis 1 60 "a" 10 [])
    ≡ (true, RedisBreaker.record_failure redis 1 60 "a" 10 [])
window_after_failure_example =
    window_after_failure redis 1 60 "a" 10 70 [] (omega arith) (omega arith)

slow_failures_never_open_example :
    (RedisBreaker.allow_request redis 2 60 "a" 200
      (Window.record_failures redis 2 60 "a" (10 ∷ 80 ∷ 150 ∷ []) [])).0
    ≡ true
slow_failures_never_open_example =
    slow_failures_never_open redis 2 60 "a" 10 80 200 (150 ∷ []) [] (omega arith) (omega arith)
      (omega arith)
