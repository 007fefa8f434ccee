-- ===== src/Metrics/Recording.antt =====
-- `RedisMetricsStore` of metrics.py.
use Prim.Native.String
use football_prediction_craw.Prelude.{
  ℕ, Bool, true, false, not, ◌&&◌, ◌||◌, String, if◌then◌else◌, leb,
}
use football_prediction_craw.Prelude.Dict.{Dict}
use football_prediction_craw.Prelude.Exec.{Exec, raise, modify}
use football_prediction_craw.Moment.{DateTime}
use football_prediction_craw.Patterns.{is_source_id}
use football_prediction_craw.Observability.{RunOutcome, outcome_value, succeeded, failed, skipped}
use football_prediction_craw.Observability.Json.{Number}
use football_prediction_craw.Metrics.Hashes.{MetricsRedis}

-- `ValueError`
pub data Error : Type 0 where
  value_error : Error

-- Python's integers
pub data ℤ : Type 0 where
  pos : ℕ → ℤ
  negsuc : ℕ → ℤ

-- `queueing.QueueDepths`
pub record QueueDepths : Type 0 where
  pub http : ℕ
  pub browser : ℕ

pub record MetricsSnapshot : Type 0 where
  pub sources : Dict (Dict String)
  pub queue_depths : QueueDepths

unfoldable pub is_negative : ℤ → Bool
is_negative (pos n) = false
is_negative (negsuc n) = true

-- a number that passed its check
unfoldable pub amount_of : ℤ → ℕ
amount_of (pos n) = n
amount_of (negsuc n) = 0

unfoldable pub is_http_status : ℤ → Bool
is_http_status (pos n) = leb 100 n && leb n 599
is_http_status (negsuc n) = false

abbrev pub sources_key : String
sources_key = "crawler:metrics:sources"

-- `_source_key`
unfoldable pub source_key : String → String
source_key source_id = String.◌++◌ "crawler:metrics:source:" source_id

-- `f"run_total:{outcome.value}"`
abbrev pub run_total : RunOutcome → String
run_total outcome = String.◌++◌ "run_total:" (outcome_value outcome)

-- `timestamp` is `str(current.timestamp())`.
module _ (redis : MetricsRedis) (timestamp : DateTime → String) where
  abbrev pub Step : Type 0
  Step = Exec Error redis.State (Unit {0})

  -- an operation whose checks pass only when the source's name and its arguments do
  unfoldable pub guarded : Bool → (redis.State → redis.State) → Step
  guarded passes change = if passes then modify change else raise value_error

  -- `_register`
  unfoldable pub register : String → redis.State → redis.State
  register source_id = redis.sadd sources_key source_id

  -- the writes of `record_run` that follow the first counter
  unfoldable pub count_failure : String → RunOutcome → redis.State → redis.State
  count_failure key failed s = redis.hincrby key "run_failed_total" 1 s
  count_failure key succeeded s = s
  count_failure key skipped s = s

  unfoldable pub note_success : String → RunOutcome → DateTime → redis.State → redis.State
  note_success key succeeded current s =
      redis.hset key "last_success_timestamp" (timestamp current) s
  note_success key failed current s = s
  note_success key skipped current s = s

  unfoldable pub gauges : String → Number → Number → String → redis.State → redis.State
  gauges key duration item_count run_id s = redis.hset key "last_run_id" run_id (
      redis.hset key "items_found" item_count.literal
        (redis.hset key "run_duration_seconds" duration.literal s))

  unfoldable pub run_writes :
      String → String → RunOutcome → Number → Number → DateTime → redis.State → redis.State
  unfolding register count_failure note_success gauges
  run_writes source_id run_id outcome duration item_count current s =
      note_success (source_key source_id) outcome current (
        gauges (source_key source_id) duration item_count run_id (
          count_failure (source_key source_id) outcome
            (redis.hincrby (source_key source_id) (run_total outcome) 1 (register source_id s))))

  -- `record_run`
  unfoldable pub record_run : String → String → RunOutcome → Number → Number → DateTime → Step
  unfolding guarded run_writes
  record_run source_id run_id outcome duration item_count current =
      guarded (is_source_id source_id && not (duration.is_negative || item_count.is_negative))
        (run_writes source_id run_id outcome duration item_count current)

  -- `record_http_status`
  unfoldable pub record_http_status : String → ℤ → Step
  unfolding guarded register
  record_http_status source_id status_code =
      guarded (is_source_id source_id && is_http_status status_code) (λ s.
        redis.hincrby (source_key source_id)
          (String.◌++◌ "http_status:" (redis.decimal (amount_of status_code))) 1
          (register source_id s))

  -- `record_items`
  unfoldable pub record_items : String → ℤ → ℤ → Step
  unfolding guarded register
  record_items source_id created updated =
      guarded (is_source_id source_id && not (is_negative created || is_negative updated)) (λ s.
        redis.hincrby (source_key source_id) "items_updated" (amount_of updated) (
          redis.hincrby (source_key source_id) "items_created" (amount_of created)
            (register source_id s)))

  -- `_increment`
  unfoldable pub increment : String → String → Step
  unfolding guarded register
  increment source_id field =
      guarded (is_source_id source_id)
        (λ s. redis.hincrby (source_key source_id) field 1 (register source_id s))

  -- `record_parse_error`
  unfoldable pub record_parse_error : String → Step
  unfolding increment
  record_parse_error source_id = increment source_id "parse_error_total"

  -- `record_lock_skip`
  unfoldable pub record_lock_skip : String → Step
  unfolding increment
  record_lock_skip source_id = increment source_id "lock_skip_total"

  -- `record_circuit_breaker`
  unfoldable pub record_circuit_breaker : String → Bool → Step
  unfolding guarded register
  record_circuit_breaker source_id is_open = guarded (is_source_id source_id) (λ s.
      redis.hset (source_key source_id) "circuit_breaker_state" (if is_open then "1" else "0")
        (register source_id s))
