-- ===== src/Metrics/Totals.antt =====
-- After any calls of the store, each counter is the total of what the calls add (metrics.py).
use Prim.Native.String
use football_prediction_craw.Prelude.{
  ℕ, ◌+◌, ◌≡◌, subst, Bool, true, false, not, ◌&&◌, ◌||◌, List, [], ◌∷◌, String, if◌then◌else◌,
  arith, str_eq,
}
use football_prediction_craw.Moment.{DateTime}
use football_prediction_craw.Patterns.{is_source_id}
use football_prediction_craw.Observability.{RunOutcome, succeeded, failed, skipped}
use football_prediction_craw.Observability.Json.{Number}
use football_prediction_craw.Metrics.Hashes.{MetricsRedis}
use football_prediction_craw.Metrics.Recording.{
  ℤ, is_negative, amount_of, is_http_status, sources_key, source_key, run_total, Step, guarded,
  register, count_failure, note_success, gauges, run_writes, record_run, record_http_status,
  record_items, increment, record_parse_error, record_lock_skip, record_circuit_breaker,
}
use football_prediction_craw.Metrics.Counting.{
  Counter, field_of, Event, run, http_status, items, parse_error, lock_skip, circuit_breaker, adds,
  is_accepted, counted, total, key-str_eq, Reads, hset-Reads, sadd-Reads, hincrby-Reads,
}
use football_prediction_craw.Metrics.Fields.{
  one_if, failure_adds, counted_run, counted_items, counted_parse_error, counted_lock_skip,
  status_apart, duration_apart, found_apart, run_id_apart, success_apart, breaker_apart,
}

module _ (redis : MetricsRedis) (timestamp : DateTime → String) where
  -- one call
  unfoldable pub perform : String → Event → Step redis timestamp
  perform name (run run_id outcome d n t) = record_run redis timestamp name run_id outcome d n t
  perform name (http_status code) = record_http_status redis timestamp name code
  perform name (items created updated) = record_items redis timestamp name created updated
  perform name parse_error = record_parse_error redis timestamp name
  perform name lock_skip = record_lock_skip redis timestamp name
  perform name (circuit_breaker is_open) = record_circuit_breaker redis timestamp name is_open

  -- calls in a row; what one of them raises does not stop the others
  unfoldable pub perform_all : List (String × Event) → redis.State → redis.State
  unfolding perform
  perform_all [] s = s
  perform_all ((name, e) ∷ calls) s = perform_all calls (perform name e s).1

  module _ (source_id : String) (c : Counter) where
    -- the counter of the source reads a number
    abbrev pub Counts : ℕ → redis.State → Type 0
    Counts = Reads redis (source_key source_id) (field_of c)

    renumber : {m n : ℕ} (s : redis.State) → m ≡ n → Counts m s → Counts n s
    renumber s e = subst (λ k. Counts k s) e

    -- a call that changes the counter by a number, if its checks pass and its source is the one
    guarded-Counts :
        (name : String) (passes : Bool) (a m : ℕ) (change : redis.State → redis.State)
        (s : redis.State)
        → (Counts m s → Counts (m + (if str_eq name source_id then a else 0)) (change s))
        → Counts m s
        → Counts
            (m + (if str_eq name source_id && passes then a else 0))
            (guarded redis timestamp passes change s).1
    unfolding guarded
    guarded-Counts name true a m change s step h = renumber _ (ground arith) (step h)
    guarded-Counts name false a m change s step h = renumber _ (ground arith) h

    -- an increment by a call for a source
    incremented :
        (name field : String) (a m : ℕ) (s : redis.State)
        → Counts m s
        → Counts
            (m
              + (if str_eq name source_id then (if str_eq field (field_of c) then a else 0) else 0))
            (redis.hincrby (source_key name) field a s)
    incremented name field a m s h =
        renumber _ (ground (arith, key-str_eq name source_id))
          (hincrby-Reads redis (source_key source_id) (source_key name) field (field_of c) a m s h)

    registered :
        (name : String) (m : ℕ) (s : redis.State)
        → Counts m s
        → Counts m (register redis timestamp name s)
    unfolding register
    registered name m s = sadd-Reads redis (source_key source_id) sources_key name (field_of c) m s

    gauge-Counts :
        (name field value : String) (m : ℕ) (s : redis.State)
        → str_eq field (field_of c) ≡ false
        → Counts m s
        → Counts m (redis.hset (source_key name) field value s)
    gauge-Counts name field value m s apart =
        hset-Reads redis (source_key source_id) (source_key name) field value (field_of c) m s apart

    -- the first and the second counter of a run
    failure-Counts :
        (name : String) (outcome : RunOutcome) (m : ℕ) (s : redis.State)
        → Counts m s
        → Counts
            (m + (if str_eq name source_id then failure_adds outcome c else 0))
            (count_failure redis timestamp (source_key name) outcome s)
    unfolding count_failure failure_adds
    failure-Counts name succeeded m s h = renumber _ (ground arith) h
    failure-Counts name skipped m s h = renumber _ (ground arith) h
    failure-Counts name failed m s h = incremented name "run_failed_total" 1 m s h

    success-Counts :
        (name : String) (outcome : RunOutcome) (t : DateTime) (m : ℕ) (s : redis.State)
        → Counts m s
        → Counts m (note_success redis timestamp (source_key name) outcome t s)
    unfolding note_success
    success-Counts name succeeded t m s h =
        gauge-Counts name "last_success_timestamp" (timestamp t) m s (success_apart c) h
    success-Counts name failed t m s h = h
    success-Counts name skipped t m s h = h

    gauges-Counts :
        (name : String) (d n : Number) (run_id : String) (m : ℕ) (s : redis.State)
        → Counts m s
        → Counts m (gauges redis timestamp (source_key name) d n run_id s)
    unfolding gauges
    gauges-Counts name d n run_id m s h =
        gauge-Counts name "last_run_id" run_id m _ (run_id_apart c) (
          gauge-Counts name "items_found" n.literal m _ (found_apart c)
            (gauge-Counts name "run_duration_seconds" d.literal m s (duration_apart c) h))

    run-Counts :
        (name run_id : String) (outcome : RunOutcome) (d n : Number) (t : DateTime) (m : ℕ)
        (s : redis.State)
        → Counts m s
        → Counts
            (m + (if str_eq name source_id then adds (run run_id outcome d n t) c else 0))
            (run_writes redis timestamp name run_id outcome d n t s)
    unfolding run_writes
    run-Counts name run_id outcome d n t m s h =
        let first = incremented name (run_total outcome) 1 m _ (registered name m s h) in
        let second = failure-Counts name outcome _ _ first in
        renumber _ (ground (arith, counted_run run_id d n t outcome c))
          (success-Counts name outcome t _ _ (gauges-Counts name d n run_id _ _ second))

    items-Counts :
        (name : String) (created updated : ℤ) (m : ℕ) (s : redis.State)
        → Counts m s
        → Counts (m + (if str_eq name source_id then adds (items created updated) c else 0)) (
            redis.hincrby (source_key name) "items_updated" (amount_of updated) (
              redis.hincrby
                (source_key name)
                "items_created"
                (amount_of created)
                (register redis timestamp name s)))
    items-Counts name created updated m s h =
        renumber _ (ground (arith, counted_items created updated c)) (
          incremented name "items_updated" (amount_of updated) _ _
            (incremented name "items_created" (amount_of created) m _ (registered name m s h)))

    increment-Counts :
        (name field : String) (m : ℕ) (s : redis.State)
        → Counts m s
        → Counts
            (m + (if str_eq name source_id && is_source_id name then one_if field c else 0))
            (increment redis timestamp name field s).1
    unfolding increment
    increment-Counts name field m s =
        guarded-Counts name (is_source_id name) (one_if field c) m _ s
          (λ h. incremented name field 1 m _ (registered name m s h))

    breaker-Counts :
        (name : String) (is_open : Bool) (m : ℕ) (s : redis.State)
        → Counts m s
        → Counts m (record_circuit_breaker redis timestamp name is_open s).1
    unfolding record_circuit_breaker
    breaker-Counts name is_open m s h = renumber _ (ground arith) (
        guarded-Counts name (is_source_id name) 0 m _ s
          (λ k. renumber _ (ground arith) (
            gauge-Counts name "circuit_breaker_state" (if is_open then "1" else "0") m _
              (breaker_apart c) (registered name m s k)))
          h)

    status-Counts :
        (name : String) (code : ℤ) (m : ℕ) (s : redis.State)
        → Counts m s
        → Counts m (record_http_status redis timestamp name code s).1
    unfolding record_http_status
    status-Counts name code m s h = renumber _ (ground arith) (
        guarded-Counts name (is_source_id name && is_http_status code) 0 m _ s
          (λ k. renumber _ (ground (arith, status_apart (redis.decimal (amount_of code)) c)) (
            incremented name (String.◌++◌ "http_status:" (redis.decimal (amount_of code))) 1 m _
              (registered name m s k)))
          h)

    perform-Counts :
        (name : String) (e : Event) (m : ℕ) (s : redis.State)
        → Counts m s
        → Counts (m + counted source_id c (name, e)) (perform name e s).1
    unfolding perform counted is_accepted record_run record_items record_parse_error
        record_lock_skip
    perform-Counts name (run run_id outcome d n t) m s h =
        guarded-Counts name (is_source_id name && not (d.is_negative || n.is_negative))
          (adds (run run_id outcome d n t) c) m _ s (run-Counts name run_id outcome d n t m s) h
    perform-Counts name (items created updated) m s h =
        guarded-Counts name (is_source_id name && not (is_negative created || is_negative updated))
          (adds (items created updated) c) m _ s (items-Counts name created updated m s) h
    perform-Counts name parse_error m s h =
        renumber _ (ground (arith, counted_parse_error c))
          (increment-Counts name "parse_error_total" m s h)
    perform-Counts name lock_skip m s h =
        renumber _ (ground (arith, counted_lock_skip c))
          (increment-Counts name "lock_skip_total" m s h)
    perform-Counts name (circuit_breaker is_open) m s h =
        renumber _ (ground arith) (breaker-Counts name is_open m s h)
    perform-Counts name (http_status code) m s h =
        renumber _ (ground arith) (status-Counts name code m s h)

    -- A counter of a source reads, after any sequence of calls for any sources, what it read before and
    -- the total of what the accepted calls for that source add: one for a run in the run's outcome, one
    -- for a failed run, the numbers of items, one for a parse error and for a skipped run. The other calls,
    -- the refused ones and those for other sources add nothing.
    pub counters_total :
        (calls : List (String × Event)) (m : ℕ) (s : redis.State)
        → Counts m s
        → Counts (m + total source_id c calls) (perform_all calls s)
    unfolding perform_all total
    counters_total [] m s h = renumber _ (omega arith) h
    counters_total ((name, e) ∷ calls) m s h = renumber _ (omega arith) (
        counters_total calls (m + counted source_id c (name, e)) (perform name e s).1
          (perform-Counts name e m s h))
