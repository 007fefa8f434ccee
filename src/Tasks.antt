-- ===== src/Tasks.antt =====
-- tasks.py: `run_with_source_lease`, one run of a source under its lease, with its terminal event and
-- metric. The operation and the metric store are parameters that may change the world in any way
-- and may raise; the heartbeat's renewals happen while the operation runs, so they are part of what
-- it does to the world.
pub mod Reports
pub mod Runs
mod Tests
use Prim.Native.String
use football_prediction_craw.Prelude.{
  ℕ, zero, suc, Bool, true, false, Option, none, some, String, List, [], ◌∷◌, ◌++◌, if◌then◌else◌,
}
use football_prediction_craw.Prelude.Result.{Result, ok, err}
use football_prediction_craw.Prelude.Exec.{
  Exec, pure, raise, lift, modify, catch, finally, ◌>>=◌, ◌>>◌,
}
use football_prediction_craw.Moment.{DateTime}
use football_prediction_craw.Store.{Expiring}
use football_prediction_craw.Locking.{
  RedisLease, LeaseError, new_lease, source_lock_key, acquire, release,
}
use football_prediction_craw.Observability.{
  RunOutcome, RunContext, RunEvent, Raised, run_context, run_event,
}
use football_prediction_craw.Observability.{succeeded, failed, skipped}
use football_prediction_craw.Observability.Json.{Number, end}
use football_prediction_craw.Observability.Redaction.{Error}

-- the arguments of `MetricsRecorder.record_run`
pub record RunMetric : Type 0 where
  pub source_id : String
  pub run_id : String
  pub outcome : RunOutcome
  pub duration_seconds : Number
  pub item_count : ℕ
  pub current : DateTime

pub data Ended (T : Type 0) : Type 0 where
  completed : T → Ended T
  skipped_overlap : Ended T

-- a record of the module's logger: a text of a `LOGGER.info`, or an event
pub data LogRecord : Type 0 where
  info : String → LogRecord
  emitted : RunEvent → LogRecord

-- An exception, raised: its type and text.
abbrev pub value_error : Raised
value_error = record { type_name = "ValueError"; message = "" }

abbrev pub as_raised : {E A : Type 0} → Result E A → Result Raised A
as_raised (ok a) = ok a
as_raised (err e) = err value_error

module _ (redis : Expiring String) where
  pub record World : Type 0 where
    -- the server's clock, and the two clocks of the process
    pub now : ℕ
    pub monotonic : ℕ
    pub wall : DateTime
    pub store : redis.State
    -- the records of `LOGGER`, which is the event logger too unless a caller gives another
    pub log : List LogRecord
    pub heartbeat_running : Bool

-- `duration a b` is the number of seconds from a reading of the monotonic clock to another.
module _ (redis : Expiring String) (duration : ℕ → ℕ → Number)
    (metrics_store : Option (RunMetric → Exec Raised (World redis) (Unit {0}))) where
  abbrev pub logged : LogRecord → World redis → World redis
  logged entry w = record w { log = w.log ++ (entry ∷ []) }

  -- `emit_run_event(logger, RunEvent(...))`
  unfoldable pub emit : RunEvent → Exec Raised (World redis) (Unit {0})
  emit terminal_event =
      lift (as_raised (run_event terminal_event)) >>= λ e. modify (logged (emitted e))

  abbrev pub no_items : Number
  no_items = record { is_negative = false; literal = "0" }

  abbrev pub terminal :
      String → RunContext → RunOutcome → ℕ → Option Raised → World redis → RunEvent
  terminal name context outcome started_at exception w = record {
    name = name;
    context = context;
    outcome = outcome;
    duration_seconds = some (duration started_at w.monotonic);
    item_count = some no_items;
    exception = exception;
    extra = end;
  }

  -- `_record_terminal_metric`
  unfoldable pub record_terminal_metric :
      RunContext → RunOutcome → ℕ → Exec Raised (World redis) (Unit {0})
  record_terminal_metric context outcome started_at w = elim metrics_store [
    | none ↦ (ok tt, w)
    | some record_run ↦
        record_run
          (record {
            source_id = context.source_id;
            run_id = context.crawl_run_id;
            outcome = outcome;
            duration_seconds = duration started_at w.monotonic;
            item_count = 0;
            current = w.wall;
          })
          w
  ]

  -- the terminal event, then the terminal metric
  unfoldable pub report :
      String → RunContext → RunOutcome → ℕ → Option Raised → Exec Raised (World redis) (Unit {0})
  report name context outcome started_at exception w =
      (emit (terminal name context outcome started_at exception w)
          >> record_terminal_metric context outcome started_at)
        w

  -- the `try` block and its `except` block
  unfoldable pub attempt :
      {T : Type 0}
      → RunContext
      → ℕ
      → Exec Raised (World redis) T
      → Exec Raised (World redis) (Ended T)
  attempt context started_at operation =
      catch
        (operation >>= λ result.
          report "run_finished" context succeeded started_at none >> pure (completed result))
        (λ error. report "run_failed" context failed started_at (some error) >> raise error)

  -- the `finally` block
  unfoldable pub let_go : RedisLease → World redis → World redis
  let_go lease w = record w {
    store = (release redis lease w.now w.store).1;
    heartbeat_running = false;
  }

  -- `LeaseHeartbeat(...)` refuses an interval that is not positive; zero stands for those
  unfoldable pub heartbeat : Option ℕ → Exec Raised (World redis) (Unit {0})
  heartbeat (some zero) = raise value_error
  heartbeat (some (suc n)) = modify (λ w. record w { heartbeat_running = true })
  heartbeat none = modify (λ w. record w { heartbeat_running = true })

  -- the branch of a lease that another owner holds
  unfoldable pub overlap : {T : Type 0} → RunContext → ℕ → Exec Raised (World redis) (Ended T)
  overlap context started_at =
      modify (logged (info (String.◌++◌ "skipped_overlap source_id=" context.source_id)))
      >> (report "run_skipped" context skipped started_at none >> pure skipped_overlap)

  unfoldable pub held :
      {T : Type 0}
      → RunContext
      → RedisLease
      → Option ℕ
      → ℕ
      → Exec Raised (World redis) T
      → Exec Raised (World redis) (Ended T)
  held context lease renew_interval started_at operation =
      heartbeat renew_interval >> finally (attempt context started_at operation) (let_go lease)

  unfoldable pub leased :
      {T : Type 0}
      → RunContext
      → RedisLease
      → Option ℕ
      → ℕ
      → Exec Raised (World redis) T
      → Exec Raised (World redis) (Ended T)
  unfolding held overlap
  leased context lease renew_interval started_at operation w =
      let (taken, after) = acquire redis lease w.now w.store in
      (if taken
          then held context lease renew_interval started_at operation
          else overlap context started_at)
        (record w { store = after })

  -- `run_with_source_lease`; `run_id` and `token` are the values of the two calls of `uuid4()`
  unfoldable pub run_with_source_lease :
      {T : Type 0}
      → String
      → Exec Raised (World redis) T
      → ℕ
      → Option ℕ
      → String
      → String
      → String
      → Exec Raised (World redis) (Ended T)
  unfolding leased
  run_with_source_lease source operation ttl renew_interval task_id run_id token w =
      (lift (as_raised (run_context source run_id task_id)) >>= λ context.
      lift (as_raised (new_lease (source_lock_key source) ttl none token)) >>= λ lease.
      leased context lease renew_interval w.monotonic operation)
        w
