-- ===== src/Scheduler/Cycle.antt =====
-- scheduler_service.py: one pass over the configured sources. `monotonic` readings and the text of
-- the log event are left out; an event is emitted for each failure, and its `RunContext` raises
-- `ValueError` for a source that is no source identifier.
pub mod Isolation
pub mod Ending
use football_prediction_craw.Prelude.{
  ℕ, Bool, true, false, Option, none, some, String, List, [], ◌∷◌, if◌then◌else◌,
}
use football_prediction_craw.Prelude.Result.{Result, ok, err}
use football_prediction_craw.Prelude.Dict.{Dict}
use football_prediction_craw.Document.{Value}
use football_prediction_craw.Moment.{DateTime}
use football_prediction_craw.Patterns.{is_source_id}
use football_prediction_craw.Store.{KeyValue}
use football_prediction_craw.Scheduler.{Error, value_error, World, tick, manual_trigger}

pub data QueueName : Type 0 where
  http browser : QueueName

pub record ScheduledSource : Type 0 where
  pub source_id : String
  pub interval_seconds : ℕ
  pub queue : QueueName

pub record SchedulerCycleFailure : Type 0 where
  pub source_id : String
  pub error : Error

module _ (store : KeyValue (Dict Value)) (refuses : String → Option Error) where
  -- the `except` clause: the failure is reported, unless building the event raises
  unfoldable pub report :
      String
      → Error
      → Result Error (List SchedulerCycleFailure)
      → Result Error (List SchedulerCycleFailure)
  report id e (ok failures) = ok (record { source_id = id; error = e } ∷ failures)
  report id e (err x) = err x

  unfoldable pub run_cycle :
      List ScheduledSource
      → DateTime
      → World store refuses
      → Result Error (List SchedulerCycleFailure) × World store refuses
  unfolding report
  run_cycle [] current w = (ok [], w)
  run_cycle (s ∷ sources) current w =
      let (answer, u) = tick store refuses s.source_id current w in
      let (rest, v) = run_cycle sources current u in
      elim answer [
        | ok dispatched ↦ (rest, v)
        | err e ↦
            if is_source_id s.source_id
            then (report s.source_id e rest, v)
            else (err value_error, u)
      ]
