-- ===== src/Observability.antt =====
-- observability.py: the typed run events, what a log line of one holds, and the redaction of values.
-- A log line is the object that `json.dumps` is given. `urllib.parse` is a parameter.
pub mod Json
pub mod Redaction
pub mod Hiding
pub mod Lines
mod Tests
use football_prediction_craw.Prelude.{
  ℕ, Bool, true, false, Option, none, some, String, List, [], ◌∷◌, ◌++◌, if◌then◌else◌,
}
use football_prediction_craw.Prelude.Result.{Result, ok, err, raise_if, ◌>>=◌, ◌>>◌}
use football_prediction_craw.Prelude.{not}
use football_prediction_craw.Patterns.{is_source_id, is_task_id, is_event_name}
use football_prediction_craw.Observability.Json.{Number, text, number, object, Fields, end, field}
use football_prediction_craw.Observability.Redaction.{Error, value_error, Urls, redact_value}

pub data RunOutcome : Type 0 where
  succeeded failed skipped : RunOutcome

unfoldable pub outcome_value : RunOutcome → String
outcome_value succeeded = "succeeded"
outcome_value failed = "failed"
outcome_value skipped = "skipped"

pub record RunContext : Type 0 where
  pub source_id : String
  pub crawl_run_id : String
  pub task_id : String

-- `RunContext(...)` with `__post_init__`
unfoldable pub run_context : String → String → String → Result Error RunContext
run_context source run task =
    raise_if (not (is_source_id source)) value_error
    >> raise_if (not (is_task_id task)) value_error
    >> ok (record { source_id = source; crawl_run_id = run; task_id = task })

-- an exception: the name of its type, and its text
pub record Raised : Type 0 where
  pub type_name : String
  pub message : String

pub record RunEvent : Type 0 where
  pub name : String
  pub context : RunContext
  pub outcome : RunOutcome
  pub duration_seconds : Option Number
  pub item_count : Option Number
  pub exception : Option Raised
  pub extra : Fields

-- `value is not None and value < 0`
abbrev is_below_zero : Option Number → Bool
is_below_zero none = false
is_below_zero (some n) = n.is_negative

-- `RunEvent(...)` with `__post_init__`
unfoldable pub run_event : RunEvent → Result Error RunEvent
run_event event =
    raise_if (not (is_event_name event.name)) value_error
    >> raise_if (is_below_zero event.duration_seconds) value_error
    >> raise_if (is_below_zero event.item_count) value_error
    >> ok event

pub data Level : Type 0 where
  info error : Level

-- the level that `emit_run_event` logs at
unfoldable pub event_level : RunOutcome → Level
event_level failed = error
event_level succeeded = info
event_level skipped = info

abbrev pub number_field : String → Option Number → Fields → Fields
number_field key none rest = rest
number_field key (some n) rest = field key (number n) rest

abbrev pub exception_field : Option Raised → Fields → Fields
exception_field none rest = rest
exception_field (some e) rest = field "exception_type" (text e.type_name) rest

module _ (urls : Urls) where
  -- `if event.extra: payload["details"] = redact_value(event.extra)`
  unfoldable pub details : Fields → Result Error Fields
  details end = ok end
  details (field key value rest) =
      redact_value urls none (object (field key value rest)) >>= λ safe.
      ok (field "details" safe end)

  -- `JsonEventFormatter.format` of a record whose `run_event` is a `RunEvent`
  unfoldable pub format_event : String → String → RunEvent → Result Error Fields
  unfolding details outcome_value
  format_event timestamp levelname event = details event.extra >>= λ tail. ok (
      field "timestamp" (text timestamp) (
        field "level" (text levelname) (
          field "event" (text event.name) (
            field "source_id" (text event.context.source_id) (
              field "crawl_run_id" (text event.context.crawl_run_id) (
                field "task_id" (text event.context.task_id) (
                  field "outcome" (text (outcome_value event.outcome)) (
                    number_field "duration_seconds" event.duration_seconds (
                      number_field "item_count" event.item_count
                        (exception_field event.exception tail))))))))))

  -- `JsonEventFormatter.format`; a record may carry no `RunEvent`
  unfoldable pub format : String → String → Option RunEvent → Result Error Fields
  unfolding format_event
  format timestamp levelname none = ok (
      field "timestamp" (text timestamp)
        (field "level" (text levelname) (field "event" (text "unstructured_log_suppressed") end)))
  format timestamp levelname (some event) = format_event timestamp levelname event
