-- ===== src/Scheduler/Decisions.antt =====
-- scheduler.py: the pure part. `next_run_at`, `SchedulerState`, `should_dispatch`, `state_key`, and
-- what `SchedulerService.tick` reads from and writes to the stored object.
-- A stored state is the JSON object that its text denotes. A text in ISO format is the reading
-- that it denotes; a number under the key "next" is taken as no timestamp.
use football_prediction_craw.Prelude.{
  ℕ, Bool, true, false, not, none, some, String, str_eq, ltb, ◌==◌, if◌then◌else◌,
}
use football_prediction_craw.Prelude.Result.{Result, ok, err, ◌>>=◌}
use football_prediction_craw.Prelude.Dict.{Dict, lookup, insert}
use football_prediction_craw.Document.{Value, null, boolean, number, moment, text}
use football_prediction_craw.Moment.{DateTime, isoformat, fromisoformat, not_before, plus_seconds}
use Prim.Native.String

pub data Error : Type 0 where
  key_error value_error type_error : Error
  -- what the dispatch callback raises, by an opaque number
  dispatch_error : ℕ → Error

-- `next_run_at`
unfoldable pub next_run_at : DateTime → ℕ → Result Error DateTime
next_run_at current interval =
    if ltb interval 60 then err value_error else ok (plus_seconds current interval)

pub record SchedulerState : Type 0 where
  pub next_run : DateTime
  pub paused : Bool

-- `should_dispatch`: the reading is compared only for a source that is not paused
unfoldable pub should_dispatch : SchedulerState → DateTime → Result Error Bool
should_dispatch state current =
    if state.paused
    then ok false
    else elim (not_before current state.next_run) [ none ↦ err type_error | some b ↦ ok b ]

-- `f"scheduler:{source_id}"`
unfoldable pub state_key : String → String
state_key source_id = String.◌++◌ "scheduler:" source_id

-- `state[key]`
unfoldable pub item : String → Dict Value → Result Error Value
item key state = elim (lookup key state) [ none ↦ err key_error | some v ↦ ok v ]

-- `datetime.fromisoformat(str(value))`
unfoldable pub parse_moment : Value → Result Error DateTime
parse_moment (moment i) = ok (fromisoformat i)
parse_moment _ = err value_error

-- `bool(value)`
unfoldable pub truth : Value → Bool
truth null = false
truth (boolean b) = b
truth (number n) = not (n == 0)
truth (moment i) = true
truth (text s) = not (str_eq s "")

-- `interval`, which must be an int and no bool
unfoldable pub integer : Value → Result Error ℕ
integer (number n) = ok n
integer _ = err value_error

-- the reading of the stored state: whether it is due, or what is wrong with it
unfoldable pub due : Dict Value → DateTime → Result Error Bool
unfolding item parse_moment should_dispatch truth
due state current = do
  next ← item "next" state
  next_run ← parse_moment next
  paused ← item "paused" state
  should_dispatch (record { next_run = next_run; paused = truth paused }) current

-- the state that a dispatch at `current` leaves
unfoldable pub advanced : Dict Value → DateTime → Result Error (Dict Value)
unfolding item next_run_at isoformat integer
advanced state current = do
  interval ← item "interval" state
  n ← integer interval
  next ← next_run_at current n
  ok (
      insert "last_dispatch" (moment (isoformat current))
        (insert "next" (moment (isoformat next)) state))
