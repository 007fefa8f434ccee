-- ===== src/Scheduler.antt =====
-- scheduler.py: `SchedulerService`, over the store of its parameter. The dispatch callback is a
-- parameter too: `refuses` gives the exception that it raises for a source, if any.
mod Decisions
pub mod Tick
pub mod Register
mod Tests
pub mod Cycle
pub use Decisions.{Error, key_error, value_error, type_error, dispatch_error, SchedulerState}
unfoldable pub use Decisions.{
  next_run_at, should_dispatch, state_key, item, parse_moment, truth, integer, due, advanced,
}
use football_prediction_craw.Prelude.{
  ℕ, Bool, true, false, not, Option, none, some, String, List, [], ◌∷◌, if◌then◌else◌,
}
use football_prediction_craw.Prelude.Result.{Result, ok, err}
use football_prediction_craw.Prelude.Exec.{Exec, pure, lift, ◌>>=◌, ◌>>◌}
use football_prediction_craw.Prelude.Dict.{Dict, insert}
use football_prediction_craw.Document.{Value, boolean, number, moment}
use football_prediction_craw.Moment.{DateTime, isoformat}
use football_prediction_craw.Store.{KeyValue}

module _ (store : KeyValue (Dict Value)) (refuses : String → Option Error) where
  open store use {State, get, set}

  -- the store, and the sources that were handed to the dispatch callback, the last one first
  pub record World : Type 0 where
    pub saved : State
    pub dispatched : List String

  abbrev pub Action : Type 0 → Type 0
  Action A = Exec Error World A

  unfoldable pub save : String → Dict Value → Action (Unit {0})
  save source_id state w = (ok tt, record w { saved = set (state_key source_id) state w.saved })

  unfoldable pub load : String → Action (Dict Value)
  load source_id w = elim (get (state_key source_id) w.saved) [
    | none ↦ (err key_error, w)
    | some d ↦ (ok d, w)
  ]

  -- `self._dispatch(source_id)`
  unfoldable pub manual_trigger : String → Action (Unit {0})
  manual_trigger source_id w = elim (refuses source_id) [
    | none ↦ (ok tt, record w { dispatched = source_id ∷ w.dispatched })
    | some e ↦ (err e, w)
  ]

  unfoldable pub register : String → ℕ → DateTime → Action (Unit {0})
  unfolding save next_run_at isoformat
  register source_id interval current = do
    lift (next_run_at current interval)
    save source_id (
        ("interval", number interval)
        ∷ ("paused", boolean false)
        ∷ ("next", moment (isoformat current))
        ∷ [])

  unfoldable pub register_if_missing : String → ℕ → DateTime → Action Bool
  unfolding register
  register_if_missing source_id interval current w = elim (get (state_key source_id) w.saved) [
    | some d ↦ (ok false, w)
    | none ↦ (do register source_id interval current; pure true) w
  ]

  unfoldable pub pause : String → Bool → Action (Unit {0})
  unfolding load save
  pause source_id paused = do
    state ← load source_id
    save source_id (insert "paused" (boolean paused) state)

  unfoldable pub next_run : String → Action DateTime
  unfolding load item parse_moment
  next_run source_id = do
    state ← load source_id
    next ← lift (item "next" state)
    lift (parse_moment next)

  unfoldable pub tick : String → DateTime → Action Bool
  unfolding load save manual_trigger
  tick source_id current = do
    state ← load source_id
    is_due ← lift (due state current)
    if not is_due then pure false else do
      state' ← lift (advanced state current)
      save source_id state'
      manual_trigger source_id
      pure true
