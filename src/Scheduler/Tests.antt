-- ===== src/Scheduler/Tests.antt =====
-- The theorems on the scheduler at concrete inputs.
use football_prediction_craw.Prelude.{
  ℕ, ◌≡◌, refl, true, false, Option, none, some, String, [], ◌∷◌, All, arith, eq_iff,
}
use football_prediction_craw.Prelude.Result.{ok, err}
use football_prediction_craw.Prelude.Dict.{Dict, lookup, insert}
use football_prediction_craw.Document.{Value, number, boolean, moment}
use football_prediction_craw.Moment.{
  DateTime, Zone, isoformat, fromisoformat, plus_seconds, not_before,
}
use football_prediction_craw.Patterns.{is_source_id}
use football_prediction_craw.Store.{KeyValue}
use football_prediction_craw.Store.Sample.{memory}
use football_prediction_craw.Scheduler.{
  Error, key_error, value_error, dispatch_error, World, tick, next_run, state_key, due, advanced,
}
use football_prediction_craw.Scheduler.Tick.{one_dispatch_per_interval, dispatch_resumes}
use football_prediction_craw.Scheduler.Cycle.{ScheduledSource, QueueName, run_cycle}
use football_prediction_craw.Scheduler.Cycle.Ending.{invalid_source_ends_cycle}
use football_prediction_craw.Scheduler.Cycle.Isolation.{
  answer_alone, state_alone, failures_alone, run_cycle_isolates,
}

abbrev redis : KeyValue (Dict Value)
redis = memory

abbrev accepts : String → Option Error
accepts id = none

abbrev rejects : String → Option Error
rejects id = some (dispatch_error 1)

-- a naive reading, in minutes
abbrev at : ℕ → DateTime
at n = record { local = n; zone = Zone.naive }

abbrev object : Dict Value
object =
    ("interval", number 60) ∷ ("paused", boolean false) ∷ ("next", moment (isoformat (at 5))) ∷ []

abbrev world : World redis accepts
world = record { saved = (state_key "demo", object) ∷ []; dispatched = [] }

abbrev strict_world : World redis rejects
strict_world = record { saved = (state_key "demo", object) ∷ []; dispatched = [] }

abbrev nothing : World redis accepts
nothing = record { saved = []; dispatched = [] }

stored : lookup (state_key "demo") world.saved ≡ some object
unfolding lookup state_key
stored = refl

interval : lookup "interval" object ≡ some (number 60)
unfolding lookup
interval = refl

stored_run_is_due : due object (at 5) ≡ ok true
unfolding due lookup not_before fromisoformat isoformat
stored_run_is_due = refl

ticked : (tick redis accepts "demo" (at 5) world).0 ≡ ok true
unfolding tick due advanced lookup insert not_before fromisoformat isoformat plus_seconds state_key
ticked = refl

one_dispatch_per_interval_example :
    let u = (tick redis accepts "demo" (at 5) world).1 in
    (u.dispatched ≡ "demo" ∷ []) × (tick redis accepts "demo" (at 59_000_000) u ≡ (ok false, u))
one_dispatch_per_interval_example =
    one_dispatch_per_interval redis accepts "demo" (at 5) (at 59_000_000) world object 60 stored
      interval ticked refl (omega arith)

dispatch_resumes_example :
    let u = (tick redis accepts "demo" (at 5) world).1 in
    let (answer, v) = tick redis accepts "demo" (at 900_000_000) u in
    (answer ≡ ok true)
    × (v.dispatched ≡ "demo" ∷ "demo" ∷ [])
    × ((next_run redis accepts "demo" v).0
        ≡ ok (fromisoformat (isoformat (plus_seconds (at 900_000_000) 60))))
dispatch_resumes_example =
    dispatch_resumes redis accepts "demo" (at 5) (at 900_000_000) world object 60 stored interval
      ticked refl refl (omega arith)

abbrev demo : ScheduledSource
demo = record { source_id = "demo"; interval_seconds = 60; queue = QueueName.http }

abbrev missing : ScheduledSource
missing = record { source_id = "gone"; interval_seconds = 60; queue = QueueName.browser }

abbrev misnamed : ScheduledSource
misnamed = record { source_id = "Demo API"; interval_seconds = 60; queue = QueueName.http }

run_cycle_isolates_example :
    let (failures, u) = run_cycle redis accepts (missing ∷ demo ∷ []) (at 9) world in
    (failures ≡ ok (failures_alone redis accepts (missing ∷ demo ∷ []) (at 9) world.saved))
    × All
        (λ (s : ScheduledSource).
          lookup (state_key s.source_id) u.saved
          ≡ state_alone redis accepts (at 9) (lookup (state_key s.source_id) world.saved))
        (missing ∷ demo ∷ [])
unfolding is_source_id
run_cycle_isolates_example =
    run_cycle_isolates redis accepts (missing ∷ demo ∷ []) (at 9) world (refl, (refl, tt))
      (((λ e. ground (arith, eq_iff "gone" "demo")), tt), (tt, tt))

misnamed_fails :
    answer_alone redis accepts "Demo API" (at 9) (lookup (state_key "Demo API") world.saved)
    ≡ err key_error
unfolding lookup answer_alone state_key
misnamed_fails = refl

invalid_source_ends_cycle_example :
    let (r, u) = run_cycle redis accepts (demo ∷ misnamed ∷ missing ∷ []) (at 9) world in
    (r ≡ err value_error)
    × All
        (λ (s : ScheduledSource).
          lookup (state_key s.source_id) u.saved
          ≡ state_alone redis accepts (at 9) (lookup (state_key s.source_id) world.saved))
        (demo ∷ [])
    × All
        (λ (s : ScheduledSource).
          lookup (state_key s.source_id) u.saved ≡ lookup (state_key s.source_id) world.saved)
        (missing ∷ [])
unfolding is_source_id
invalid_source_ends_cycle_example =
    invalid_source_ends_cycle redis accepts (demo ∷ []) misnamed (missing ∷ []) (at 9) world
      key_error (refl, tt)
      (
        (
          (λ e. ground (arith, eq_iff "demo" "Demo API")),
          ((λ e. ground (arith, eq_iff "demo" "gone")), tt),
        ),
        (((λ e. ground (arith, eq_iff "Demo API" "gone")), tt), (tt, tt)),
      )
      refl misnamed_fails
