-- ===== src/Tasks/Tests.antt =====
-- The theorems on runs under a lease at concrete inputs.
use football_prediction_craw.Prelude.{
  ℕ, ◌≡◌, refl, true, false, Option, none, some, String, [], ◌∷◌, ◌++◌,
}
use football_prediction_craw.Prelude.Result.{ok, err}
use football_prediction_craw.Prelude.Exec.{Exec}
use football_prediction_craw.Patterns.{is_source_id, is_task_id}
use football_prediction_craw.Moment.{beijing}
use football_prediction_craw.Store.{Expiring}
use football_prediction_craw.Store.Sample
use football_prediction_craw.Store.Sample.{server}
use football_prediction_craw.Prelude.Dict.{lookup, insert}
use football_prediction_craw.Locking.{owns, source_lock_key}
use football_prediction_craw.Observability.{RunOutcome, RunContext, Raised, skipped}
use football_prediction_craw.Observability.Json.{Number}
use football_prediction_craw.Tasks.{
  RunMetric, info, emitted, World, skipped_overlap, terminal, record_terminal_metric,
}
use football_prediction_craw.Tasks.Runs.{
  the_run, the_lease, begun, outcome_of, event_of, lease_never_outlives_run, one_terminal_event,
  overlap_is_skipped,
}

abbrev redis : Expiring String
redis = server

abbrev elapsed : ℕ → ℕ → Number
elapsed a b = record { is_negative = false; literal = "0.5" }

abbrev no_metrics : Option (RunMetric → Exec Raised (World redis) (Unit {0}))
no_metrics = none

-- an operation that fails after a while
abbrev parsing : Exec Raised (World redis) ℕ
parsing w = (
  err (record { type_name = "ParseError"; message = "boom" }),
  record w { now = 20; monotonic = 20 },
)

abbrev idle : World redis
idle = record {
  now = 5;
  monotonic = 5;
  wall = record { local = 43200; zone = beijing };
  store = [];
  log = [];
  heartbeat_running = false;
}

abbrev busy : World redis
busy = record idle { store = (Sample.set 0 "crawler:lock:source:demo" "u" 90 []) }

valid_names : (is_source_id "demo" ≡ true) × (is_task_id "internal" ≡ true)
unfolding is_source_id is_task_id
valid_names = (refl, refl)

unlocked : redis.get 5 (source_lock_key "demo") [] ≡ none
unfolding Sample.get source_lock_key lookup
unlocked = refl

locked : redis.get 5 (source_lock_key "demo") busy.store ≡ some "u"
unfolding Sample.get Sample.set source_lock_key lookup insert
locked = refl

silent :
    (c : RunContext) (o : RunOutcome) (t : ℕ) (w : World redis)
    → let (r, u) = record_terminal_metric redis elapsed no_metrics c o t w in
      (r ≡ ok tt) × (u.log ≡ w.log)
unfolding record_terminal_metric
silent c o t w = (refl, refl)

lease_never_outlives_run_example :
    let w = (the_run redis elapsed no_metrics parsing "demo" "internal" "r" "t" 89 idle).1 in
    (owns redis
        (the_lease redis elapsed no_metrics parsing "demo" "internal" "r" "t" 89)
        w.now
        w.store
      ≡ false)
    × (w.heartbeat_running ≡ false)
lease_never_outlives_run_example =
    lease_never_outlives_run redis elapsed no_metrics parsing "demo" "internal" "r" "t" 89 idle
      valid_names.0 valid_names.1 unlocked

one_terminal_event_example :
    let (r, w) =
      parsing (begun redis elapsed no_metrics parsing "demo" "internal" "r" "t" 89 idle) in
    let (r₁, w₁) = the_run redis elapsed no_metrics parsing "demo" "internal" "r" "t" 89 idle in
    (r₁ ≡ outcome_of redis elapsed no_metrics parsing "demo" "internal" "r" "t" 89 r)
    × (w₁.log
        ≡ w.log
          ++ (emitted (event_of redis elapsed no_metrics parsing "demo" "internal" "r" "t" 89 5 r w)
              ∷ []))
one_terminal_event_example =
    one_terminal_event redis elapsed no_metrics parsing "demo" "internal" "r" "t" 89 (λ a b. refl)
      silent idle valid_names.0 valid_names.1 unlocked

overlap_is_skipped_example :
    let (r, w) = the_run redis elapsed no_metrics parsing "demo" "internal" "r" "t" 89 busy in
    (r ≡ ok skipped_overlap)
    × (w.log
        ≡ info "skipped_overlap source_id=demo"
          ∷ emitted (
              terminal redis elapsed no_metrics "run_skipped"
                (record { source_id = "demo"; crawl_run_id = "r"; task_id = "internal" })
                skipped
                5
                none
                busy)
          ∷ [])
overlap_is_skipped_example =
    overlap_is_skipped redis elapsed no_metrics parsing "demo" "internal" "r" "t" 89 (λ a b. refl)
      silent busy "u" valid_names.0 valid_names.1 locked
