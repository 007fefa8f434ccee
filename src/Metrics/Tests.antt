-- ===== src/Metrics/Tests.antt =====
-- The theorems on metrics at concrete inputs.
use football_prediction_craw.Prelude.{◌+◌, ◌≡◌, refl, false, List, [], ◌∷◌, String, All, inl}
use football_prediction_craw.Prelude.Dict.{lookup}
use football_prediction_craw.Moment.{DateTime, beijing}
use football_prediction_craw.Observability.{succeeded, failed}
use football_prediction_craw.Observability.Json.{Number}
use football_prediction_craw.Metrics.Sample.{sample, strokes, Hashes, Sets, hgetall, smembers}
use football_prediction_craw.Metrics.Recording.{pos, is_negative, QueueDepths, source_key}
use football_prediction_craw.Metrics.Counting.{Event, run, items, lock_skip, failures, total, adds}
use football_prediction_craw.Patterns.{is_source_id}
use football_prediction_craw.Metrics.Totals.{Counts, perform_all, counters_total}
use football_prediction_craw.Metrics.Rendering.{snapshot, render_prometheus}
use football_prediction_craw.Metrics.Lines.{Has, Exposes, exposed}
use football_prediction_craw.Metrics.Exposed.{registered_source_is_exposed}

abbrev timestamp : DateTime → String
timestamp t = "0.0"

abbrev noon : DateTime
noon = record { local = 43_200_000_000; zone = beijing }

abbrev second : Number
second = record { is_negative = false; literal = "1.0" }

abbrev three : Number
three = record { is_negative = false; literal = "3" }

-- two failed runs of a source between other calls, and one of another source
abbrev calls : List (String × Event)
calls =
    ("demo", run "1" failed second three noon)
    ∷ ("demo", items (pos 2) (pos 1))
    ∷ ("spare", run "2" failed second three noon)
    ∷ ("demo", run "3" succeeded second three noon)
    ∷ ("demo", lock_skip)
    ∷ ("demo", run "4" failed second three noon)
    ∷ []

abbrev empty : Hashes × Sets
empty = ([], [])

nothing_counted : Counts sample timestamp "demo" failures 0 empty
unfolding hgetall lookup
nothing_counted = inl (refl, refl)

counters_total_example :
    Counts sample timestamp "demo" failures
      (0 + total "demo" failures calls)
      (perform_all sample timestamp calls empty)
counters_total_example =
    counters_total sample timestamp "demo" failures calls 0 empty nothing_counted

-- the total is two
two_failures : total "demo" failures calls ≡ 2
unfolding total adds is_source_id is_negative
two_failures = refl

abbrev depths : QueueDepths
depths = record { http = 2; browser = 0 }

abbrev stored : Hashes × Sets
stored =
    (("crawler:metrics:source:demo", ("run_failed_total", "2") ∷ []) ∷ [], "demo" ∷ "spare" ∷ [])

demo_registered : Has (smembers "crawler:metrics:sources" stored) "demo"
unfolding smembers
demo_registered = refl

registered_source_is_exposed_example :
    All
      (Exposes
        (render_prometheus strokes (snapshot sample depths stored))
        "demo"
        (hgetall (source_key "demo") stored))
      exposed
registered_source_is_exposed_example =
    registered_source_is_exposed sample strokes depths stored "demo" demo_registered
