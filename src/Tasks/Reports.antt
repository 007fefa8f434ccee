-- ===== src/Tasks/Reports.antt =====
-- What a run's report logs (tasks.py), where the metric store neither raises nor logs.
use football_prediction_craw.Prelude.{
  ℕ, ◌≡◌, refl, ap, true, false, Option, some, String, List, [], ◌∷◌, ◌++◌, arith,
}
use football_prediction_craw.Prelude.Result.{ok}
use football_prediction_craw.Prelude.Exec.{Exec}
use football_prediction_craw.Store.{Expiring}
use football_prediction_craw.Patterns.{is_event_name}
use football_prediction_craw.Observability.{RunOutcome, RunContext, RunEvent, Raised, run_event}
use football_prediction_craw.Observability.Json.{Number}
use football_prediction_craw.Tasks.{
  RunMetric, LogRecord, emitted, World, logged, emit, terminal, report, record_terminal_metric,
  no_items,
}

run_event_lem :
    (event : RunEvent) (n m : Number)
    → is_event_name event.name ≡ true
    → event.duration_seconds ≡ some n
    → event.item_count ≡ some m
    → n.is_negative ≡ false
    → m.is_negative ≡ false
    → run_event event ≡ ok event
unfolding run_event
run_event_lem event n m h d i k l = ground (arith, h, d, i, k, l)

pub event_names :
    (is_event_name "run_finished" ≡ true)
    × (is_event_name "run_failed" ≡ true)
    × (is_event_name "run_skipped" ≡ true)
unfolding is_event_name
event_names = (refl, refl, refl)

-- a record after another
pub twice :
    (xs : List LogRecord) (a b : LogRecord) → (xs ++ (a ∷ [])) ++ (b ∷ []) ≡ xs ++ (a ∷ b ∷ [])
twice [] a b = refl
twice (x ∷ xs) a b = ap (λ r. x ∷ r) (twice xs a b)

module _ (redis : Expiring String) (duration : ℕ → ℕ → Number)
    (metrics_store : Option (RunMetric → Exec Raised (World redis) (Unit {0})))
    (elapsed : (a b : ℕ) → (duration a b).is_negative ≡ false)
    (silent : (c : RunContext) (o : RunOutcome) (t : ℕ) (w : World redis)
      → let (r, u) = record_terminal_metric redis duration metrics_store c o t w in
        (r ≡ ok tt) × (u.log ≡ w.log)) where
  pub report_lem :
      (name : String) (c : RunContext) (o : RunOutcome) (t : ℕ) (e : Option Raised)
      (w : World redis)
      → is_event_name name ≡ true
      → let (r, u) = report redis duration metrics_store name c o t e w in
        (r ≡ ok tt)
        × (u.log ≡ w.log ++ (emitted (terminal redis duration metrics_store name c o t e w) ∷ []))
  unfolding report emit
  report_lem name c o t e w h =
      let told = terminal redis duration metrics_store name c o t e w in
      rw
        (run_event_lem told (duration t w.monotonic) (no_items redis duration metrics_store) h refl
          refl (elapsed t w.monotonic) refl)
        (silent c o t (
          logged redis duration metrics_store
            (emitted (terminal redis duration metrics_store name c o t e w)) w))

  pub reported :
      (name : String) (c : RunContext) (o : RunOutcome) (t : ℕ) (e : Option Raised)
      (w : World redis)
      → is_event_name name ≡ true
      → report redis duration metrics_store name c o t e w
        ≡ (ok tt, (report redis duration metrics_store name c o t e w).1)
  reported name c o t e w h =
      ap (λ r. (r, (report redis duration metrics_store name c o t e w).1))
        (report_lem name c o t e w h).0
