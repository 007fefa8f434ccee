-- ===== src/Alerts/Evaluation.antt =====
-- `AlertEvaluator.evaluate` on its twelve rules (src/multisite_crawler/alerts.py).
use football_prediction_craw.Prelude.{
  ◌≡◌, refl, Bool, true, not, ◌&&◌, String, str_eq, List, [], ◌∷◌, All, all, arith, is_some,
}
use football_prediction_craw.Prelude.Dict.{lookup}
use football_prediction_craw.Prelude.Result.{ok}
use football_prediction_craw.Patterns.{is_source_id}
use football_prediction_craw.Moment.{DateTime}
use football_prediction_craw.Store.{KeyValue}
use football_prediction_craw.Alerts.{
  AlertThresholds, MetricScenario, runbooks, conditions, evaluate,
}
use football_prediction_craw.Alerts.Transitions.{
  Apart, Ready, transitions, was, settle, watch_lem, settle_lem, quiet,
}

is_apart : String → List (String × Bool) → Bool
is_apart rule = all (λ c. not (str_eq c.0 rule))

is_ready : List (String × Bool) → Bool
is_ready [] = true
is_ready ((rule, now) ∷ rest) =
    is_apart rule rest && is_some (lookup rule runbooks) && is_ready rest

is_apart_lem : (rule : String) (cs : List (String × Bool)) → is_apart rule cs ≡ true → Apart rule cs
unfolding is_apart
is_apart_lem rule [] h = tt
is_apart_lem rule ((other, now) ∷ cs) h = (ground arith, is_apart_lem rule cs (ground arith))

is_ready_lem : (cs : List (String × Bool)) → is_ready cs ≡ true → Ready cs
unfolding is_ready
is_ready_lem [] h = tt
is_ready_lem ((rule, now) ∷ cs) h =
    (is_apart_lem rule cs (ground arith), ground arith, is_ready_lem cs (ground arith))

-- The twelve rules of the evaluator are different, and each has a runbook.
pub conditions-Ready : (t : AlertThresholds) (m : MetricScenario) → Ready (conditions t m)
unfolding conditions runbooks lookup is_ready is_apart
conditions-Ready t m = is_ready_lem (conditions t m) refl

module _ (store : KeyValue String) (source : String) (t : AlertThresholds) where
  evaluate_lem :
      (run : String) (current : DateTime) (m : MetricScenario) (s : store.State)
      → is_source_id source ≡ true
      → evaluate store source run current t m s ≡ (
        ok (transitions store source run current s (conditions t m)),
        settle store source run current (conditions t m) s,
      )
  unfolding evaluate
  evaluate_lem run current m s h =
      rw (h) (watch_lem store source run current (conditions t m) s (conditions-Ready t m))

  -- For a valid source, an evaluation returns one notification for each rule that changed against
  -- the state before the call, with the rule's runbook, and afterwards every rule is recorded as
  -- active exactly when its condition holds.
  pub evaluate_reports_changes :
      (run : String) (current : DateTime) (m : MetricScenario) (s : store.State)
      → is_source_id source ≡ true
      → ((evaluate store source run current t m s).0
          ≡ ok (transitions store source run current s (conditions t m)))
        × All
            (λ c.
              was store source run current c.0 (evaluate store source run current t m s).1 ≡ c.1)
            (conditions t m)
  evaluate_reports_changes run current m s h =
      rw (evaluate_lem run current m s h)
        (refl, settle_lem store source run current (conditions t m) s (conditions-Ready t m))

  -- While the scenario stays the same, a later evaluation of a valid source returns no
  -- notification and changes nothing, in whatever state the first one began.
  pub persistent_incident_is_silent :
      (run again : String) (current later : DateTime) (m : MetricScenario) (s : store.State)
      → is_source_id source ≡ true
      → let s₁ = (evaluate store source run current t m s).1 in
        evaluate store source again later t m s₁ ≡ (ok [], s₁)
  persistent_incident_is_silent run again current later m s h =
      let still =
        quiet store source again later (conditions t m)
          (settle store source run current (conditions t m) s)
          (settle_lem store source run current (conditions t m) s (conditions-Ready t m)) in
      rw
        (
          evaluate_lem run current m s h,
          evaluate_lem again later m (settle store source run current (conditions t m) s) h,
          still.0,
          still.1,
        )
        refl
