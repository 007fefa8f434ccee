-- ===== src/Alerts/Tests.antt =====
-- The theorems on alerts at a concrete scenario.
use football_prediction_craw.Prelude.{◌≡◌, refl, true, false, none, some, String, [], All}
use football_prediction_craw.Prelude.Result.{ok}
use football_prediction_craw.Patterns.{is_source_id}
use football_prediction_craw.Moment.{DateTime, beijing}
use football_prediction_craw.Store.{KeyValue}
use football_prediction_craw.Store.Sample
use football_prediction_craw.Alerts.{AlertThresholds, MetricScenario, conditions, evaluate}
use football_prediction_craw.Alerts.Transitions.{transitions, was}
use football_prediction_craw.Alerts.Evaluation.{
  evaluate_reports_changes, persistent_incident_is_silent,
}

abbrev thresholds : AlertThresholds
thresholds = record {
  consecutive_failures = 3;
  max_last_success_age_seconds = 600;
  item_deviation_ratio = record { numerator = 1; denominator = 2 };
  parse_error_rate = record { numerator = 1; denominator = 10 };
  queue_depth = 100;
  worker_heartbeat_age_seconds = 120;
  disk_free_ratio = record { numerator = 1; denominator = 20 };
}

abbrev failing : MetricScenario
failing = record {
  consecutive_failures = 3;
  last_success_age_seconds = none;
  items_found = some 0;
  item_deviation_ratio = none;
  parse_error_rate = record { numerator = 0; denominator = 1 };
  http_status = some 403;
  captcha_seen = false;
  queue_depth = 0;
  worker_last_heartbeat_age_seconds = none;
  postgres_available = true;
  redis_available = true;
  disk_free_ratio = record { numerator = 1; denominator = 1 };
}

abbrev noon : DateTime
noon = record { local = 43200; zone = beijing }

abbrev redis : KeyValue String
redis = Sample.memory

valid_demo : is_source_id "demo" ≡ true
unfolding is_source_id
valid_demo = refl

evaluate_reports_changes_example :
    ((evaluate redis "demo" "run" noon thresholds failing []).0
      ≡ ok (transitions redis "demo" "run" noon [] (conditions thresholds failing)))
    × All
        (λ c.
          was redis "demo" "run" noon c.0 (evaluate redis "demo" "run" noon thresholds failing []).1
          ≡ c.1)
        (conditions thresholds failing)
evaluate_reports_changes_example =
    evaluate_reports_changes redis "demo" thresholds "run" noon failing [] valid_demo

persistent_incident_is_silent_example :
    let s = (evaluate redis "demo" "run" noon thresholds failing []).1 in
    evaluate redis "demo" "again" noon thresholds failing s ≡ (ok [], s)
persistent_incident_is_silent_example =
    persistent_incident_is_silent redis "demo" thresholds "run" "again" noon noon failing []
      valid_demo
