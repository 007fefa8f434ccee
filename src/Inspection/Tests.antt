-- ===== src/Inspection/Tests.antt =====
-- The theorem on daily reports at a concrete input.
use football_prediction_craw.Prelude.{◌≡◌, refl, ◌↔◌, false, none, some, List, [], ◌∷◌, All}
use football_prediction_craw.Prelude.Result.{ok}
use football_prediction_craw.Moment.{
  DateTime, beijing, zone_info, hours, isoformat, elapsed_exceeds,
}
use football_prediction_craw.Inspection.Input.{
  SourceHealthInput, HealthReportInput, whole, beijing_timestamp, astimezone,
}
use football_prediction_craw.Inspection.{
  DailyInspectionReport, SourceInspection, inspection, inspect_source, inspect_all, findings_of,
  success_findings, age_findings, findings_with, build_daily_report, requires_action, reports_of,
  status_of, window_start,
}
use football_prediction_craw.Inspection.Findings.{IsHealthy}
use football_prediction_craw.Inspection.Health.{report_calls_for_action}

abbrev evening : DateTime
evening = record { local = hours 42; zone = beijing }

abbrev morning : DateTime
morning = record { local = hours 17; zone = zone_info "UTC" (hours 24) }

abbrev failing : SourceHealthInput
failing = record {
  source_id = "demo";
  runs_succeeded = 4;
  runs_failed = 1;
  last_success_at = some morning;
  average_duration_seconds = whole 1;
  p95_duration_seconds = whole 2;
  item_count = 10;
  baseline_item_count = some 12;
  parse_failure_snapshot_count = 0;
  http_statuses = record { unauthorized = 0; forbidden = 0; too_many_requests = 0 };
  queue_depth = 0;
  circuit_breaker_open = false;
}

abbrev input : HealthReportInput
input = record { window_end = evening; sources = failing ∷ [] }

-- the last success is 17 hours before the window's end, though 25 by the wall clocks
abbrev inspected : List SourceInspection
inspected = inspection failing ("failure rate at or above 20%" ∷ []) ∷ []

abbrev report : DailyInspectionReport
report = record {
  schema_version = 1;
  generated_at = isoformat evening;
  window_start = isoformat (record evening { local = hours 18 });
  window_end = isoformat evening;
  status = status_of inspected;
  sources = inspected;
}

built : build_daily_report input none ≡ ok report
unfolding build_daily_report inspect_source inspect_all reports_of findings_of success_findings
    age_findings elapsed_exceeds findings_with beijing_timestamp astimezone window_start
built = refl

report_calls_for_action_example :
    ((requires_action report ≡ false) ↔ All (IsHealthy evening) (failing ∷ []))
    × ((report.status ≡ "no_data") ↔ (◌≡◌ {A = List SourceHealthInput} (failing ∷ []) []))
report_calls_for_action_example = report_calls_for_action input none report built
