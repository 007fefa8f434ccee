-- ===== src/Inspection.antt =====
-- inspection.py: the daily health report of the sources. The rates are exact here: the code's floats
-- give the same answers for counts below 2^53.
pub mod Input
pub mod Findings
pub mod Health
mod Tests
use football_prediction_craw.Prelude.{
  ℕ, ◌+◌, ◌-◌, ◌*◌, Bool, true, false, not, ◌&&◌, ◌||◌, Option, none, some, String, str_eq, List,
  [], ◌∷◌, ◌++◌, map, any, if◌then◌else◌, leb, ltb, ◌==◌,
}
use football_prediction_craw.Prelude.Result.{Result, ok, err, ◌>>=◌}
use football_prediction_craw.Moment.{DateTime, Iso, isoformat, hours, elapsed_exceeds}
use football_prediction_craw.Inspection.Input.{
  Error, overflow_error, type_error, Seconds, HttpStatuses, SourceHealthInput, HealthReportInput,
  beijing_timestamp,
}

pub record SourceInspection : Type 0 where
  pub source_id : String
  -- failed runs of all runs; `0.0` of no runs
  pub failure_rate : ℕ × ℕ
  pub last_success_at : Option Iso
  pub average_duration_seconds : Seconds
  pub p95_duration_seconds : Seconds
  pub item_count : ℕ
  pub baseline_item_count : Option ℕ
  pub parse_failure_snapshot_count : ℕ
  pub http_statuses : HttpStatuses
  pub queue_depth : ℕ
  pub circuit_breaker_open : Bool
  pub findings : List String

pub record DailyInspectionReport : Type 0 where
  pub schema_version : ℕ
  pub generated_at : Iso
  pub window_start : Iso
  pub window_end : Iso
  pub status : String
  pub sources : List SourceInspection

-- `abs(a - b)`
abbrev distance : ℕ → ℕ → ℕ
distance a b = if leb a b then b - a else a - b

-- `_item_count_is_abnormal`
unfoldable pub item_count_is_abnormal : ℕ → Option ℕ → Bool
item_count_is_abnormal count none = false
item_count_is_abnormal count (some baseline) =
    if baseline == 0 then false else leb baseline (2 * distance count baseline)

-- one finding, if its condition holds
abbrev pub found : Bool → String → List String
found condition finding = if condition then finding ∷ [] else []

-- the findings on the runs
unfoldable pub run_findings : ℕ → ℕ → List String
run_findings total failed =
    if total == 0
    then "no runs in the inspection window" ∷ []
    else found (leb total (5 * failed)) "failure rate at or above 20%"

-- the finding on a last success, from the comparison of its age
unfoldable pub age_findings : Option Bool → Result Error (List String)
age_findings none = err type_error
age_findings (some too_old) = ok (found too_old "last success is older than 24 hours")

-- the findings on the last success
unfoldable pub success_findings : DateTime → Option DateTime → Result Error (List String)
unfolding age_findings
success_findings window_end none = ok ("no recorded successful run" ∷ [])
success_findings window_end (some t) = age_findings (elapsed_exceeds (hours 24) window_end t)

-- whether 401, 403 or 429 was counted
unfoldable pub observed_denial : HttpStatuses → Bool
observed_denial s =
    not (s.unauthorized == 0) || not (s.forbidden == 0) || not (s.too_many_requests == 0)

-- all findings, with those on the last success
unfoldable pub findings_with : SourceHealthInput → List String → List String
unfolding run_findings item_count_is_abnormal observed_denial
findings_with s of_success =
    run_findings (s.runs_succeeded + s.runs_failed) s.runs_failed
    ++ of_success
    ++ found (item_count_is_abnormal s.item_count s.baseline_item_count)
        "item count deviates by at least 50%"
    ++ found (not (s.parse_failure_snapshot_count == 0))
        "new parser-failure snapshots require review"
    ++ found (observed_denial s.http_statuses) "observed HTTP 401, 403, or 429"
    ++ found (leb 100 s.queue_depth) "queue depth at or above 100"
    ++ found s.circuit_breaker_open "circuit breaker is open"

unfoldable pub findings_of : SourceHealthInput → DateTime → Result Error (List String)
unfolding success_findings findings_with
findings_of s window_end =
    success_findings window_end s.last_success_at >>= λ of_success. ok (findings_with s of_success)

abbrev iso_of : Option DateTime → Option Iso
iso_of none = none
iso_of (some t) = some (isoformat t)

unfoldable pub inspection : SourceHealthInput → List String → SourceInspection
inspection s findings = record {
  source_id = s.source_id;
  failure_rate = (s.runs_failed, s.runs_succeeded + s.runs_failed);
  last_success_at = iso_of s.last_success_at;
  average_duration_seconds = s.average_duration_seconds;
  p95_duration_seconds = s.p95_duration_seconds;
  item_count = s.item_count;
  baseline_item_count = s.baseline_item_count;
  parse_failure_snapshot_count = s.parse_failure_snapshot_count;
  http_statuses = s.http_statuses;
  queue_depth = s.queue_depth;
  circuit_breaker_open = s.circuit_breaker_open;
  findings = findings;
}

-- `_inspect_source`
unfoldable pub inspect_source : DateTime → SourceHealthInput → Result Error SourceInspection
unfolding findings_of inspection
inspect_source window_end s = findings_of s window_end >>= λ findings. ok (inspection s findings)

abbrev pub is_empty {ℓ} : {A : Type ℓ} → List A → Bool
is_empty [] = true
is_empty (_ ∷ _) = false

unfoldable pub status_of : List SourceInspection → String
status_of reports =
    if any (λ r. not (is_empty r.findings)) reports
    then "attention"
    else if is_empty reports
    then "no_data"
    else "healthy"

-- `now or health_input.window_end`
abbrev pub or_end : Option DateTime → DateTime → DateTime
or_end none window_end = window_end
or_end (some now) window_end = now

-- `window_end - _INSPECTION_WINDOW`, which overflows within the first day
unfoldable pub window_start : DateTime → Result Error DateTime
window_start t =
    if leb (hours 24) t.local
    then ok (record t { local = t.local - hours 24 })
    else err overflow_error

unfoldable pub inspect_all :
    DateTime → List SourceHealthInput → Result Error (List SourceInspection)
inspect_all window_end [] = ok []
inspect_all window_end (s ∷ sources) = inspect_source window_end s >>= λ report.
    inspect_all window_end sources >>= λ reports. ok (report ∷ reports)

unfoldable pub reports_of : HealthReportInput → Result Error (List SourceInspection)
unfolding inspect_all
reports_of input = inspect_all input.window_end input.sources

-- `build_daily_report`
unfoldable pub build_daily_report :
    HealthReportInput → Option DateTime → Result Error DailyInspectionReport
unfolding window_start beijing_timestamp reports_of status_of
build_daily_report input now = do
  generated ← beijing_timestamp (or_end now input.window_end)
  reports ← reports_of input
  start ← window_start input.window_end
  ok (record {
    schema_version = 1;
    generated_at = isoformat generated;
    window_start = isoformat start;
    window_end = isoformat input.window_end;
    status = status_of reports;
    sources = reports;
  })

-- `DailyInspectionReport.requires_action`
unfoldable pub requires_action : DailyInspectionReport → Bool
requires_action r = str_eq r.status "attention"
