-- ===== src/Observability/Tests.antt =====
-- The theorems on log lines at concrete inputs.
use football_prediction_craw.Prelude.{◌≡◌, none, some}
use football_prediction_craw.Prelude.Result.{err}
use football_prediction_craw.Observability.Json.{text, object, field, end}
use football_prediction_craw.Observability.Redaction.{Urls, value_error}
use football_prediction_craw.Observability.{RunEvent, format, failed}
use football_prediction_craw.Observability.Lines.{forget_secrets, log_line_hides_secrets}

abbrev refusing : Urls
refusing = record { urlsplit = λ s. err value_error; urlunsplit = λ a b c. b }

abbrev leaking : RunEvent
leaking = record {
  name = "run_failed";
  context = record { source_id = "demo"; crawl_run_id = "r"; task_id = "internal" };
  outcome = failed;
  duration_seconds = none;
  item_count = none;
  exception = some (record { type_name = "FetchError"; message = "Cookie: sid=1" });
  extra =
      field "request" (object (field "X-Auth-Token" (text "abc") end))
        (field "page" (text "3") end);
}

log_line_hides_secrets_example :
    format refusing "2026-01-01T00:00:00+08:00" "ERROR" (some (forget_secrets leaking))
    ≡ format refusing "2026-01-01T00:00:00+08:00" "ERROR" (some leaking)
log_line_hides_secrets_example =
    log_line_hides_secrets refusing "2026-01-01T00:00:00+08:00" "ERROR" leaking
