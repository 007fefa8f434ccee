-- ===== src/Observability/Lines.antt =====
-- What a log line cannot show (observability.py, `JsonEventFormatter`).
use football_prediction_craw.Prelude.{◌≡◌, refl, ap, Option, none, some, String}
use football_prediction_craw.Prelude.Result.{ok, ◌>>=◌}
use football_prediction_craw.Observability.Json.{object, Fields, end, field}
use football_prediction_craw.Observability.Redaction.{Urls, redact_value, redact_inner}
use football_prediction_craw.Observability.Hiding.{blank_fields, redact_fields-blank}
use football_prediction_craw.Observability.{
  RunEvent, Raised, exception_field, details, format_event, format,
}

-- the event without its exception's text and without what is under a sensitive key
abbrev pub forget_message : Option Raised → Option Raised
forget_message none = none
forget_message (some e) = some (record { type_name = e.type_name; message = "" })

abbrev pub forget_secrets : RunEvent → RunEvent
forget_secrets event = record {
  name = event.name;
  context = event.context;
  outcome = event.outcome;
  duration_seconds = event.duration_seconds;
  item_count = event.item_count;
  exception = forget_message event.exception;
  extra = blank_fields event.extra;
}

module _ (urls : Urls) where
  details-blank : (fs : Fields) → details urls (blank_fields fs) ≡ details urls fs
  unfolding details blank_fields redact_value redact_inner
  details-blank end = refl
  details-blank (field key value rest) =
      ap (λ r. (r >>= λ gs. ok (object gs)) >>= λ safe. ok (field "details" safe end))
        (redact_fields-blank urls (field key value rest))

  exception-forget :
      (e : Option Raised) (rest : Fields)
      → exception_field (forget_message e) rest ≡ exception_field e rest
  exception-forget none rest = refl
  exception-forget (some e) rest = refl

  -- The log line of an event does not depend on the text of its exception, nor on any value under a
  -- sensitive key of its extra fields, at any depth.
  pub log_line_hides_secrets :
      (timestamp levelname : String) (event : RunEvent)
      → format urls timestamp levelname (some (forget_secrets event))
        ≡ format urls timestamp levelname (some event)
  unfolding format format_event
  log_line_hides_secrets timestamp levelname event =
      cases event.exception (details-blank event.extra)
    where
      cases :
          (e : Option Raised)
          → details urls (blank_fields event.extra) ≡ details urls event.extra
          → format_event urls timestamp levelname (record {
            name = event.name;
            context = event.context;
            outcome = event.outcome;
            duration_seconds = event.duration_seconds;
            item_count = event.item_count;
            exception = forget_message e;
            extra = blank_fields event.extra;
          })
            ≡ format_event urls timestamp levelname (record {
              name = event.name;
              context = event.context;
              outcome = event.outcome;
              duration_seconds = event.duration_seconds;
              item_count = event.item_count;
              exception = e;
              extra = event.extra;
            })
      cases none h = rw (format_event, h) refl
      cases (some e) h = rw (format_event, h) refl
