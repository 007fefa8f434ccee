-- ===== src/Metrics/Rendering.antt =====
-- `RedisMetricsStore.snapshot` and `render_prometheus` of metrics.py.
use Prim.Native.String
use Prim.Native.Char.{code}
use football_prediction_craw.Prelude.{
  ℕ, Bool, true, false, ◌&&◌, ◌||◌, none, some, List, [], ◌∷◌, ◌++◌, String, if◌then◌else◌, map,
  ltb, ◌==◌,
}
use football_prediction_craw.Prelude.Dict.{Dict, lookup}
use football_prediction_craw.Prelude.Text.{codes, starts_with}
use football_prediction_craw.Observability.{RunOutcome, outcome_value, succeeded, failed, skipped}
use football_prediction_craw.Metrics.Hashes.{MetricsRedis}
use football_prediction_craw.Metrics.Recording.{
  QueueDepths, MetricsSnapshot, sources_key, source_key, run_total,
}

-- `a <= b` on texts, by code points
unfoldable pub text_leb : List ℕ → List ℕ → Bool
text_leb [] t = true
text_leb (c ∷ s) [] = false
text_leb (c ∷ s) (d ∷ t) = ltb c d || (c == d && text_leb s t)

module _ {A : Type 0} (key : A → String) where
  unfoldable pub placed : A → List A → List A
  unfolding text_leb
  placed x [] = x ∷ []
  placed x (y ∷ ys) =
      let rest = placed x ys in
      if text_leb (codes (key x)) (codes (key y)) then x ∷ y ∷ ys else y ∷ rest

  -- `sorted`, by a text
  unfoldable pub sorted : List A → List A
  unfolding placed
  sorted [] = []
  sorted (x ∷ xs) = placed x (sorted xs)

-- `snapshot`
unfoldable pub snapshot : (redis : MetricsRedis) → QueueDepths → redis.State → MetricsSnapshot
unfolding sorted
snapshot redis depths s = record {
  sources =
      map (λ source_id. (source_id, redis.hgetall (source_key source_id) s))
        (sorted (λ name. name) (redis.smembers sources_key s));
  queue_depths = depths;
}

-- `separator.join(texts)`
unfoldable pub join : String → List String → String
join separator [] = ""
join separator (text ∷ []) = text
join separator (text ∷ next ∷ texts) =
    String.◌++◌ text (String.◌++◌ separator (join separator (next ∷ texts)))

-- `f'{key}="{labels[key]}"'`
unfoldable pub label : String × String → String
label (key, value) = String.◌++◌ key (String.◌++◌ "=\"" (String.◌++◌ value "\""))

-- `_metric`
unfoldable pub metric : String → String → Dict String → String
unfolding sorted join label
metric name value labels = String.◌++◌ name (
    String.◌++◌ "{" (
      String.◌++◌ (join "," (map label (sorted (λ pair. pair.0) labels))) (String.◌++◌ "} " value)))

-- `values.get(field, "0")`
unfoldable pub value_or_zero : String → Dict String → String
value_or_zero field values = elim (lookup field values) [ none ↦ "0" | some text ↦ text ]

-- `_run_total_lines`, a line for each outcome
unfoldable pub run_total_line : String → Dict String → RunOutcome → String
unfolding metric value_or_zero
run_total_line source_id values outcome =
    metric "crawler_run_total" (value_or_zero (run_total outcome) values)
      (("source_id", source_id) ∷ ("outcome", outcome_value outcome) ∷ [])

-- `_run_total_lines`
unfoldable pub run_total_lines : String → Dict String → List String
unfolding run_total_line
run_total_lines source_id values =
    "# TYPE crawler_run_total counter"
    ∷ run_total_line source_id values succeeded
    ∷ run_total_line source_id values failed
    ∷ run_total_line source_id values skipped
    ∷ []

-- a metric, its field in the hash, and its type
pub record Field : Type 0 where
  pub metric_name : String
  pub field : String
  pub metric_type : String

abbrev pub field_of : String → String → String → Field
field_of metric_name field metric_type = record {
  metric_name = metric_name;
  field = field;
  metric_type = metric_type;
}

-- the table `fields`
unfoldable pub fields : List Field
fields =
    field_of "crawler_run_failed_total" "run_failed_total" "counter"
    ∷ field_of "crawler_run_duration_seconds" "run_duration_seconds" "gauge"
    ∷ field_of "crawler_items_found" "items_found" "gauge"
    ∷ field_of "crawler_items_created" "items_created" "counter"
    ∷ field_of "crawler_items_updated" "items_updated" "counter"
    ∷ field_of "crawler_last_success_timestamp" "last_success_timestamp" "gauge"
    ∷ field_of "crawler_parse_error_total" "parse_error_total" "counter"
    ∷ field_of "crawler_lock_skip_total" "lock_skip_total" "counter"
    ∷ field_of "crawler_circuit_breaker_state" "circuit_breaker_state" "gauge"
    ∷ []

-- the sample of a field
unfoldable pub field_line : String → Dict String → Field → String
unfolding metric value_or_zero
field_line source_id values f =
    metric f.metric_name (value_or_zero f.field values) (("source_id", source_id) ∷ [])

unfoldable pub field_lines : String → Dict String → List Field → List String
unfolding field_line
field_lines source_id values [] = []
field_lines source_id values (f ∷ rest) =
    String.◌++◌ "# TYPE " (String.◌++◌ f.metric_name (String.◌++◌ " " f.metric_type))
    ∷ field_line source_id values f
    ∷ field_lines source_id values rest

-- `field.split(":", 1)[1]`
unfoldable pub after_colon : String → String
after_colon String.[] = ""
after_colon (String.◌∷◌ c text) =
    let rest = after_colon text in if code c == b':' then text else rest

unfoldable pub status_lines : String → Dict String → List String
unfolding metric after_colon
status_lines source_id [] = []
status_lines source_id ((field, value) ∷ values) =
    let rest = status_lines source_id values in
    if starts_with (codes "http_status:") (codes field)
    then "# TYPE crawler_http_status_total counter"
      ∷ metric "crawler_http_status_total" value
          (("source_id", source_id) ∷ ("status_code", after_colon field) ∷ [])
      ∷ rest
    else rest

unfoldable pub source_lines : String × Dict String → List String
unfolding run_total_lines field_lines fields status_lines
source_lines (source_id, values) =
    run_total_lines source_id values
    ++ (field_lines source_id values fields
        ++ status_lines source_id (sorted (λ pair. pair.0) values))

unfoldable pub all_source_lines : Dict (Dict String) → List String
unfolding source_lines
all_source_lines [] = []
all_source_lines (source ∷ sources) = source_lines source ++ all_source_lines sources

-- the list `lines` of `render_prometheus`; `decimal` is `str` of a depth
unfoldable pub lines : (ℕ → String) → MetricsSnapshot → List String
unfolding metric all_source_lines
lines decimal s =
    "# HELP crawler_queue_depth Current queue backlog."
    ∷ "# TYPE crawler_queue_depth gauge"
    ∷ metric "crawler_queue_depth" (decimal s.queue_depths.http) (("queue", "http") ∷ [])
    ∷ metric "crawler_queue_depth" (decimal s.queue_depths.browser) (("queue", "browser") ∷ [])
    ∷ all_source_lines s.sources

-- `render_prometheus`
unfoldable pub render_prometheus : (ℕ → String) → MetricsSnapshot → String
unfolding lines join
render_prometheus decimal s = String.◌++◌ (join "\n" (lines decimal s)) "\n"
