-- ===== src/Metrics/Lines.antt =====
-- The lines of the metrics' text (metrics.py), written out by hand.
use Prim.Native.String
use text.Mathlib.TextLemmas.{append_assoc}
use football_prediction_craw.Prelude.{
  ℕ, ◌≡◌, refl, sym, ap, subst, ◌∙◌, true, none, some, List, [], ◌∷◌, String, any, ◌⊎◌, arith,
  str_eq, eq_iff, Bool-cases, inl, inr,
}
use football_prediction_craw.Prelude.Dict.{Dict, lookup}
use football_prediction_craw.Metrics.Recording.{MetricsSnapshot}
use football_prediction_craw.Metrics.Rendering.{
  placed, sorted, join, label, metric, all_source_lines, lines, render_prometheus,
}

-- the line is among them
abbrev pub Has : List String → String → Type 0
Has texts text = any (str_eq text) texts ≡ true

-- the metrics of a source, each with the field of the source's hash that has its value
abbrev pub exposed : List (String × String)
exposed =
    ("crawler_run_failed_total", "run_failed_total")
    ∷ ("crawler_run_duration_seconds", "run_duration_seconds")
    ∷ ("crawler_items_found", "items_found")
    ∷ ("crawler_items_created", "items_created")
    ∷ ("crawler_items_updated", "items_updated")
    ∷ ("crawler_last_success_timestamp", "last_success_timestamp")
    ∷ ("crawler_parse_error_total", "parse_error_total")
    ∷ ("crawler_lock_skip_total", "lock_skip_total")
    ∷ ("crawler_circuit_breaker_state", "circuit_breaker_state")
    ∷ []

-- `name{source_id="…"} value`
abbrev pub sample_line : String → String → String → String
sample_line name source_id value =
    String.◌++◌ name
      (String.◌++◌ "{source_id=\"" (String.◌++◌ source_id (String.◌++◌ "\"} " value)))

-- the text has the line, between the ends of other lines
abbrev pub HasLine : String → String → Type 0
HasLine text line =
    (before : String) × (after : String) × (text
      ≡ String.◌++◌ before (String.◌++◌ "\n" (String.◌++◌ line (String.◌++◌ "\n" after))))

-- the text has the metric's line with the value of the field, or with 0 where the hash has none
abbrev pub Exposes : String → String → Dict String → String × String → Type 0
Exposes text source_id hash (name, field) =
    ((value : String) × (lookup field hash ≡ some value)
      × HasLine text (sample_line name source_id value))
    ⊎ ((lookup field hash ≡ none) × HasLine text (sample_line name source_id "0"))

-- every line with its end
abbrev ended_lines : List String → String
ended_lines [] = ""
ended_lines (x ∷ xs) = String.◌++◌ x (String.◌++◌ "\n" (ended_lines xs))

grouped :
    (a b c : String)
    → String.◌++◌ (String.◌++◌ a (String.◌++◌ "\n" b)) c
      ≡ String.◌++◌ a (String.◌++◌ "\n" (String.◌++◌ b c))
grouped a b c =
    append_assoc a (String.◌++◌ "\n" b) c ∙ ap (λ t. String.◌++◌ a t) (append_assoc "\n" b c)

pub join-ended :
    (x : String) (xs : List String) → String.◌++◌ (join "\n" (x ∷ xs)) "\n" ≡ ended_lines (x ∷ xs)
unfolding join
join-ended x [] = refl
join-ended x (y ∷ ys) =
    grouped x (join "\n" (y ∷ ys)) "\n"
    ∙ ap (λ t. String.◌++◌ x (String.◌++◌ "\n" t)) (join-ended y ys)

-- a line after the first one stands between two ends of lines
pub ended-HasLine :
    (line x : String) (xs : List String) → Has xs line → HasLine (ended_lines (x ∷ xs)) line
ended-HasLine line x [] h = ground (arith, h)
ended-HasLine line x (y ∷ ys) h = elim (Bool-cases (str_eq line y)) [
  | inl e ↦
      let same : line ≡ y = ground (arith, eq_iff line y) in
      (
        x,
        ended_lines ys,
        ap
            (λ t.
              String.◌++◌ x (String.◌++◌ "\n" (String.◌++◌ t (String.◌++◌ "\n" (ended_lines ys)))))
            (sym same),
      )
  | inr e ↦
      let (before, after, is_text) = ended-HasLine line y ys (ground (arith, h, e)) in
      (
        String.◌++◌ x (String.◌++◌ "\n" before),
        after,
        ap (λ t. String.◌++◌ x (String.◌++◌ "\n" t)) is_text
            ∙ sym (grouped x before (String.◌++◌ "\n" (String.◌++◌ line (String.◌++◌ "\n" after)))),
      )
]

-- a sample with one label
pub metric_of_source :
    (name source_id value : String)
    → metric name value (("source_id", source_id) ∷ []) ≡ sample_line name source_id value
unfolding metric sorted placed join label
metric_of_source name source_id value =
    let rest = String.◌++◌ source_id (String.◌++◌ "\"} " value) in
    ap (λ t. String.◌++◌ name t)
      (ap (λ t. String.◌++◌ "{" t)
          (append_assoc "source_id" (String.◌++◌ "=\"" (String.◌++◌ source_id "\""))
              (String.◌++◌ "} " value)
            ∙ ap (λ t. String.◌++◌ "source_id" t)
                (append_assoc "=\"" (String.◌++◌ source_id "\"") (String.◌++◌ "} " value)
                  ∙ ap (λ t. String.◌++◌ "=\"" t)
                      (append_assoc source_id "\"" (String.◌++◌ "} " value)
                        ∙ ap (λ t. String.◌++◌ source_id t) (sym (append_assoc "\"" "} " value)))))
        ∙ ap (λ t. String.◌++◌ "{" t) (sym (append_assoc "source_id" "=\"" rest))
        ∙ sym (append_assoc "{" "source_id=\"" rest))

-- a line of the sources stands in the whole text
pub sources-HasLine :
    (decimal : ℕ → String) (s : MetricsSnapshot) (line : String)
    → Has (all_source_lines s.sources) line
    → HasLine (render_prometheus decimal s) line
unfolding render_prometheus lines
sources-HasLine decimal s line h =
    let http =
      metric "crawler_queue_depth" (decimal s.queue_depths.http) (("queue", "http") ∷ []) in
    let browser =
      metric "crawler_queue_depth" (decimal s.queue_depths.browser) (("queue", "browser") ∷ []) in
    let first : String = "# HELP crawler_queue_depth Current queue backlog." in
    let others : List String =
      "# TYPE crawler_queue_depth gauge" ∷ http ∷ browser ∷ all_source_lines s.sources in
    subst (λ t. HasLine t line) (sym (join-ended first others))
      (ended-HasLine line first others (ground (arith, h)))
