-- ===== src/Metrics/Exposed.antt =====
-- What the text of the metrics contains (metrics.py).
use football_prediction_craw.Prelude.{
  Option, none, some, ℕ, ◌≡◌, refl, ap, subst, ◌∙◌, Bool, ◌||◌, List, [], ◌∷◌, ◌++◌, String, map,
  any, any-append, All, arith, str_eq, eq_iff, Bool-cases, inl, inr,
}
use football_prediction_craw.Prelude.Dict.{Dict, lookup}
use football_prediction_craw.Prelude.Text.{codes}
use football_prediction_craw.Metrics.Hashes.{MetricsRedis}
use football_prediction_craw.Metrics.Recording.{QueueDepths, sources_key, source_key}
use football_prediction_craw.Metrics.Rendering.{
  text_leb, placed, sorted, snapshot, Field, fields, field_line, field_lines, run_total_lines,
  status_lines, source_lines, all_source_lines, metric, value_or_zero, render_prometheus,
}
use football_prediction_craw.Metrics.Lines.{
  Has, exposed, HasLine, Exposes, metric_of_source, sources-HasLine,
}

-- sorting keeps what is there
any-placed :
    {A : Type 0} (key : A → String) (p : A → Bool) (x : A) (ys : List A)
    → any p (placed key x ys) ≡ (p x || any p ys)
unfolding placed
any-placed key p x [] = refl
any-placed key p x (y ∷ ys) = elim (Bool-cases (text_leb (codes (key x)) (codes (key y)))) [
  | inl e ↦ rw e refl
  | inr e ↦ rw (e, any-placed key p x ys) (ground arith)
]

any-sorted :
    {A : Type 0} (key : A → String) (p : A → Bool) (xs : List A) → any p (sorted key xs) ≡ any p xs
unfolding sorted
any-sorted key p [] = refl
any-sorted key p (x ∷ xs) =
    any-placed key p x (sorted key xs) ∙ ap (λ b. p x || b) (any-sorted key p xs)

left-Has : (text : String) (xs ys : List String) → Has xs text → Has (xs ++ ys) text
left-Has text xs ys h = any-append (str_eq text) xs ys ∙ ground (arith, h)

right-Has : (text : String) (xs ys : List String) → Has ys text → Has (xs ++ ys) text
right-Has text xs ys h = any-append (str_eq text) xs ys ∙ ground (arith, h)

-- the fields of a table that satisfy a weaker statement
All-map :
    {A : Type 0} (P Q : A → Type 0) → ((a : A) → P a → Q a) → (xs : List A) → All P xs → All Q xs
All-map P Q f [] h = tt
All-map P Q f (x ∷ xs) h = (f x h.0, All-map P Q f xs h.1)

module _ (source_id : String) (values : Dict String) where
  fields-Has :
      (fs : List Field)
      → All (λ f. Has (field_lines source_id values fs) (field_line source_id values f)) fs
  unfolding field_lines
  fields-Has [] = tt
  fields-Has (f ∷ fs) =
      let line = field_line source_id values f in
      (
        ground (arith, eq_iff line line),
        All-map (λ g. Has (field_lines source_id values fs) (field_line source_id values g))
            (λ g. Has (field_lines source_id values (f ∷ fs)) (field_line source_id values g))
            (λ g h. ground (arith, h)) fs (fields-Has fs),
      )

  source-Has :
      All (λ f. Has (source_lines (source_id, values)) (field_line source_id values f)) fields
  unfolding source_lines
  source-Has =
      let statuses = status_lines source_id (sorted (λ pair. pair.0) values) in
      All-map (λ f. Has (field_lines source_id values fields) (field_line source_id values f))
        (λ f. Has (source_lines (source_id, values)) (field_line source_id values f))
        (λ f h.
          right-Has (field_line source_id values f) (run_total_lines source_id values)
            (field_lines source_id values fields ++ statuses)
            (left-Has (field_line source_id values f) (field_lines source_id values fields) statuses
              h))
        fields (fields-Has fields)

module _ (values : String → Dict String) (source_id : String) where
  sources-Has :
      (ids : List String)
      → Has ids source_id
      → All
          (λ f.
            Has
              (all_source_lines (map (λ name. (name, values name)) ids))
              (field_line source_id (values source_id) f))
          fields
  unfolding all_source_lines
  sources-Has [] h = ground (arith, h)
  sources-Has (name ∷ ids) h = elim (Bool-cases (str_eq source_id name)) [
    | inl e ↦
        let same : source_id ≡ name = ground (arith, eq_iff source_id name) in
        All-map
          (λ f.
            Has (source_lines (source_id, values source_id))
              (field_line source_id (values source_id) f))
          (λ f.
            Has (all_source_lines (map (λ name. (name, values name)) (name ∷ ids)))
              (field_line source_id (values source_id) f))
          (λ f k.
            left-Has (field_line source_id (values source_id) f) (source_lines (name, values name))
              (all_source_lines (map (λ name. (name, values name)) ids))
              (subst
                (λ n. Has (source_lines (n, values n)) (field_line source_id (values source_id) f))
                same k))
          fields (source-Has source_id (values source_id))
    | inr e ↦
        All-map
          (λ f.
            Has (all_source_lines (map (λ name. (name, values name)) ids))
              (field_line source_id (values source_id) f))
          (λ f.
            Has (all_source_lines (map (λ name. (name, values name)) (name ∷ ids)))
              (field_line source_id (values source_id) f))
          (λ f k.
            right-Has (field_line source_id (values source_id) f) (source_lines (name, values name))
              (all_source_lines (map (λ name. (name, values name)) ids)) k)
          fields (sources-Has ids (ground (arith, h, e)))
  ]

field-Exposes :
    (text source_id : String) (hash : Dict String) (f : Field)
    → HasLine text (field_line source_id hash f)
    → Exposes text source_id hash (f.metric_name, f.field)
unfolding field_line value_or_zero
field-Exposes text source_id hash f h = choose (lookup f.field hash) refl
  where
    choose :
        (found : Option String)
        → lookup f.field hash ≡ found
        → Exposes text source_id hash (f.metric_name, f.field)
    choose none e = inr (
      e,
      subst (HasLine text)
          (ap
              (λ o.
                metric f.metric_name (elim o [ none ↦ "0" | some v ↦ v ])
                  (("source_id", source_id) ∷ []))
              e
            ∙ metric_of_source f.metric_name source_id "0")
          h,
    )
    choose (some value) e = inl (
      value,
      e,
      subst (HasLine text)
          (ap
              (λ o.
                metric f.metric_name (elim o [ none ↦ "0" | some v ↦ v ])
                  (("source_id", source_id) ∷ []))
              e
            ∙ metric_of_source f.metric_name source_id value)
          h,
    )

-- a table's pairs of a metric and its field
All-pairs :
    (P : String × String → Type 0) (fs : List Field)
    → All (λ (f : Field). P (f.metric_name, f.field)) fs
    → All P (map (λ (f : Field). (f.metric_name, f.field)) fs)
All-pairs P [] h = tt
All-pairs P (f ∷ fs) h = (h.0, All-pairs P fs h.1)

fields-exposed : map (λ (f : Field). (f.metric_name, f.field)) fields ≡ exposed
unfolding fields
fields-exposed = refl

-- For every registered source, the text of the metrics has a line of its own for each of nine metrics:
-- the metric's name, the source's id as the only label, and the value that the source's hash has for
-- the metric's field, or 0 if it has none.
pub registered_source_is_exposed :
    (redis : MetricsRedis) (decimal : ℕ → String) (depths : QueueDepths) (s : redis.State)
    (source_id : String)
    → Has (redis.smembers sources_key s) source_id
    → All
        (Exposes
          (render_prometheus decimal (snapshot redis depths s))
          source_id
          (redis.hgetall (source_key source_id) s))
        exposed
unfolding snapshot
registered_source_is_exposed redis decimal depths s source_id h =
    let ids = sorted (λ name. name) (redis.smembers sources_key s) in
    let values : String → Dict String = λ name. redis.hgetall (source_key name) s in
    let text = render_prometheus decimal (snapshot redis depths s) in
    let rows = all_source_lines (map (λ name. (name, values name)) ids) in
    subst (All (Exposes text source_id (values source_id))) fields-exposed (
      All-pairs (Exposes text source_id (values source_id)) fields (
        All-map (λ f. Has rows (field_line source_id (values source_id) f))
          (λ f. Exposes text source_id (values source_id) (f.metric_name, f.field))
          (λ f k. field-Exposes text source_id (values source_id) f (
            sources-HasLine decimal (snapshot redis depths s)
              (field_line source_id (values source_id) f) k))
          fields
          (sources-Has values source_id ids
            (any-sorted (λ name. name) (str_eq source_id) (redis.smembers sources_key s) ∙ h))))
