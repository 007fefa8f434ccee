-- ===== src/Metrics/Counting.antt =====
-- What the counters of a source count (metrics.py).
use text.Mathlib.TextLemmas.{append_cancel_left}
use football_prediction_craw.Prelude.{
  ℕ, ◌+◌, ◌≡◌, ap, subst, ◌∙◌, ◌⊎◌, inl, inr, Bool, true, false, not, ◌&&◌, ◌||◌, none, some, List,
  [], ◌∷◌, String, if◌then◌else◌, arith, str_eq, eq_iff, Bool-cases,
}
use football_prediction_craw.Prelude.Dict.{lookup}
use football_prediction_craw.Moment.{DateTime}
use football_prediction_craw.Patterns.{is_source_id}
use football_prediction_craw.Observability.{RunOutcome, succeeded, failed, skipped}
use football_prediction_craw.Observability.Json.{Number}
use football_prediction_craw.Metrics.Hashes.{MetricsRedis}
use football_prediction_craw.Metrics.Recording.{
  ℤ, is_negative, amount_of, is_http_status, source_key, run_total,
}

-- the counters that no label but the outcome of a run tells apart
pub data Counter : Type 0 where
  runs : RunOutcome → Counter
  failures items_created items_updated parse_errors lock_skips : Counter

unfoldable pub field_of : Counter → String
field_of (runs outcome) = run_total outcome
field_of failures = "run_failed_total"
field_of items_created = "items_created"
field_of items_updated = "items_updated"
field_of parse_errors = "parse_error_total"
field_of lock_skips = "lock_skip_total"

-- a call of the store
pub data Event : Type 0 where
  run : String → RunOutcome → Number → Number → DateTime → Event
  http_status : ℤ → Event
  items : ℤ → ℤ → Event
  parse_error lock_skip : Event
  circuit_breaker : Bool → Event

unfoldable pub same_outcome : RunOutcome → RunOutcome → Bool
same_outcome succeeded succeeded = true
same_outcome failed failed = true
same_outcome skipped skipped = true
same_outcome a b = false

-- how much an accepted call adds to a counter of its source
unfoldable pub adds : Event → Counter → ℕ
unfolding same_outcome
adds (run run_id outcome d n t) (runs counted) = if same_outcome outcome counted then 1 else 0
adds (run run_id failed d n t) failures = 1
adds (items created updated) items_created = amount_of created
adds (items created updated) items_updated = amount_of updated
adds parse_error parse_errors = 1
adds lock_skip lock_skips = 1
adds e c = 0

-- whether a call has arguments that are accepted
unfoldable pub is_accepted : Event → Bool
is_accepted (run run_id outcome d n t) = not (d.is_negative || n.is_negative)
is_accepted (http_status code) = is_http_status code
is_accepted (items created updated) = not (is_negative created || is_negative updated)
is_accepted e = true

-- how much a call for a source adds to a counter of a source
unfoldable pub counted : String → Counter → String × Event → ℕ
unfolding adds is_accepted
counted source_id c (name, e) =
    if str_eq name source_id && (is_source_id name && is_accepted e) then adds e c else 0

unfoldable pub total : String → Counter → List (String × Event) → ℕ
unfolding counted
total source_id c [] = 0
total source_id c (call ∷ calls) = counted source_id c call + total source_id c calls

key_text : (s t : String) → s ≡ t → source_key s ≡ source_key t
key_text s t h = ap source_key h

key_injective : (s t : String) → source_key s ≡ source_key t → s ≡ t
unfolding source_key
key_injective s t h = append_cancel_left "crawler:metrics:source:" s t h

pub key-str_eq : (s t : String) → str_eq (source_key s) (source_key t) ≡ str_eq s t
key-str_eq s t =
    ground
      (arith, eq_iff (source_key s) (source_key t), eq_iff s t, key_text s t, key_injective s t)

module _ (redis : MetricsRedis) (key : String) where
  -- a field that has no value counts zero, and else its value is the number's digits
  abbrev pub Reads : String → ℕ → redis.State → Type 0
  Reads field m s =
      ((m ≡ 0) × (lookup field (redis.hgetall key s) ≡ none))
      ⊎ (lookup field (redis.hgetall key s) ≡ some (redis.decimal m))

  -- a write elsewhere
  unread :
      (field : String) (m : ℕ) (s t : redis.State)
      → lookup field (redis.hgetall key t) ≡ lookup field (redis.hgetall key s)
      → Reads field m s
      → Reads field m t
  unread field m s t h (inl (z, e)) = inl (z, h ∙ e)
  unread field m s t h (inr e) = inr (h ∙ e)

  pub hset-Reads :
      (name k v field : String) (m : ℕ) (s : redis.State)
      → str_eq k field ≡ false
      → Reads field m s
      → Reads field m (redis.hset name k v s)
  hset-Reads name k v field m s apart =
      unread field m s (redis.hset name k v s)
        (redis.hset_other name key k field v s (ground arith))

  pub sadd-Reads :
      (name v field : String) (m : ℕ) (s : redis.State)
      → Reads field m s
      → Reads field m (redis.sadd name v s)
  sadd-Reads name v field m s =
      unread field m s (redis.sadd name v s) (ap (lookup field) (redis.hgetall-sadd name key v s))

  pub counted_up :
      (field : String) (a m : ℕ) (s : redis.State)
      → Reads field m s
      → Reads field (m + a) (redis.hincrby key field a s)
  counted_up field a m s (inl (z, e)) =
      inr (redis.hincrby_new key field a s e ∙ ap (λ n. some (redis.decimal n)) (omega (arith, z)))
  counted_up field a m s (inr e) = inr (redis.hincrby_old key field a m s e)

  pub hincrby-Reads :
      (name k field : String) (a m : ℕ) (s : redis.State)
      → Reads field m s
      → Reads field
          (m + (if str_eq name key && str_eq k field then a else 0))
          (redis.hincrby name k a s)
  hincrby-Reads name k field a m s h = elim (Bool-cases (str_eq name key && str_eq k field)) [
    | inl e ↦
        let same_key : name ≡ key = ground (arith, eq_iff name key) in
        let same_field : k ≡ field = ground (arith, eq_iff k field) in
        rw (e, same_key, same_field) (counted_up field a m s h)
    | inr e ↦ rw e (
        subst (λ n. Reads field n (redis.hincrby name k a s)) (omega arith)
          (unread field m s (redis.hincrby name k a s) (redis.hincrby_other name key k field a s e)
            h))
  ]
