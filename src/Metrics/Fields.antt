-- ===== src/Metrics/Fields.antt =====
-- The fields of a source's hash have different names (metrics.py).
use Prim.Native.String
use Prim.Native.Char.{code}
use text.Mathlib.TextLemmas.{cons-append}
use football_prediction_craw.Prelude.{
  ap, ◌==◌, ==_iff, eq_iff, Bool-cases, inl, inr, ◌≡◌, refl, ℕ, ◌+◌, false, String, str_eq,
  if◌then◌else◌, arith,
}
use football_prediction_craw.Observability.{RunOutcome, outcome_value, succeeded, failed, skipped}
use football_prediction_craw.Moment.{DateTime}
use football_prediction_craw.Observability.Json.{Number}
use football_prediction_craw.Metrics.Recording.{ℤ, run_total, amount_of}
use football_prediction_craw.Metrics.Counting.{
  Counter, runs, failures, items_created, items_updated, parse_errors, lock_skips, run, items,
  parse_error, lock_skip, field_of, same_outcome, adds,
}

-- a statement on every counter
each :
    (P : Counter → Type 0)
    → P (runs succeeded)
    → P (runs failed)
    → P (runs skipped)
    → P failures
    → P items_created
    → P items_updated
    → P parse_errors
    → P lock_skips
    → (c : Counter) → P c
each P a b d e f g h k (runs succeeded) = a
each P a b d e f g h k (runs failed) = b
each P a b d e f g h k (runs skipped) = d
each P a b d e f g h k failures = e
each P a b d e f g h k items_created = f
each P a b d e f g h k items_updated = g
each P a b d e f g h k parse_errors = h
each P a b d e f g h k lock_skips = k

-- no gauge is a counter
pub duration_apart : (c : Counter) → str_eq "run_duration_seconds" (field_of c) ≡ false
unfolding field_of outcome_value
duration_apart =
    each (λ c. str_eq "run_duration_seconds" (field_of c) ≡ false) refl refl refl refl refl refl
      refl refl

pub found_apart : (c : Counter) → str_eq "items_found" (field_of c) ≡ false
unfolding field_of outcome_value
found_apart =
    each (λ c. str_eq "items_found" (field_of c) ≡ false) refl refl refl refl refl refl refl refl

pub run_id_apart : (c : Counter) → str_eq "last_run_id" (field_of c) ≡ false
unfolding field_of outcome_value
run_id_apart =
    each (λ c. str_eq "last_run_id" (field_of c) ≡ false) refl refl refl refl refl refl refl refl

pub success_apart : (c : Counter) → str_eq "last_success_timestamp" (field_of c) ≡ false
unfolding field_of outcome_value
success_apart =
    each (λ c. str_eq "last_success_timestamp" (field_of c) ≡ false) refl refl refl refl refl refl
      refl refl

pub breaker_apart : (c : Counter) → str_eq "circuit_breaker_state" (field_of c) ≡ false
unfolding field_of outcome_value
breaker_apart =
    each (λ c. str_eq "circuit_breaker_state" (field_of c) ≡ false) refl refl refl refl refl refl
      refl refl

-- one when the two fields are the same
abbrev pub one_if : String → Counter → ℕ
one_if field c = if str_eq field (field_of c) then 1 else 0

-- what the second counter of a run adds
unfoldable pub failure_adds : RunOutcome → Counter → ℕ
failure_adds failed c = one_if "run_failed_total" c
failure_adds succeeded c = 0
failure_adds skipped c = 0

module _ (run_id : String) (d n : Number) (t : DateTime) where
  pub counted_run :
      (outcome : RunOutcome) (c : Counter)
      → adds (run run_id outcome d n t) c ≡ one_if (run_total outcome) c + failure_adds outcome c
  unfolding adds same_outcome field_of outcome_value failure_adds
  counted_run succeeded =
      each
        (λ c.
          adds (run run_id succeeded d n t) c
          ≡ one_if (run_total succeeded) c + failure_adds succeeded c)
        refl refl refl refl refl refl refl refl
  counted_run failed =
      each
        (λ c.
          adds (run run_id failed d n t) c ≡ one_if (run_total failed) c + failure_adds failed c)
        refl refl refl refl refl refl refl refl
  counted_run skipped =
      each
        (λ c.
          adds (run run_id skipped d n t) c ≡ one_if (run_total skipped) c + failure_adds skipped c)
        refl refl refl refl refl refl refl refl

pub counted_items :
    (created updated : ℤ) (c : Counter)
    → adds (items created updated) c
      ≡ (if str_eq "items_created" (field_of c) then amount_of created else 0)
        + (if str_eq "items_updated" (field_of c) then amount_of updated else 0)
unfolding adds field_of outcome_value
counted_items created updated =
    each
      (λ c.
        adds (items created updated) c
        ≡ (if str_eq "items_created" (field_of c) then amount_of created else 0)
          + (if str_eq "items_updated" (field_of c) then amount_of updated else 0))
      refl refl refl refl (omega arith) (omega arith) refl refl

pub counted_parse_error : (c : Counter) → adds parse_error c ≡ one_if "parse_error_total" c
unfolding adds field_of outcome_value
counted_parse_error =
    each (λ c. adds parse_error c ≡ one_if "parse_error_total" c) refl refl refl refl refl refl refl
      refl

pub counted_lock_skip : (c : Counter) → adds lock_skip c ≡ one_if "lock_skip_total" c
unfolding adds field_of outcome_value
counted_lock_skip =
    each (λ c. adds lock_skip c ≡ one_if "lock_skip_total" c) refl refl refl refl refl refl refl
      refl

-- a field with a status is no counter of these
first : String → ℕ
first String.[] = 0
first (String.◌∷◌ c s) = code c

differ : (s t : String) → first s ≡ 104 → (first t == 104) ≡ false → str_eq s t ≡ false
differ s t h k = elim (Bool-cases (str_eq s t)) [
  | inl e ↦
      let same : s ≡ t = ground (arith, eq_iff s t) in
      ground (arith, ==_iff (first t) 104, ap first same)
  | inr e ↦ e
]

status_first : (digits : String) → first (String.◌++◌ "http_status:" digits) ≡ 104
unfolding first
status_first digits = ap first (cons-append "h" "ttp_status:" digits)

pub status_apart :
    (digits : String) (c : Counter)
    → str_eq (String.◌++◌ "http_status:" digits) (field_of c) ≡ false
unfolding field_of outcome_value first
status_apart digits =
    each (λ c. str_eq (String.◌++◌ "http_status:" digits) (field_of c) ≡ false)
      (at (run_total succeeded) refl) (at (run_total failed) refl) (at (run_total skipped) refl)
      (at "run_failed_total" refl) (at "items_created" refl) (at "items_updated" refl)
      (at "parse_error_total" refl) (at "lock_skip_total" refl)
  where
    at :
        (t : String)
        → (first t == 104) ≡ false
        → str_eq (String.◌++◌ "http_status:" digits) t ≡ false
    at t k = differ (String.◌++◌ "http_status:" digits) t (status_first digits) k
