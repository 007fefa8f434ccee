-- ===== src/Inspection/Findings.antt =====
-- Which sources need no action: what it means that a source has no findings (inspection.py).
use football_prediction_craw.Prelude.{
  ℕ, ◌+◌, ◌*◌, ◌≤◌, ◌<◌, ◌≡◌, ◌≢◌, ◌↔◌, refl, sym, ap, subst, Bool, true, false, not, ◌&&◌, Option,
  none, some, String, List, [], ◌∷◌, ◌++◌, leb, ltb, ◌==◌, Bool-cases, inl, inr, ◌⊎◌, arith,
}
use football_prediction_craw.Prelude.Result.{Result, ok, err, ◌>>=◌}
use football_prediction_craw.Moment.{
  DateTime, hours, offset, same_zone, later_than, elapsed_exceeds,
}
use football_prediction_craw.Inspection.Input.{Error, SourceHealthInput}
use football_prediction_craw.Inspection.{
  item_count_is_abnormal, found, run_findings, age_findings, success_findings, observed_denial,
  findings_with, is_empty,
}

-- a baseline is zero, or missed by less than its half, on either side
abbrev pub NearBaseline : ℕ → Option ℕ → Type 0
NearBaseline count none = Unit
NearBaseline count (some baseline) =
    (baseline ≡ 0) ⊎ ((baseline < 2 * count) × (2 * count < 3 * baseline))

-- an instant that is at most a day after another, from readings and offsets
abbrev pub InstantsWithinDay : ℕ → Option ℕ → ℕ → Option ℕ → Type 0
InstantsWithinDay a (some o) b (some p) = a + p ≤ b + o + hours 24
InstantsWithinDay a none b p = ⊥
InstantsWithinDay a (some o) b none = ⊥

-- the wall clocks of one zone, and the instants of different zones, differ by at most a day
abbrev pub Recent : DateTime → Option DateTime → Type 0
Recent window_end none = ⊥
Recent window_end (some t) =
    ((same_zone window_end.zone t.zone ≡ true) × (window_end.local ≤ t.local + hours 24))
    ⊎ ((same_zone window_end.zone t.zone ≡ false)
        × InstantsWithinDay window_end.local (offset window_end.zone) t.local (offset t.zone))

-- A source that needs no action: it ran, less than a fifth of its runs failed, it succeeded within
-- a day, its items are near the baseline, and nothing else was noticed.
pub record IsHealthy (window_end : DateTime) (s : SourceHealthInput) : Type 0 where
  pub mostly_succeeded : 4 * s.runs_failed < s.runs_succeeded
  pub recent : Recent window_end s.last_success_at
  pub near_baseline : NearBaseline s.item_count s.baseline_item_count
  pub no_snapshots : s.parse_failure_snapshot_count ≡ 0
  pub no_unauthorized : s.http_statuses.unauthorized ≡ 0
  pub no_forbidden : s.http_statuses.forbidden ≡ 0
  pub no_throttling : s.http_statuses.too_many_requests ≡ 0
  pub short_queue : s.queue_depth < 100
  pub closed_circuit : s.circuit_breaker_open ≡ false

is_ok : {A : Type 0} → Result Error A → Bool
is_ok (ok a) = true
is_ok (err e) = false

pub no_value : false ≢ true
no_value h = ground (arith, h)

value_or : {A : Type 0} → A → Result Error A → A
value_or a (ok b) = b
value_or a (err e) = a

pub ok_inj : {A : Type 0} {a b : A} → ◌≡◌ {A = Result Error A} (ok a) (ok b) → a ≡ b
unfolding value_or
ok_inj {a} h = ap (value_or a) h

-- what a value of a computation in two steps comes from
pub from_bind :
    {A B : Type 0} (m : Result Error A) (f : A → Result Error B) {b : B}
    → (m >>= f) ≡ ok b
    → (a : A) × (m ≡ ok a) × (f a ≡ ok b)
unfolding is_ok
from_bind (ok a) f h = (a, refl, h)
from_bind (err e) f h = absurd (no_value (ap is_ok h))

baseline_lem :
    (count : ℕ) (b : Option ℕ) → (item_count_is_abnormal count b ≡ false) ↔ NearBaseline count b
unfolding item_count_is_abnormal
baseline_lem count none = (λ h. tt, λ h. refl)
baseline_lem count (some b) = (
  (λ h. elim (Bool-cases (b == 0)) [
    | inl e ↦ inl (ground (arith, e))
    | inr e ↦ inr (ground (arith, h, e))
  ]),
  λ k. elim k [ inl z ↦ ground (arith, z) | inr p ↦ ground (arith, p.0, p.1) ],
)

-- an answer of a comparison that says no
AnswersNo : Option Bool → Type 0
AnswersNo none = ⊥
AnswersNo (some b) = b ≡ false

age_lem :
    (o : Option Bool) (fs : List String)
    → age_findings o ≡ ok fs
    → (is_empty fs ≡ true) ↔ AnswersNo o
unfolding age_findings AnswersNo is_ok
age_lem none fs h = absurd (no_value (ap is_ok h))
age_lem (some true) fs h =
    (λ k. ground (arith, subst (λ x. is_empty x ≡ true) (sym (ok_inj h)) k), λ k. ground (arith, k))
age_lem (some false) fs h = (λ k. refl, λ k. subst (λ x. is_empty x ≡ true) (ok_inj h) refl)

instants_lem :
    (a b : ℕ) (o p : Option ℕ)
    → AnswersNo (later_than (hours 24) a o b p) ↔ InstantsWithinDay a o b p
unfolding later_than AnswersNo
instants_lem a b (some o) (some p) = (λ h. ground arith, λ h. ground arith)
instants_lem a b none p = (λ h. h, λ h. h)
instants_lem a b (some o) none = (λ h. h, λ h. h)

elapsed_lem : (w t : DateTime) → AnswersNo (elapsed_exceeds (hours 24) w t) ↔ Recent w (some t)
unfolding elapsed_exceeds AnswersNo
elapsed_lem w t = elim (Bool-cases (same_zone w.zone t.zone)) [
  | inl e ↦ rw e (
    (λ h. inl (refl, ground arith)),
    λ k. elim k [ inl p ↦ wall p.1 | inr p ↦ absurd (no_value (sym p.0)) ],
  )
  | inr e ↦
      let instants = instants_lem w.local t.local (offset w.zone) (offset t.zone) in
      rw e (
        (λ h. inr (refl, instants.0 h)),
        λ k. elim k [ inl p ↦ absurd (no_value p.0) | inr p ↦ instants.1 p.1 ],
      )
]
  where
    wall : w.local ≤ t.local + hours 24 → ltb (t.local + hours 24) w.local ≡ false
    wall h = ground arith

success_lem :
    (w : DateTime) (t : Option DateTime) (fs : List String)
    → success_findings w t ≡ ok fs
    → (is_empty fs ≡ true) ↔ Recent w t
unfolding success_findings
success_lem w none fs h = (
  (λ k. absurd (ground (arith, subst (λ x. is_empty x ≡ true) (sym (ok_inj h)) k))),
  λ k. elim k [ ],
)
success_lem w (some t) fs h =
    let age = age_lem (elapsed_exceeds (hours 24) w t) fs h in
    let elapsed = elapsed_lem w t in ((λ k. elapsed.0 (age.0 k)), λ k. age.1 (elapsed.1 k))

run_lem : (good bad : ℕ) → (is_empty (run_findings (good + bad) bad) ≡ true) ↔ (4 * bad < good)
unfolding run_findings
run_lem good bad = (λ h. ground arith, λ h. ground arith)

-- seven lists of findings joined are empty when each one is
joined :
    (a b : List String) (c d e f g : Bool) (v w x y z : String)
    → is_empty (a ++ b ++ found c v ++ found d w ++ found e x ++ found f y ++ found g z)
      ≡ (is_empty a && is_empty b && not c && not d && not e && not f && not g)
joined (i ∷ a) b c d e f g v w x y z = refl
joined [] (i ∷ b) c d e f g v w x y z = refl
joined [] [] true d e f g v w x y z = refl
joined [] [] false true e f g v w x y z = refl
joined [] [] false false true f g v w x y z = refl
joined [] [] false false false true g v w x y z = refl
joined [] [] false false false false true v w x y z = refl
joined [] [] false false false false false v w x y z = refl

pub findings_lem :
    (w : DateTime) (s : SourceHealthInput) (fs : List String)
    → success_findings w s.last_success_at ≡ ok fs
    → (is_empty (findings_with s fs) ≡ true) ↔ IsHealthy w s
unfolding findings_with observed_denial
findings_lem w s fs h =
    let runs = run_lem s.runs_succeeded s.runs_failed in
    let success = success_lem w s.last_success_at fs h in
    let items = baseline_lem s.item_count s.baseline_item_count in
    let parts =
      joined (run_findings (s.runs_succeeded + s.runs_failed) s.runs_failed) fs
        (item_count_is_abnormal s.item_count s.baseline_item_count)
        (not (s.parse_failure_snapshot_count == 0)) (observed_denial s.http_statuses)
        (leb 100 s.queue_depth) s.circuit_breaker_open "item count deviates by at least 50%"
        "new parser-failure snapshots require review" "observed HTTP 401, 403, or 429"
        "queue depth at or above 100" "circuit breaker is open" in
    (
      (λ h. record {
        mostly_succeeded = runs.0 (ground (arith, parts));
        recent = success.0 (ground (arith, parts));
        near_baseline = items.0 (ground (arith, parts));
        no_snapshots = ground (arith, parts);
        no_unauthorized = ground (arith, parts);
        no_forbidden = ground (arith, parts);
        no_throttling = ground (arith, parts);
        short_queue = ground (arith, parts);
        closed_circuit = ground (arith, parts);
      }),
      λ h.
          rw
            (
              parts,
              runs.1 h.mostly_succeeded,
              success.1 h.recent,
              items.1 h.near_baseline,
              h.no_snapshots,
              h.no_unauthorized,
              h.no_forbidden,
              h.no_throttling,
              h.closed_circuit,
            )
            (ground (arith, h.short_queue)),
    )
