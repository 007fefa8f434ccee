-- ===== src/Inspection/Health.antt =====
-- When a daily report calls for action (inspection.py).
use football_prediction_craw.Prelude.{
  ◌≡◌, ◌≢◌, ◌↔◌, refl, sym, ap, ◌∙◌, subst, Bool, true, false, not, Option, String, str_eq, List,
  [], ◌∷◌, any, All, if◌then◌else◌, arith,
}
use football_prediction_craw.Prelude.Result.{ok, ◌>>=◌}
use football_prediction_craw.Moment.{DateTime}
use football_prediction_craw.Inspection.Input.{
  SourceHealthInput, HealthReportInput, beijing_timestamp,
}
use football_prediction_craw.Inspection.{
  SourceInspection, DailyInspectionReport, success_findings, findings_with, findings_of, inspection,
  inspect_source, inspect_all, is_empty, status_of, reports_of, window_start, or_end,
  build_daily_report, requires_action,
}
use football_prediction_craw.Inspection.Findings.{
  IsHealthy, no_value, ok_inj, from_bind, findings_lem,
}

any_findings : List SourceInspection → Bool
any_findings reports = any (λ r. not (is_empty r.findings)) reports

source_lem :
    (w : DateTime) (s : SourceHealthInput) (r : SourceInspection)
    → inspect_source w s ≡ ok r
    → (is_empty r.findings ≡ true) ↔ IsHealthy w s
unfolding inspect_source findings_of inspection
source_lem w s r h =
    let (all, found_all, same) =
      from_bind (findings_of s w) (λ findings. ok (inspection s findings)) h in
    let (fs, of_success, made) =
      from_bind (success_findings w s.last_success_at)
        (λ of_success. ok (findings_with s of_success)) found_all in
    subst (λ x. (is_empty x ≡ true) ↔ IsHealthy w s)
      (ok_inj made ∙ ap (λ x. x.findings) (ok_inj same)) (findings_lem w s fs of_success)

inspected-empty :
    (w : DateTime) (ss : List SourceHealthInput) (reports : List SourceInspection)
    → inspect_all w ss ≡ ok reports
    → ((any_findings reports ≡ false) ↔ All (IsHealthy w) ss) × ((reports ≡ []) ↔ (ss ≡ []))
unfolding inspect_all any_findings
inspected-empty w [] reports h =
    subst
      (λ x.
        ((any_findings x ≡ false) ↔ Unit) × ((x ≡ []) ↔ (◌≡◌ {A = List SourceHealthInput} [] [])))
      (ok_inj h) ((λ k. tt, λ k. refl), (λ k. refl, λ k. refl))
inspected-empty w (s ∷ ss) reports h =
    let (r, first, rest) =
      from_bind (inspect_source w s)
        (λ report. inspect_all w ss >>= λ reports. ok (report ∷ reports)) h in
    let (rs, others, same) = from_bind (inspect_all w ss) (λ reports. ok (r ∷ reports)) rest in
    let one = source_lem w s r first in
    let more = (inspected-empty w ss rs others).0 in
    subst
      (λ x.
        ((any_findings x ≡ false) ↔ (IsHealthy w s × All (IsHealthy w) ss))
        × ((x ≡ []) ↔ ((s ∷ ss) ≡ [])))
      (ok_inj same)
      (
        (
          (λ k. (one.0 (ground (arith, k)), more.0 (ground (arith, k)))),
          λ k. rw (one.1 k.0) (more.1 k.1),
        ),
        ((λ k. absurd (no_value (ap is_empty k))), λ k. absurd (no_value (ap is_empty k))),
      )

true_ne_false : true ≢ false
true_ne_false h = ground (arith, h)

list_lem : {s : SourceHealthInput} {ss : List SourceHealthInput} → (s ∷ ss) ≢ []
list_lem h = true_ne_false (sym (ap is_empty h))

-- the reports of the sources behind a report that was built
report-status :
    (input : HealthReportInput) (now : Option DateTime) (r : DailyInspectionReport)
    → build_daily_report input now ≡ ok r
    → (reports : List SourceInspection) × (inspect_all input.window_end input.sources ≡ ok reports)
      × (r.status ≡ status_of reports)
unfolding build_daily_report reports_of
report-status input now r h =
    let (generated, g, h₁) = from_bind (beijing_timestamp (or_end now input.window_end)) _ h in
    let (reports, made, h₂) = from_bind (inspect_all input.window_end input.sources) _ h₁ in
    let (start, k, same) = from_bind (window_start input.window_end) _ h₂ in
    (reports, made, ap (λ x. x.status) (sym (ok_inj same)))

abbrev chosen : Bool → String
chosen b = if b then "attention" else "healthy"

chosen_lem :
    (b : Bool) → ((str_eq (chosen b) "attention" ≡ false) ↔ (b ≡ false)) × (chosen b ≢ "no_data")
chosen_lem true = ((λ h. h, λ h. h), λ h. true_ne_false (sym (ap (λ x. str_eq x "no_data") h)))
chosen_lem false =
    ((λ h. refl, λ h. refl), λ h. true_ne_false (sym (ap (λ x. str_eq x "no_data") h)))

status_cases :
    (reports : List SourceInspection)
    → ((str_eq (status_of reports) "attention" ≡ false) ↔ (any_findings reports ≡ false))
      × ((status_of reports ≡ "no_data") ↔ (reports ≡ []))
unfolding status_of any_findings
status_cases [] = ((λ h. refl, λ h. refl), (λ h. refl, λ h. refl))
status_cases (r ∷ reports) =
    let (calm, some_data) = chosen_lem (any_findings (r ∷ reports)) in
    (calm, (λ h. elim (some_data h) [ ], λ h. absurd (no_value (ap is_empty h))))

-- A report that could be built requires action exactly when some source is not healthy, where a
-- healthy source ran, failed in less than a fifth of its runs, succeeded within the last day (by the
-- wall clocks of one zone, or else by the instants), found items within half of a baseline that is not
-- zero, and showed no snapshot, denial, backlog or open circuit; and its status is "no_data" exactly
-- when there is no source.
pub report_calls_for_action :
    (input : HealthReportInput) (now : Option DateTime) (r : DailyInspectionReport)
    → build_daily_report input now ≡ ok r
    → ((requires_action r ≡ false) ↔ All (IsHealthy input.window_end) input.sources)
      × ((r.status ≡ "no_data") ↔ (input.sources ≡ []))
unfolding requires_action
report_calls_for_action input now r h =
    let (reports, made, status) = report-status input now r h in
    let (calm, no_data) = status_cases reports in
    let (healthy, no_source) = inspected-empty input.window_end input.sources reports made in
    subst
      (λ x.
        ((str_eq x "attention" ≡ false) ↔ All (IsHealthy input.window_end) input.sources)
        × ((x ≡ "no_data") ↔ (input.sources ≡ [])))
      (sym status)
      (
        (λ k. healthy.0 (calm.0 k), λ k. calm.1 (healthy.1 k)),
        (λ k. no_source.0 (no_data.0 k), λ k. no_data.1 (no_source.1 k)),
      )
