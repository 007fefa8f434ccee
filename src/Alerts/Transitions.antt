-- ===== src/Alerts/Transitions.antt =====
-- The loop of `AlertEvaluator.evaluate` (src/multisite_crawler/alerts.py) over a list of different rules:
-- the notifications against the state before the loop, and the state after it.
use football_prediction_craw.Prelude.{
  ◌≡◌, refl, ap, ◌∙◌, Bool, true, false, not, ◌&&◌, none, some, String, str_eq, List, [], ◌∷◌, ◌++◌,
  All, arith, eq_iff, inl, inr, if◌then◌else◌, Option-cases, Bool-cases, is_some,
}
use text.Mathlib.TextLemmas.{append_cancel_left}
use football_prediction_craw.Prelude.Dict.{lookup}
use football_prediction_craw.Prelude.Result.{ok}
use football_prediction_craw.Prelude.Exec.{bind_ok}
use football_prediction_craw.Moment.{DateTime}
use football_prediction_craw.Store.{KeyValue}
use football_prediction_craw.Alerts.{
  AlertState, active, resolved, AlertEvent, state_value, runbooks, alert_key, is_active, event,
  turn, change, watch,
}

alert_key-ne :
    (source rule other : String)
    → str_eq rule other ≡ false
    → str_eq (alert_key source rule) (alert_key source other) ≡ false
unfolding alert_key
alert_key-ne source rule other h =
    elim (Bool-cases (str_eq (alert_key source rule) (alert_key source other))) [
      | inr e ↦ e
      | inl e ↦
          let whole =
            append_cancel_left "crawler:alerts:" _ _
              ((eq_iff (alert_key source rule) (alert_key source other)).0 e) in
          let same = append_cancel_left ":" rule other (append_cancel_left source _ _ whole) in
          ground (arith, same, eq_iff rule other)
    ]

flip : (a b : String) → str_eq a b ≡ false → str_eq b a ≡ false
flip a b h = ground (arith, h, eq_iff a b, eq_iff b a)

-- The state of `rule` belongs to none of the rules of the list.
abbrev pub Apart : String → List (String × Bool) → Type 0
Apart rule = All (λ c. str_eq c.0 rule ≡ false)

-- Every rule stands once in the list, and has a runbook.
abbrev pub Ready : List (String × Bool) → Type 0
Ready [] = Unit
Ready ((rule, now) ∷ rest) = Apart rule rest × (is_some (lookup rule runbooks) ≡ true) × Ready rest

module _ (store : KeyValue String) (source run : String) (current : DateTime) where
  -- the notification, with the runbook that the rule has
  abbrev pub note : String → AlertState → AlertEvent
  note rule state = record {
    rule = rule;
    state = state;
    source_id = source;
    crawl_run_id = run;
    troubleshooting_path = elim (lookup rule runbooks) [ none ↦ "" | some path ↦ path ];
    occurred_at = current;
  }

  abbrev pub was : String → store.State → Bool
  was rule s = is_active (store.get (alert_key source rule) s)

  -- The notifications that a reader of the state before the call expects: a rule that begins to
  -- hold, and a rule that was active and no longer holds.
  abbrev pub transitions : store.State → List (String × Bool) → List AlertEvent
  transitions s [] = []
  transitions s ((rule, now) ∷ rest) =
      if now && not (was rule s)
      then note rule active ∷ transitions s rest
      else if not now && was rule s
      then note rule resolved ∷ transitions s rest
      else transitions s rest

  -- the state after one rule
  settled : String → Bool → store.State → store.State
  settled rule now s =
      if now && not (was rule s)
      then store.set (alert_key source rule) (state_value active) s
      else if not now && was rule s
      then store.set (alert_key source rule) (state_value resolved) s
      else s

  pub settle : List (String × Bool) → store.State → store.State
  settle [] s = s
  settle ((rule, now) ∷ rest) s = settle rest (settled rule now s)

  event_lem :
      (rule : String) (state : AlertState)
      → is_some (lookup rule runbooks) ≡ true
      → event store source run current rule state ≡ ok (note rule state)
  unfolding event
  event_lem rule state h = elim (Option-cases (lookup rule runbooks)) [
    | inl e ↦ ground (arith, e, h)
    | inr (path, e) ↦ rw (event, e) refl
  ]

  change_lem :
      (rule : String) (now : Bool) (s : store.State)
      → is_some (lookup rule runbooks) ≡ true
      → change store source run current rule now s
        ≡ (ok (transitions s ((rule, now) ∷ [])), settled rule now s)
  unfolding change turn settled
  change_lem rule true s h = elim (Bool-cases (was rule s)) [
    | inl e ↦ rw (e) refl
    | inr e ↦ rw (e, event_lem rule active h) refl
  ]
  change_lem rule false s h = elim (Bool-cases (was rule s)) [
    | inl e ↦ rw (e, event_lem rule resolved h) refl
    | inr e ↦ rw (e) refl
  ]

  was-set :
      (rule other : String) (v : String) (s : store.State)
      → was other (store.set (alert_key source rule) v s) ≡ (
          if str_eq (alert_key source rule) (alert_key source other)
          then is_active (some v)
          else was other s)
  was-set rule other v s =
      elim (Bool-cases (str_eq (alert_key source rule) (alert_key source other))) [
        | inl e ↦ rw (store.get-set, e) refl
        | inr e ↦ rw (store.get-set, e) refl
      ]

  was-settled : (rule : String) (now : Bool) (s : store.State) → was rule (settled rule now s) ≡ now
  unfolding settled is_active state_value
  was-settled rule true s = elim (Bool-cases (was rule s)) [
    | inl e ↦ ground (arith, e)
    | inr e ↦ ground (
      arith,
      e,
      was-set rule rule (state_value active) s,
      eq_iff (alert_key source rule) (alert_key source rule),
    )
  ]
  was-settled rule false s = elim (Bool-cases (was rule s)) [
    | inl e ↦ ground (
      arith,
      e,
      was-set rule rule (state_value resolved) s,
      eq_iff (alert_key source rule) (alert_key source rule),
    )
    | inr e ↦ ground (arith, e)
  ]

  was-settled-other :
      (rule other : String) (now : Bool) (s : store.State)
      → str_eq rule other ≡ false
      → was other (settled rule now s) ≡ was other s
  unfolding settled
  was-settled-other rule other now s h = ground (
    arith,
    alert_key-ne source rule other h,
    was-set rule other (state_value active) s,
    was-set rule other (state_value resolved) s,
  )

  transitions-Apart :
      (rule : String) (now : Bool) (s : store.State) (cs : List (String × Bool))
      → Apart rule cs
      → transitions (settled rule now s) cs ≡ transitions s cs
  transitions-Apart rule now s [] far = refl
  transitions-Apart rule now s ((other, then_) ∷ cs) far = ground (
    arith,
    transitions-Apart rule now s cs far.1,
    was-settled-other rule other now s (flip other rule far.0),
  )

  watch_step :
      {first : List AlertEvent} (rule : String) (now : Bool) (cs : List (String × Bool))
      (s : store.State) {s₁ s₂ : store.State} (later : List AlertEvent)
      → change store source run current rule now s ≡ (ok first, s₁)
      → watch store source run current cs s₁ ≡ (ok later, s₂)
      → watch store source run current ((rule, now) ∷ cs) s ≡ (ok (first ++ later), s₂)
  unfolding watch
  watch_step rule now cs s later h k =
      bind_ok (change store source run current rule now) _ h
      ∙ bind_ok (watch store source run current cs) _ k

  pub watch_lem :
      (cs : List (String × Bool)) (s : store.State)
      → Ready cs
      → watch store source run current cs s ≡ (ok (transitions s cs), settle cs s)
  unfolding watch settle
  watch_lem [] s h = refl
  watch_lem ((rule, now) ∷ cs) s h =
      watch_step rule now cs s (transitions s cs) (change_lem rule now s h.1) (
        watch_lem cs (settled rule now s) h.2
        ∙ ap (λ l. (ok l, settle cs (settled rule now s))) (transitions-Apart rule now s cs h.0))
      ∙ ap (λ l. (ok l, settle cs (settled rule now s))) (ground arith)

  settle-Apart :
      (rule : String) (cs : List (String × Bool)) (s : store.State)
      → Apart rule cs
      → was rule (settle cs s) ≡ was rule s
  unfolding settle
  settle-Apart rule [] s far = refl
  settle-Apart rule ((other, now) ∷ cs) s far =
      settle-Apart rule cs (settled other now s) far.1 ∙ was-settled-other other rule now s far.0

  pub settle_lem :
      (cs : List (String × Bool)) (s : store.State)
      → Ready cs
      → All (λ c. was c.0 (settle cs s) ≡ c.1) cs
  unfolding settle
  settle_lem [] s h = tt
  settle_lem ((rule, now) ∷ cs) s h = (
    settle-Apart rule cs (settled rule now s) h.0 ∙ was-settled rule now s,
    settle_lem cs (settled rule now s) h.2,
  )

  pub quiet :
      (cs : List (String × Bool)) (s : store.State)
      → All (λ c. was c.0 s ≡ c.1) cs
      → (transitions s cs ≡ []) × (settle cs s ≡ s)
  unfolding settle settled
  quiet [] s h = (refl, refl)
  quiet ((rule, now) ∷ cs) s h =
      let rest = quiet cs s h.1 in
      elim (Bool-cases now) [
        | inl e ↦ ground (arith, rest, h.0, e)
        | inr e ↦ ground (arith, rest, h.0, e)
      ]
