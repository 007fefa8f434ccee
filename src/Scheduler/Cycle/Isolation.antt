-- ===== src/Scheduler/Cycle/Isolation.antt =====
-- A pass over the sources treats each of them as if it were alone.
use text.Mathlib.TextLemmas.{append_cancel_left}
use football_prediction_craw.Prelude.{
  ◌≡◌, refl, ◌≢◌, ◌∙◌, ap, sym, subst, Bool, true, false, Option, none, some, String, str_eq,
  eq_iff, List, [], ◌∷◌, All, if◌then◌else◌, arith, Option-cases, inl, inr,
}
use football_prediction_craw.Prelude.Result.{Result, ok, err, Result-cases}
use football_prediction_craw.Prelude.Dict.{Dict}
use football_prediction_craw.Document.{Value}
use football_prediction_craw.Moment.{DateTime}
use football_prediction_craw.Patterns.{is_source_id}
use football_prediction_craw.Store.{KeyValue}
use football_prediction_craw.Scheduler.{Error, key_error, World, due, advanced, state_key, tick}
use football_prediction_craw.Scheduler.Cycle.{ScheduledSource, SchedulerCycleFailure, run_cycle}

module _ (store : KeyValue (Dict Value)) (refuses : String → Option Error) where
  open store use {State, get, set, get-set}

  -- A tick as a function of the source's own stored state: its answer, and the state after.
  unfoldable pub answer_alone : String → DateTime → Option (Dict Value) → Result Error Bool
  answer_alone id current none = err key_error
  answer_alone id current (some d) = elim (due d current) [
    | err e ↦ err e
    | ok is_due ↦
        if is_due
        then elim (advanced d current) [
          | err e ↦ err e
          | ok d' ↦ elim (refuses id) [ none ↦ ok true | some e ↦ err e ]
        ]
        else ok false
  ]

  pub state_alone : DateTime → Option (Dict Value) → Option (Dict Value)
  state_alone current none = none
  state_alone current (some d) = elim (due d current) [
    | err e ↦ some d
    | ok is_due ↦
        if is_due then elim (advanced d current) [ err e ↦ some d | ok d' ↦ some d' ] else some d
  ]

  -- `tick` reads and writes the state of its own source only.
  pub tick-answer :
      (id : String) (current : DateTime) (w : World store refuses)
      → (tick store refuses id current w).0 ≡ answer_alone id current (get (state_key id) w.saved)
  unfolding tick answer_alone
  tick-answer id current w = ground arith

  pub tick-saved :
      (id : String) (k : String) (current : DateTime) (w : World store refuses)
      → get k (tick store refuses id current w).1.saved ≡ (
          if str_eq (state_key id) k
          then state_alone current (get (state_key id) w.saved)
          else get k w.saved)
  unfolding tick state_alone
  tick-saved id k current w = elim (Option-cases (get (state_key id) w.saved)) [
    | inl e ↦ ground (arith, eq_iff (state_key id) k)
    | inr (d, e) ↦ elim (Result-cases (advanced d current)) [
      | inl (d', a) ↦ ground (arith, eq_iff (state_key id) k, get-set (state_key id) k d' w.saved)
      | inr (x, a) ↦ ground (arith, eq_iff (state_key id) k)
    ]
  ]

  abbrev pub stored : ScheduledSource → State → Option (Dict Value)
  stored s t = get (state_key s.source_id) t

  -- the failures of the sources, each ticked alone on the state of a store
  pub failures_alone : List ScheduledSource → DateTime → State → List SchedulerCycleFailure
  failures_alone [] current t = []
  failures_alone (s ∷ sources) current t =
      let rest = failures_alone sources current t in
      elim (answer_alone s.source_id current (stored s t)) [
        | ok dispatched ↦ rest
        | err e ↦ record { source_id = s.source_id; error = e } ∷ rest
      ]

  failures_alone-congr :
      (sources : List ScheduledSource) (current : DateTime) (t u : State)
      → All (λ s. stored s t ≡ stored s u) sources
      → failures_alone sources current t ≡ failures_alone sources current u
  unfolding failures_alone
  failures_alone-congr [] current t u h = refl
  failures_alone-congr (s ∷ sources) current t u h =
      ground (arith, failures_alone-congr sources current t u h.1)

  abbrev pub Others : String → List ScheduledSource → Type 0
  Others id sources = All (λ s. id ≢ s.source_id) sources

  -- no two sources have the same identifier
  abbrev pub IsDistinct : List ScheduledSource → Type 0
  IsDistinct [] = Unit
  IsDistinct (s ∷ sources) = Others s.source_id sources × IsDistinct sources

  abbrev pub IsValidSource : ScheduledSource → Type 0
  IsValidSource s = is_source_id s.source_id ≡ true

  keys_differ : (i j : String) → i ≢ j → str_eq (state_key i) (state_key j) ≡ false
  unfolding state_key
  keys_differ i j h =
      ground (arith, eq_iff (state_key i) (state_key j), append_cancel_left "scheduler:" i j)

  pub tick-Others :
      (id : String) (sources : List ScheduledSource) (current : DateTime) (w : World store refuses)
      → Others id sources
      → All (λ s. stored s (tick store refuses id current w).1.saved ≡ stored s w.saved) sources
  tick-Others id [] current w h = tt
  tick-Others id (s ∷ sources) current w h = (
    ground (arith, tick-saved id (state_key s.source_id) current w, keys_differ id s.source_id h.0),
    tick-Others id sources current w h.1,
  )

  pub run_cycle-Others :
      (id : String) (sources : List ScheduledSource) (current : DateTime) (w : World store refuses)
      → Others id sources
      → get (state_key id) (run_cycle store refuses sources current w).1.saved
        ≡ get (state_key id) w.saved
  unfolding run_cycle
  run_cycle-Others id [] current w h = refl
  run_cycle-Others id (s ∷ sources) current w h =
      let u = (tick store refuses s.source_id current w).1 in
      ground (
        arith,
        run_cycle-Others id sources current u h.1,
        tick-saved s.source_id (state_key id) current w,
        keys_differ s.source_id id (λ p. h.0 (sym p)),
      )

  answers :
      (sources : List ScheduledSource) (current : DateTime) (w : World store refuses)
      → All IsValidSource sources
      → IsDistinct sources
      → (run_cycle store refuses sources current w).0 ≡ ok (failures_alone sources current w.saved)
  unfolding run_cycle failures_alone
  answers [] current w v d = refl
  answers (s ∷ sources) current w v d =
      let u = (tick store refuses s.source_id current w).1 in
      let ih = answers sources current u v.1 d.1 in
      let same =
        failures_alone-congr sources current u.saved w.saved
          (tick-Others s.source_id sources current w d.0) in
      ground (arith, ih, same, tick-answer s.source_id current w, v.0)

  pub run_cycle-rest :
      (s : ScheduledSource) (sources : List ScheduledSource) (current : DateTime)
      (w : World store refuses)
      → IsValidSource s
      → (run_cycle store refuses (s ∷ sources) current w).1
        ≡ (run_cycle store refuses sources current (tick store refuses s.source_id current w).1).1
  unfolding run_cycle
  run_cycle-rest s sources current w v = ground arith

  pub through :
      (sources : List ScheduledSource) (current : DateTime) (t u x : State)
      → All (λ s. stored s u ≡ stored s t) sources
      → All (λ s. stored s x ≡ state_alone current (stored s u)) sources
      → All (λ s. stored s x ≡ state_alone current (stored s t)) sources
  through [] current t u x h k = tt
  through (s ∷ sources) current t u x h k =
      (k.0 ∙ ap (state_alone current) h.0, through sources current t u x h.1 k.1)

  states :
      (sources : List ScheduledSource) (current : DateTime) (w : World store refuses)
      → All IsValidSource sources
      → IsDistinct sources
      → All
          (λ s.
            stored s (run_cycle store refuses sources current w).1.saved
            ≡ state_alone current (stored s w.saved))
          sources
  states [] current w v d = tt
  states (s ∷ sources) current w v d =
      let u = (tick store refuses s.source_id current w).1 in
      let others = tick-Others s.source_id sources current w d.0 in
      let own = tick-saved s.source_id (state_key s.source_id) current w in
      let after = run_cycle-Others s.source_id sources current u d.0 in
      let k = state_key s.source_id in
      subst
        (λ (x : World store refuses).
          All (λ t. stored t x.saved ≡ state_alone current (stored t w.saved)) (s ∷ sources))
        (sym (run_cycle-rest s sources current w v.0))
        (
          ground (arith, after, own, eq_iff k k),
          through sources current w.saved u.saved _ others (states sources current u v.1 d.1),
        )

  -- In a pass over sources with valid and different identifiers no failure stops the pass: the
  -- failures that it returns, and the state that it leaves for each source, are those of a tick of
  -- that source alone on the state before the pass.
  pub run_cycle_isolates :
      (sources : List ScheduledSource) (current : DateTime) (w : World store refuses)
      → All IsValidSource sources
      → IsDistinct sources
      → let (failures, u) = run_cycle store refuses sources current w in
        (failures ≡ ok (failures_alone sources current w.saved))
        × All (λ s. stored s u.saved ≡ state_alone current (stored s w.saved)) sources
  run_cycle_isolates sources current w v d =
      (answers sources current w v d, states sources current w v d)
