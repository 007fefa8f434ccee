-- ===== src/Scheduler/Cycle/Ending.antt =====
-- What ends a pass over the sources: a failing source whose identifier is not valid.
use football_prediction_craw.Prelude.{
  ◌≡◌, refl, ◌∙◌, ap, sym, subst, false, Option, String, eq_iff, List, [], ◌∷◌, ◌++◌, All, arith,
}
use football_prediction_craw.Prelude.Result.{Result, err}
use football_prediction_craw.Prelude.Dict.{Dict}
use football_prediction_craw.Document.{Value}
use football_prediction_craw.Moment.{DateTime}
use football_prediction_craw.Patterns.{is_source_id}
use football_prediction_craw.Store.{KeyValue}
use football_prediction_craw.Scheduler.{Error, value_error, World, state_key, tick}
use football_prediction_craw.Scheduler.Cycle.{
  ScheduledSource, SchedulerCycleFailure, report, run_cycle,
}
use football_prediction_craw.Scheduler.Cycle.Isolation.{
  answer_alone, state_alone, tick-answer, tick-saved, stored, IsDistinct, IsValidSource,
  tick-Others, run_cycle-Others, run_cycle-rest, through,
}

All-back :
    (P : ScheduledSource → Type 0) (ys zs : List ScheduledSource) → All P (ys ++ zs) → All P zs
All-back P [] zs h = h
All-back P (y ∷ ys) zs h = All-back P ys zs h.1

All-front :
    (P : ScheduledSource → Type 0) (ys zs : List ScheduledSource) → All P (ys ++ zs) → All P ys
All-front P [] zs h = tt
All-front P (y ∷ ys) zs h = (h.0, All-front P ys zs h.1)

module _ (store : KeyValue (Dict Value)) (refuses : String → Option Error) where
  open store use {State}

  -- one step at a source whose identifier is not valid
  ended :
      (s : ScheduledSource) (sources : List ScheduledSource) (current : DateTime)
      (w : World store refuses) {e : Error}
      → is_source_id s.source_id ≡ false
      → (tick store refuses s.source_id current w).0 ≡ err e
      → run_cycle store refuses (s ∷ sources) current w
        ≡ (err value_error, (tick store refuses s.source_id current w).1)
  unfolding run_cycle
  ended s sources current w v h = ground arith

  raised-through :
      (s : ScheduledSource) (sources : List ScheduledSource) (current : DateTime)
      (w : World store refuses)
      → IsValidSource store refuses s
      → (run_cycle store refuses sources current (tick store refuses s.source_id current w).1).0
        ≡ err value_error
      → (run_cycle store refuses (s ∷ sources) current w).0 ≡ err value_error
  unfolding run_cycle report
  raised-through s sources current w v h = ground (arith, v, h)

  unchanged :
      (sources : List ScheduledSource) (t u x : State)
      → All (λ s. stored store refuses s u ≡ stored store refuses s t) sources
      → All (λ s. stored store refuses s x ≡ stored store refuses s u) sources
      → All (λ s. stored store refuses s x ≡ stored store refuses s t) sources
  unchanged [] t u x h k = tt
  unchanged (s ∷ sources) t u x h k = (k.0 ∙ h.0, unchanged sources t u x h.1 k.1)

  -- A source whose identifier is not valid and whose tick fails ends the pass with `ValueError`, also
  -- when it stands behind valid sources: the failures before it are lost, the states of the sources
  -- before it are those of a tick, and the states of the sources after it are as they were. The
  -- identifiers are different.
  pub invalid_source_ends_cycle :
      (before : List ScheduledSource) (bad : ScheduledSource) (after : List ScheduledSource)
      (current : DateTime) (w : World store refuses) (e : Error)
      → All (IsValidSource store refuses) before
      → IsDistinct store refuses (before ++ (bad ∷ after))
      → is_source_id bad.source_id ≡ false
      → answer_alone store refuses bad.source_id current (stored store refuses bad w.saved) ≡ err e
      → let (r, u) = run_cycle store refuses (before ++ (bad ∷ after)) current w in
        (r ≡ err value_error)
        × All
            (λ s.
              stored store refuses s u.saved
              ≡ state_alone store refuses current (stored store refuses s w.saved))
            before
        × All (λ s. stored store refuses s u.saved ≡ stored store refuses s w.saved) after
  invalid_source_ends_cycle [] bad after current w e v d wrong fails =
      let u = (tick store refuses bad.source_id current w).1 in
      subst
        (λ (x : Result Error (List SchedulerCycleFailure) × World store refuses).
          (x.0 ≡ err value_error)
          × Unit
          × All (λ s. stored store refuses s x.1.saved ≡ stored store refuses s w.saved) after)
        (sym (
          ended bad after current w wrong
            (tick-answer store refuses bad.source_id current w ∙ fails)))
        (refl, tt, tick-Others store refuses bad.source_id after current w d.0)
  invalid_source_ends_cycle (s ∷ before) bad after current w e v d wrong fails =
      let u = (tick store refuses s.source_id current w).1 in
      let others = tick-Others store refuses s.source_id (before ++ (bad ∷ after)) current w d.0 in
      let later =
        All-back (λ t. stored store refuses t u.saved ≡ stored store refuses t w.saved) before
          (bad ∷ after) others in
      let (raised, ticked, kept) =
        invalid_source_ends_cycle before bad after current u e v.1 d.1 wrong
          (ap (answer_alone store refuses bad.source_id current) later.0 ∙ fails) in
      let own = tick-saved store refuses s.source_id (state_key s.source_id) current w in
      let untouched =
        run_cycle-Others store refuses s.source_id (before ++ (bad ∷ after)) current u d.0 in
      let k = state_key s.source_id in
      let x = (run_cycle store refuses (before ++ (bad ∷ after)) current u).1.saved in
      let states_kept =
        subst
          (λ (y : World store refuses).
            All
              (λ t.
                stored store refuses t y.saved
                ≡ state_alone store refuses current (stored store refuses t w.saved))
              (s ∷ before)
            × All (λ t. stored store refuses t y.saved ≡ stored store refuses t w.saved) after)
          (sym (run_cycle-rest store refuses s (before ++ (bad ∷ after)) current w v.0))
          (
            (
              ground (arith, untouched, own, eq_iff k k),
              through store refuses before current w.saved u.saved x
                  (All-front (λ t. stored store refuses t u.saved ≡ stored store refuses t w.saved)
                    before (bad ∷ after) others)
                  ticked,
            ),
            unchanged after w.saved u.saved x later.1 kept,
          ) in
      (
        raised-through s (before ++ (bad ∷ after)) current w v.0 raised,
        states_kept.0,
        states_kept.1,
      )
