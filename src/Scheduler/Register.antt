-- ===== src/Scheduler/Register.antt =====
-- Registration, pausing, and a dispatch that the callback refuses.
use football_prediction_craw.Prelude.{
  ℕ, ◌+◌, ◌*◌, ◌≤◌, ◌<◌, ◌≡◌, refl, Bool, true, false, Option, none, some, String, [], ◌∷◌, arith,
  leb, ◌∙◌, ap,
}
use football_prediction_craw.Prelude.Result.{ok, err}
use football_prediction_craw.Prelude.Dict.{Dict, lookup, insert, lookup-insert}
use football_prediction_craw.Document.{Value, number, boolean, moment}
use football_prediction_craw.Moment.{DateTime, isoformat, second}
use football_prediction_craw.Store.{KeyValue}
use football_prediction_craw.Scheduler.{
  Error, due, advanced, state_key, World, register_if_missing, pause, tick, truth,
}
use football_prediction_craw.Scheduler.Tick.{
  get-set_self, tick-not_due, due_lem, advanced-eq, tick-due, due-advanced, written,
}

module _ (store : KeyValue (Dict Value)) (refuses : String → Option Error) where
  open store use {State, get, set, get-set}

  -- the object that `register` stores
  fresh_state : ℕ → DateTime → Dict Value
  fresh_state n t =
      ("interval", number n) ∷ ("paused", boolean false) ∷ ("next", moment (isoformat t)) ∷ []

  fresh_state-interval :
      (n : ℕ) (t : DateTime) → lookup "interval" (fresh_state n t) ≡ some (number n)
  unfolding fresh_state lookup
  fresh_state-interval n t = refl

  fresh_state-due :
      (n : ℕ) (t later : DateTime)
      → later.zone ≡ t.zone
      → due (fresh_state n t) later ≡ ok (leb t.local later.local)
  unfolding fresh_state lookup truth
  fresh_state-due n t later z = due_lem (fresh_state n t) t later (boolean false) refl refl refl z

  register-saved :
      (id : String) (n : ℕ) (t : DateTime) (w : World store refuses)
      → 60 ≤ n
      → get (state_key id) w.saved ≡ none
      → register_if_missing store refuses id n t w
        ≡ (ok true, record w { saved = set (state_key id) (fresh_state n t) w.saved })
  unfolding register_if_missing fresh_state
  register-saved id n t w h e = ground arith

  register_keeps :
      (id : String) (n : ℕ) (t : DateTime) (w : World store refuses) {d : Dict Value}
      → get (state_key id) w.saved ≡ some d
      → register_if_missing store refuses id n t w ≡ (ok false, w)
  unfolding register_if_missing
  register_keeps id n t w e = ground arith

  -- With an interval of at least a minute, a source that has no state is registered; registering
  -- it again, as a restarted scheduler does, answers `False` and keeps the state, whatever the
  -- interval and the time then.
  pub register_once :
      (id : String) (n m : ℕ) (t t' : DateTime) (w : World store refuses)
      → 60 ≤ n
      → get (state_key id) w.saved ≡ none
      → let (answer, u) = register_if_missing store refuses id n t w in
        (answer ≡ ok true) × (register_if_missing store refuses id m t' u ≡ (ok false, u))
  register_once id n m t t' w h e =
      let r = register-saved id n t w h e in
      rw r (
        refl,
        register_keeps id m t' _
            (get-set_self store refuses (state_key id) (fresh_state n t) w.saved),
      )

  -- A source that has just been registered is dispatched by the first tick that is not before the
  -- time of its registration, in the same zone, if the callback accepts it.
  pub registered_source_is_due :
      (id : String) (n : ℕ) (t later : DateTime) (w : World store refuses)
      → 60 ≤ n
      → get (state_key id) w.saved ≡ none
      → later.zone ≡ t.zone
      → t.local ≤ later.local
      → refuses id ≡ none
      → let u = (register_if_missing store refuses id n t w).1 in
        let (answer, v) = tick store refuses id later u in
        (answer ≡ ok true) × (v.dispatched ≡ id ∷ w.dispatched)
  registered_source_is_due id n t later w h e z p accepts =
      let d = fresh_state n t in
      let u : World store refuses = record w { saved = set (state_key id) d w.saved } in
      let ready : leb t.local later.local ≡ true = ground arith in
      let is_due = fresh_state-due n t later z ∙ ap (λ (x : Bool). ok x) ready in
      let next = advanced-eq d later n (fresh_state-interval n t) h in
      rw (register-saved id n t w h e) (
        rw
          (tick-due store refuses id later u d (written later n d)
            (get-set_self store refuses (state_key id) d w.saved) is_due next accepts)
          (refl, refl))

  tick-refused :
      (id : String) (current : DateTime) (w : World store refuses) (d d' : Dict Value) (e : Error)
      → get (state_key id) w.saved ≡ some d
      → due d current ≡ ok true
      → advanced d current ≡ ok d'
      → refuses id ≡ some e
      → tick store refuses id current w
        ≡ (err e, record w { saved = set (state_key id) d' w.saved })
  unfolding tick
  tick-refused id current w d d' e g f a r = ground arith

  -- A dispatch that the callback refuses raises its exception, and the schedule has already moved
  -- on: the next tick before the interval is over does nothing.
  pub refused_dispatch_is_not_retried :
      (id : String) (current later : DateTime) (w : World store refuses) (d : Dict Value) (n : ℕ)
      (e : Error)
      → get (state_key id) w.saved ≡ some d
      → lookup "interval" d ≡ some (number n)
      → 60 ≤ n
      → due d current ≡ ok true
      → refuses id ≡ some e
      → later.zone ≡ current.zone
      → later.local < current.local + n * second
      → let (answer, u) = tick store refuses id current w in
        (answer ≡ err e) × (tick store refuses id later u ≡ (ok false, u))
  refused_dispatch_is_not_retried id current later w d n e g i h f r z early =
      let d' = written current n d in
      let a = advanced-eq d current n i h in
      let wait : leb (current.local + n * second) later.local ≡ false = ground arith in
      let q : due d' later ≡ ok false =
        due-advanced d d' current later n a f i z ∙ ap (λ (x : Bool). ok x) wait in
      rw (tick-refused id current w d d' e g f a r)
        (refl, tick-not_due store refuses id later _ d' (get-set_self store refuses _ d' w.saved) q)

  pause-saved :
      (id : String) (p : Bool) (w : World store refuses) (d : Dict Value)
      → get (state_key id) w.saved ≡ some d
      → pause store refuses id p w
        ≡ (ok tt, record w { saved = set (state_key id) (insert "paused" (boolean p) d) w.saved })
  unfolding pause
  pause-saved id p w d g = ground arith

  due-paused :
      (d : Dict Value) (t current : DateTime)
      → lookup "next" d ≡ some (moment (isoformat t))
      → due (insert "paused" (boolean true) d) current ≡ ok false
  unfolding due
  due-paused d t current i = ground (
    arith,
    lookup-insert "paused" "next" (boolean true) d,
    lookup-insert "paused" "paused" (boolean true) d,
  )

  -- While a source is paused its ticks do nothing, if its state holds a reading under "next".
  pub paused_source_waits :
      (id : String) (current : DateTime) (w : World store refuses) (d : Dict Value) (t : DateTime)
      → get (state_key id) w.saved ≡ some d
      → lookup "next" d ≡ some (moment (isoformat t))
      → let u = (pause store refuses id true w).1 in tick store refuses id current u ≡ (ok false, u)
  paused_source_waits id current w d t g i = rw (pause-saved id true w d g) (
      tick-not_due store refuses id current _ (insert "paused" (boolean true) d)
        (get-set_self store refuses _ _ w.saved) (due-paused d t current i))
