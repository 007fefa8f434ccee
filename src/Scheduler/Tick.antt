-- ===== src/Scheduler/Tick.antt =====
-- What one tick of a source does.
use football_prediction_craw.Prelude.{
  ℕ, ◌+◌, ◌*◌, ◌≤◌, ◌<◌, ◌≡◌, refl, Bool, true, false, Option, none, some, String, ◌∷◌, eq_iff,
  arith, leb, Option-cases, inl, inr, subst, ◌∙◌, ap,
}
use football_prediction_craw.Prelude.Result.{ok, Result-cases}
use football_prediction_craw.Prelude.Dict.{Dict, lookup, insert, lookup-insert}
use football_prediction_craw.Document.{Value, number, boolean, moment}
use football_prediction_craw.Moment.{
  DateTime, isoformat, fromisoformat, not_before-iso, plus_seconds, second,
}
use football_prediction_craw.Store.{KeyValue}
use football_prediction_craw.Scheduler.{
  Error, due, advanced, state_key, World, next_run, tick, truth,
}

pub written : DateTime → ℕ → Dict Value → Dict Value
written current n d =
    insert "last_dispatch" (moment (isoformat current))
      (insert "next" (moment (isoformat (plus_seconds current n))) d)

-- what `advanced` read and wrote
advanced_lem :
    (d d' : Dict Value) (current : DateTime)
    → advanced d current ≡ ok d'
    → (n : ℕ) × (lookup "interval" d ≡ some (number n)) × (60 ≤ n) × (d' ≡ written current n d)
unfolding advanced written
advanced_lem d d' current h = elim (Option-cases (lookup "interval" d)) [
  | inl e ↦ absurd (ground arith)
  | inr (v, e) ↦ from v e
]
  where
    from :
        (v : Value)
        → lookup "interval" d ≡ some v
        → (n : ℕ) × (lookup "interval" d ≡ some (number n)) × (60 ≤ n) × (d' ≡ written current n d)
    from (number n) e = (n, e, ground arith, ground arith)
    from Value.null e = absurd (ground arith)
    from (boolean b) e = absurd (ground arith)
    from (moment i) e = absurd (ground arith)
    from (Value.text t) e = absurd (ground arith)

pub advanced-eq :
    (d : Dict Value) (current : DateTime) (n : ℕ)
    → lookup "interval" d ≡ some (number n)
    → 60 ≤ n
    → advanced d current ≡ ok (written current n d)
unfolding advanced written
advanced-eq d current n i h = ground arith

lookup-written :
    (d : Dict Value) (current : DateTime) (n : ℕ)
    → (lookup "interval" (written current n d) ≡ lookup "interval" d)
      × (lookup "paused" (written current n d) ≡ lookup "paused" d)
      × (lookup "next" (written current n d) ≡ some (moment (isoformat (plus_seconds current n))))
unfolding written
lookup-written d current n = simp lookup-insert (refl, refl, refl)

-- a due state is not paused
due-true :
    (d : Dict Value) (current : DateTime)
    → due d current ≡ ok true
    → (p : Value) × (lookup "paused" d ≡ some p) × (truth p ≡ false)
unfolding due
due-true d current e = elim (Option-cases (lookup "paused" d)) [
  | inl x ↦ absurd (ground arith)
  | inr (p, x) ↦ (p, x, ground arith)
]

-- what a state with a reading under "next" and no pause answers
pub due_lem :
    (d : Dict Value) (t later : DateTime) (p : Value)
    → lookup "next" d ≡ some (moment (isoformat t))
    → lookup "paused" d ≡ some p
    → truth p ≡ false
    → later.zone ≡ t.zone
    → due d later ≡ ok (leb t.local later.local)
unfolding due
due_lem d t later p h x f z = ground (arith, not_before-iso later t z)

-- the state after a dispatch is not due before the interval is over
pub due-advanced :
    (d d' : Dict Value) (current later : DateTime) (n : ℕ)
    → advanced d current ≡ ok d'
    → due d current ≡ ok true
    → lookup "interval" d ≡ some (number n)
    → later.zone ≡ current.zone
    → due d' later ≡ ok (leb (current.local + n * second) later.local)
unfolding plus_seconds written
due-advanced d d' current later n h e i z =
    let (m, j, _, s) = advanced_lem d d' current h in
    let (p, x, f) = due-true d current e in
    let same : m ≡ n = cc in
    let t = plus_seconds current m in
    let (_, l, k) = lookup-written d current m in
    let r = due_lem d' t later p (ap (lookup "next") s ∙ k) (ap (lookup "paused") s ∙ l ∙ x) f z in
    subst (λ q. due d' later ≡ ok (leb (current.local + q * second) later.local)) same r

module _ (store : KeyValue (Dict Value)) (refuses : String → Option Error) where
  open store use {State, get, set, get-set}

  pub tick-true :
      (id : String) (current : DateTime) (w : World store refuses)
      → (tick store refuses id current w).0 ≡ ok true
      → (d : Dict Value) × (d' : Dict Value) × (get (state_key id) w.saved ≡ some d)
        × (due d current ≡ ok true)
        × (advanced d current ≡ ok d')
        × (tick store refuses id current w ≡ (
          ok true,
          record { saved = set (state_key id) d' w.saved; dispatched = id ∷ w.dispatched },
        ))
  unfolding tick
  tick-true id current w h = elim (Option-cases (get (state_key id) w.saved)) [
    | inl e ↦ absurd (ground arith)
    | inr (d, e) ↦ elim (Result-cases (advanced d current)) [
      | inl (d', a) ↦ (d, d', e, ground arith, a, ground arith)
      | inr (x, a) ↦ absurd (ground arith)
    ]
  ]

  pub get-set_self : (k : String) (d : Dict Value) (s : State) → get k (set k d s) ≡ some d
  get-set_self k d s = ground (arith, get-set k k d s, eq_iff k k)

  pub tick-not_due :
      (id : String) (current : DateTime) (w : World store refuses) (d : Dict Value)
      → get (state_key id) w.saved ≡ some d
      → due d current ≡ ok false
      → tick store refuses id current w ≡ (ok false, w)
  unfolding tick
  tick-not_due id current w d e f = ground arith

  pub tick-due :
      (id : String) (current : DateTime) (w : World store refuses) (d d' : Dict Value)
      → get (state_key id) w.saved ≡ some d
      → due d current ≡ ok true
      → advanced d current ≡ ok d'
      → refuses id ≡ none
      → tick store refuses id current w ≡ (
        ok true,
        record { saved = set (state_key id) d' w.saved; dispatched = id ∷ w.dispatched },
      )
  unfolding tick
  tick-due id current w d d' e f a r = ground arith

  -- A tick that dispatches hands the source to the callback exactly once, and a later tick of the
  -- same source, with a reading in the same zone, does nothing as long as the stored interval
  -- since the dispatch is not over.
  pub one_dispatch_per_interval :
      (id : String) (current later : DateTime) (w : World store refuses) (d : Dict Value) (n : ℕ)
      → get (state_key id) w.saved ≡ some d
      → lookup "interval" d ≡ some (number n)
      → (tick store refuses id current w).0 ≡ ok true
      → later.zone ≡ current.zone
      → later.local < current.local + n * second
      → let u = (tick store refuses id current w).1 in
        (u.dispatched ≡ id ∷ w.dispatched) × (tick store refuses id later u ≡ (ok false, u))
  one_dispatch_per_interval id current later w d n g i h z early =
      let (b, d', e, f, a, r) = tick-true id current w h in
      let same : b ≡ d = cc in
      let a' : advanced d current ≡ ok d' = rw same at a in
      let f' : due d current ≡ ok true = rw same at f in
      let wait : leb (current.local + n * second) later.local ≡ false = ground arith in
      let q : due d' later ≡ ok false =
        due-advanced d d' current later n a' f' i z ∙ ap (λ (x : Bool). ok x) wait in
      rw r (refl, tick-not_due id later _ d' (get-set_self _ d' w.saved) q)

  next_run-stored :
      (id : String) (w : World store refuses) (d : Dict Value) (t : DateTime)
      → get (state_key id) w.saved ≡ some d
      → lookup "next" d ≡ some (moment (isoformat t))
      → (next_run store refuses id w).0 ≡ ok (fromisoformat (isoformat t))
  unfolding next_run
  next_run-stored id w d t e f = ground arith

  -- When the stored interval since a dispatch is over, the next tick dispatches once more, if the
  -- callback accepts the source: one dispatch, however late the tick is, and the next run is due
  -- one interval after this tick.
  pub dispatch_resumes :
      (id : String) (current later : DateTime) (w : World store refuses) (d : Dict Value) (n : ℕ)
      → get (state_key id) w.saved ≡ some d
      → lookup "interval" d ≡ some (number n)
      → (tick store refuses id current w).0 ≡ ok true
      → refuses id ≡ none
      → later.zone ≡ current.zone
      → current.local + n * second ≤ later.local
      → let u = (tick store refuses id current w).1 in
        let (answer, v) = tick store refuses id later u in
        (answer ≡ ok true)
        × (v.dispatched ≡ id ∷ id ∷ w.dispatched)
        × ((next_run store refuses id v).0 ≡ ok (fromisoformat (isoformat (plus_seconds later n))))
  dispatch_resumes id current later w d n g i h accepts z late =
      let (b, d', e, f, a, r) = tick-true id current w h in
      let same : b ≡ d = cc in
      let a' : advanced d current ≡ ok d' = rw same at a in
      let f' : due d current ≡ ok true = rw same at f in
      let ready : leb (current.local + n * second) later.local ≡ true = ground arith in
      let q : due d' later ≡ ok true =
        due-advanced d d' current later n a' f' i z ∙ ap (λ (x : Bool). ok x) ready in
      let (m, j, at_least, s) = advanced_lem d d' current a' in
      let eq : m ≡ n = cc in
      let interval : lookup "interval" d' ≡ some (number n) =
        rw s ((lookup-written d current m).0 ∙ i) in
      let next = advanced-eq d' later n interval (omega arith) in
      let stored = get-set_self (state_key id) d' w.saved in
      let again =
        get-set_self (state_key id) (written later n d') (set (state_key id) d' w.saved) in
      let u : World store refuses = record {
        saved = set (state_key id) d' w.saved;
        dispatched = id ∷ w.dispatched;
      } in
      rw r (
        rw (tick-due id later u d' (written later n d') stored q next accepts) (
          refl,
          refl,
          next_run-stored id _ (written later n d') (plus_seconds later n) again
              (lookup-written d' later n).2,
        ))
