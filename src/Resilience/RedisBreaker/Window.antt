-- ===== src/Resilience/RedisBreaker/Window.antt =====
-- What is left of a circuit when its key expires.
use football_prediction_craw.Prelude.{
  ℕ, ◌+◌, ◌≤◌, ◌<◌, ◌≡◌, true, String, eq_iff, ltb, leb, if◌then◌else◌, arith, List, [], ◌∷◌,
}
use football_prediction_craw.Store.{Expiring}
use football_prediction_craw.Resilience.RedisBreaker.{
  CircuitDoc, empty, or_zero, circuit_key, load, allow_request, failed, record_failure,
}

module _ (redis : Expiring CircuitDoc) (threshold recovery : ℕ) where
  open redis use {State, get, set, get-set}

  -- what is read back after a failure, inside and after the time to live of its key
  load-record_failure :
      (k : String) (now later : ℕ) (s : State)
      → now ≤ later
      → load redis threshold recovery k later (record_failure redis threshold recovery k now s) ≡ (
          if ltb later (now + recovery)
          then failed redis threshold recovery (load redis threshold recovery k now s) now
          else empty)
  unfolding load record_failure
  load-record_failure k now later s h =
      rw (get-set now later (circuit_key k) (circuit_key k) _ recovery s h)
        (ground (arith, eq_iff (circuit_key k) (circuit_key k)))

  -- A failure that reaches the threshold refuses every request of the source until the recovery
  -- time is over; after that every request is admitted, and none of them changes the store.
  pub window_after_failure :
      (k : String) (now later : ℕ) (s : State)
      → now ≤ later
      → threshold ≤ or_zero (load redis threshold recovery k now s).failures + 1
      → allow_request redis threshold recovery k later
          (record_failure redis threshold recovery k now s)
        ≡ (leb (now + recovery) later, record_failure redis threshold recovery k now s)
  unfolding allow_request failed
  window_after_failure k now later s h t = ground (arith, load-record_failure k now later s h)

  pub record_failures : String → List ℕ → State → State
  record_failures k [] s = s
  record_failures k (t ∷ ts) s =
      record_failures k ts (record_failure redis threshold recovery k t s)

  -- each time at least the recovery time after the one before, the first after `now`
  abbrev pub Spaced : ℕ → List ℕ → Type 0
  Spaced now [] = Unit
  Spaced now (t ∷ ts) = (now + recovery ≤ t) × Spaced t ts

  abbrev pub last_of : ℕ → List ℕ → ℕ
  last_of t [] = t
  last_of t (u ∷ us) = last_of u us

  second_failure :
      (k : String) (now next later : ℕ) (s : State)
      → now + recovery ≤ next
      → next ≤ later
      → 1 < threshold
      → (allow_request redis threshold recovery k later (
          record_failure redis threshold recovery k next
            (record_failure redis threshold recovery k now s))).0
        ≡ true
  unfolding allow_request failed
  second_failure k now next later s h p t =
      let one = record_failure redis threshold recovery k now s in
      ground (
        arith,
        load-record_failure k now next s (omega arith),
        load-record_failure k next later one p,
      )

  -- Failures that each come at least the recovery time after the one before are never counted
  -- together: whatever their number, and with a threshold of two or more, the circuit admits a
  -- request at any time after the last of them.
  pub slow_failures_never_open :
      (k : String) (now t later : ℕ) (ts : List ℕ) (s : State)
      → Spaced now (t ∷ ts)
      → last_of t ts ≤ later
      → 1 < threshold
      → (allow_request redis threshold recovery k later (record_failures k (now ∷ t ∷ ts) s)).0
        ≡ true
  unfolding record_failures
  slow_failures_never_open k now t later [] s h p q = second_failure k now t later s h.0 p q
  slow_failures_never_open k now t later (u ∷ us) s h p q =
      slow_failures_never_open k t u later us (record_failure redis threshold recovery k now s) h.1
        p q
