-- ===== src/Resilience/Breaker/Trip.antt =====
-- When a circuit opens, and how it is probed.
use football_prediction_craw.Prelude.{
  ℕ, ◌+◌, ◌≤◌, ◌≡◌, refl, ◌≢◌, true, false, none, some, String, List, [], ◌∷◌, str_eq, eq_iff,
  if◌then◌else◌, arith, leb, length, All, inl, inr, Bool-cases,
}
use football_prediction_craw.Resilience.Breaker.{
  CircuitState, CircuitBreaker, fresh, state_of, save, allow, fail, allow_request, record_failure,
  record_success, Call, allow_call, failure_call, success_call, call, calls,
}
use football_prediction_craw.Resilience.Breaker.Laws.{state_of-save_self, call_isolated}

-- `record_failure` for one source at each of the times
pub record_failures : String → List ℕ → CircuitBreaker → CircuitBreaker
record_failures k [] b = b
record_failures k (t ∷ ts) b = record_failures k ts (record_failure k t b)

abbrev pub last_of : ℕ → List ℕ → ℕ
last_of t [] = t
last_of t (u ∷ us) = last_of u us

state_of-record_failure :
    (k : String) (t : ℕ) (b : CircuitBreaker)
    → state_of k (record_failure k t b) ≡ fail b.failure_threshold t (state_of k b)
unfolding record_failure
state_of-record_failure k t b = state_of-save_self k _ b

threshold-record_failure :
    (k : String) (t : ℕ) (b : CircuitBreaker)
    → (record_failure k t b).failure_threshold ≡ b.failure_threshold
unfolding record_failure save
threshold-record_failure k t b = refl

state_of-record_success :
    (k : String) (b : CircuitBreaker) → state_of k (record_success k b) ≡ fresh
unfolding record_success
state_of-record_success k b = state_of-save_self k fresh b

threshold-record_success :
    (k : String) (b : CircuitBreaker) → (record_success k b).failure_threshold ≡ b.failure_threshold
unfolding record_success save
threshold-record_success k b = refl

-- a run of failures, from any state of the circuit
failures_from :
    (k : String) (t : ℕ) (ts : List ℕ) (b : CircuitBreaker)
    → let s = state_of k b in
      let u = state_of k (record_failures k (t ∷ ts) b) in
      (u.failures ≡ s.failures + 1 + length ts)
      × (u.opened_at ≡ (
          if leb b.failure_threshold (s.failures + 1 + length ts)
          then some (last_of t ts)
          else s.opened_at))
unfolding record_failures fail
failures_from k t [] b = rw (state_of-record_failure k t b) (ground arith)
failures_from k t (u ∷ ts) b = ground (
  arith,
  failures_from k u ts (record_failure k t b),
  state_of-record_failure k t b,
  threshold-record_failure k t b,
)

-- A source whose circuit was reset and that then fails at each of the given times has an open
-- circuit exactly when there were at least the threshold of failures, opened at the last of them.
pub trips_at_threshold :
    (k : String) (t : ℕ) (ts : List ℕ) (b : CircuitBreaker)
    → (state_of k (record_failures k (t ∷ ts) (record_success k b))).opened_at
      ≡ (if leb b.failure_threshold (1 + length ts) then some (last_of t ts) else none)
trips_at_threshold k t ts b = ground (
  arith,
  failures_from k t ts (record_success k b),
  state_of-record_success k b,
  threshold-record_success k b,
)

-- the calls that report no result for the source
abbrev pub Undecided : String → Call → Type 0
Undecided k (allow_call j now) = Unit
Undecided k (failure_call j now) = j ≢ k
Undecided k (success_call j) = j ≢ k

abbrev IsProbing : String → CircuitBreaker → Type 0
IsProbing k b = ((state_of k b).half_open ≡ true) × ((state_of k b).opened_at ≢ none)

allow-probing :
    (recovery now : ℕ) (s : CircuitState)
    → s.half_open ≡ true
    → s.opened_at ≢ none
    → allow recovery now s ≡ (false, s)
unfolding allow
allow-probing recovery now s h o = ground arith

-- while the probe is out, a request is refused and the circuit stays
allow_request-probing :
    (k : String) (now : ℕ) (b : CircuitBreaker)
    → IsProbing k b
    → ((allow_request k now b).0 ≡ false) × (state_of k (allow_request k now b).1 ≡ state_of k b)
unfolding allow_request
allow_request-probing k now b h =
    let e : allow b.recovery_seconds now (state_of k b) ≡ (false, state_of k b) =
      allow-probing _ _ _ h.0 h.1 in
    rw e (refl, state_of-save_self k (state_of k b) b)

call-IsProbing :
    (k : String) (c : Call) (b : CircuitBreaker)
    → Undecided k c
    → IsProbing k b
    → IsProbing k (call c b)
call-IsProbing k (allow_call j now) b u h = elim (Bool-cases (str_eq j k)) [
  | inl e ↦
      let same : j ≡ k = (eq_iff j k).0 e in
      rw same (unfold call in rw ((allow_request-probing k now b h).1) h)
  | inr e ↦
      let other : j ≢ k = λ p. ground (arith, eq_iff j k) in
      rw (call_isolated (allow_call j now) k b other) h
]
call-IsProbing k (failure_call j now) b u h = rw (call_isolated (failure_call j now) k b u) h
call-IsProbing k (success_call j) b u h = rw (call_isolated (success_call j) k b u) h

calls-IsProbing :
    (k : String) (cs : List Call) (b : CircuitBreaker)
    → All (Undecided k) cs
    → IsProbing k b
    → IsProbing k (calls cs b)
unfolding calls
calls-IsProbing k [] b u h = h
calls-IsProbing k (c ∷ cs) b u h = calls-IsProbing k cs (call c b) u.1 (call-IsProbing k c b u.0 h)

probe_admitted :
    (k : String) (now opened : ℕ) (b : CircuitBreaker)
    → (state_of k b).opened_at ≡ some opened
    → (state_of k b).half_open ≡ false
    → opened + b.recovery_seconds ≤ now
    → ((allow_request k now b).0 ≡ true) × IsProbing k (allow_request k now b).1
unfolding allow_request
probe_admitted k now opened b o h p =
    let e : allow b.recovery_seconds now (state_of k b)
        ≡ (true, record (state_of k b) { half_open = true }) =
      unfold allow in ground arith in
    rw e (refl, (rw (state_of-save_self k _ b) refl, rw (state_of-save_self k _ b) (ground arith)))

-- Once the recovery time of an open circuit is over, the next request for the source is admitted
-- as a probe, and from then on every request for it is refused, whatever calls came between, as
-- long as none of them reports a failure or a success for the source.
pub one_probe :
    (k : String) (now opened later : ℕ) (b : CircuitBreaker) (cs : List Call)
    → (state_of k b).opened_at ≡ some opened
    → (state_of k b).half_open ≡ false
    → opened + b.recovery_seconds ≤ now
    → All (Undecided k) cs
    → ((allow_request k now b).0 ≡ true)
      × ((allow_request k later (calls cs (allow_request k now b).1)).0 ≡ false)
one_probe k now opened later b cs o h p u =
    let first = probe_admitted k now opened b o h p in
    (first.0, (allow_request-probing k later _ (calls-IsProbing k cs _ u first.1)).0)
