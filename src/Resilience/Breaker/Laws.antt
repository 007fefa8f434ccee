-- ===== src/Resilience/Breaker/Laws.antt =====
-- The circuit of one source under the calls for it and for others.
use football_prediction_craw.Prelude.{
  ℕ, ◌≤◌, ◌≡◌, refl, ◌≢◌, true, none, some, String, List, [], ◌∷◌, str_eq, eq_iff, if◌then◌else◌,
  arith, Bool-cases, inl, inr,
}
use football_prediction_craw.Prelude.Dict.{lookup-insert}
use football_prediction_craw.Resilience.Breaker.{
  CircuitState, CircuitBreaker, fresh, state_of, save, allow, fail, allow_request, record_failure,
  record_success, Call, allow_call, failure_call, success_call, call, calls,
}

pub state_of-save :
    (k j : String) (s : CircuitState) (b : CircuitBreaker)
    → state_of j (save k s b) ≡ (if str_eq k j then s else state_of j b)
unfolding state_of save
state_of-save k j s b = rw lookup-insert (ground (arith, eq_iff k j))

pub state_of-save_self :
    (k : String) (s : CircuitState) (b : CircuitBreaker) → state_of k (save k s b) ≡ s
state_of-save_self k s b = ground (arith, eq_iff k k, state_of-save k k s b)

abbrev pub source_of : Call → String
source_of (allow_call k now) = k
source_of (failure_call k now) = k
source_of (success_call k) = k

-- A call for one source leaves the circuit of every other source as it was.
pub call_isolated :
    (c : Call) (j : String) (b : CircuitBreaker)
    → source_of c ≢ j
    → state_of j (call c b) ≡ state_of j b
unfolding call allow_request record_failure record_success
call_isolated (allow_call k now) j b h =
    ground (arith, eq_iff k j, state_of-save k j (allow b.recovery_seconds now (state_of k b)).1 b)
call_isolated (failure_call k now) j b h =
    ground (arith, eq_iff k j, state_of-save k j (fail b.failure_threshold now (state_of k b)) b)
call_isolated (success_call k) j b h = ground (arith, eq_iff k j, state_of-save k j fresh b)

-- An open circuit has seen the threshold of failures, and only an open circuit is half-open.
pub record IsValidState (threshold : ℕ) (s : CircuitState) : Type 0 where
  pub tripped : (t : ℕ) → s.opened_at ≡ some t → threshold ≤ s.failures
  pub probing : s.half_open ≡ true → s.opened_at ≢ none

pub fresh-IsValid : (threshold : ℕ) → IsValidState threshold fresh
fresh-IsValid threshold = record { tripped = λ t e. cc; probing = λ e. cc }

pub allow-IsValid :
    (threshold recovery now : ℕ) (s : CircuitState)
    → IsValidState threshold s
    → IsValidState threshold (allow recovery now s).1
unfolding allow
allow-IsValid threshold recovery now s v = record {
  tripped = λ t e. ground (arith, v.tripped t);
  probing = λ e. ground (arith, v.probing);
}

pub fail-IsValid :
    (threshold now : ℕ) (s : CircuitState)
    → IsValidState threshold s
    → IsValidState threshold (fail threshold now s)
unfolding fail
fail-IsValid threshold now s v = record {
  tripped = λ t e. ground (arith, v.tripped t);
  probing = λ e. ground (arith, v.probing);
}

abbrev pub IsValid : CircuitBreaker → Type 0
IsValid b = (k : String) → IsValidState b.failure_threshold (state_of k b)

pub save-IsValid :
    (k : String) (s : CircuitState) (b : CircuitBreaker)
    → IsValid b
    → IsValidState b.failure_threshold s
    → IsValid (save k s b)
unfolding save
save-IsValid k s b v h j = elim (Bool-cases (str_eq k j)) [
  | inl e ↦ rw (state_of-save k j s b, e) h
  | inr e ↦ rw (state_of-save k j s b, e) (v j)
]

pub call-IsValid : (c : Call) (b : CircuitBreaker) → IsValid b → IsValid (call c b)
unfolding call allow_request record_failure record_success
call-IsValid (allow_call k now) b v =
    save-IsValid k _ b v (allow-IsValid _ b.recovery_seconds now _ (v k))
call-IsValid (failure_call k now) b v = save-IsValid k _ b v (fail-IsValid _ now _ (v k))
call-IsValid (success_call k) b v = save-IsValid k _ b v (fresh-IsValid _)

-- After any run of calls from a valid breaker, every open circuit has seen at least the threshold
-- of failures, and only open circuits are half-open.
pub calls-IsValid : (cs : List Call) (b : CircuitBreaker) → IsValid b → IsValid (calls cs b)
unfolding calls
calls-IsValid [] b v = v
calls-IsValid (c ∷ cs) b v = calls-IsValid cs (call c b) (call-IsValid c b v)

pub call_parameters :
    (c : Call) (b : CircuitBreaker)
    → ((call c b).failure_threshold ≡ b.failure_threshold)
      × ((call c b).recovery_seconds ≡ b.recovery_seconds)
unfolding call allow_request record_failure record_success save
call_parameters (allow_call k now) b = (refl, refl)
call_parameters (failure_call k now) b = (refl, refl)
call_parameters (success_call k) b = (refl, refl)
