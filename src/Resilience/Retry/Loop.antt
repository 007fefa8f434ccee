-- ===== src/Resilience/Retry/Loop.antt =====
-- How the retry loop ends.
use football_prediction_craw.Prelude.{
  ℕ, zero, suc, ◌+◌, ◌-◌, ◌≤◌, ◌<◌, ◌≡◌, refl, ◌⊎◌, inl, inr, Bool, true, false, length, [], String,
  Option, length-append, Bool-cases, arith, sym, ◌==◌,
}
use native.Mathlib.Decide.{dec_le}
use football_prediction_craw.Resilience.Retry.{
  RetryPolicy, Outcome, returned, raised, Failure, Trace, is_transient, slept, attempts,
  run_with_retry, response, should_retry, should_request_human_review,
}

abbrev pub retryable : {T : Type 0} → Outcome T → Bool
retryable (returned value) = false
retryable (raised error) = is_transient error

Outcome-cases :
    {T : Type 0} (o : Outcome T) → ((v : T) × (o ≡ returned v)) ⊎ ((e : Failure) × (o ≡ raised e))
Outcome-cases (returned v) = inl (v, refl)
Outcome-cases (raised e) = inr (e, refl)

module _ {T : Type 0} (policy : RetryPolicy) (operation : ℕ → Outcome T) (random : ℕ → ℕ) where
  record Ran (t : Trace) (left : ℕ) (result : Outcome T) (u : Trace) : Type 0 where
    pub more : t.calls < u.calls
    pub bounded : u.calls ≤ t.calls + left
    pub paused : length u.pauses + t.calls + 1 ≡ length t.pauses + u.calls
    pub last : result ≡ operation (u.calls - 1)
    pub earlier : (j : ℕ) → t.calls ≤ j → j + 1 < u.calls → retryable (operation j) ≡ true
    pub final : u.calls < t.calls + left → retryable result ≡ false

  slept_lem :
      (attempt : ℕ) (error : Failure) (t : Trace)
      → ((slept policy operation random attempt error t).calls ≡ t.calls)
        × (length (slept policy operation random attempt error t).pauses ≡ length t.pauses + 1)
  unfolding slept
  slept_lem attempt error t = (refl, length-append t.pauses _)

  -- the run ends with this attempt
  Ran-last :
      (left : ℕ) (t : Trace) (o : Outcome T)
      → o ≡ operation t.calls
      → (0 < left → retryable o ≡ false)
      → Ran t (suc left) o (record t { calls = t.calls + 1 })
  Ran-last left t o e stop = record {
    more = omega arith;
    bounded = omega arith;
    paused = omega arith;
    last = let d : t.calls + 1 - 1 ≡ t.calls = omega arith in rw d e;
    earlier = λ j p q. absurd (omega arith);
    final = λ p. stop (omega arith);
  }

  -- the run goes on after one pause
  Ran-next :
      (left : ℕ) (t s u : Trace) (o : Outcome T)
      → retryable (operation t.calls) ≡ true
      → s.calls ≡ t.calls + 1
      → length s.pauses ≡ length t.pauses + 1
      → Ran s left o u
      → Ran t (suc left) o u
  Ran-next left t s u o again e p r = record {
    more = omega arith;
    bounded = omega arith;
    paused = omega arith;
    last = r.last;
    earlier = λ j a b. elim (dec_le s.calls j) [
      | yes c ↦ r.earlier j c b
      | no c ↦ let d : j ≡ t.calls = omega arith in rw d again
    ];
    final = λ q. r.final (omega arith);
  }

  attempts-Ran :
      (left attempt : ℕ) (t : Trace)
      → attempt + left ≡ policy.max_attempts
      → let (result, u) = attempts policy operation random (suc left) attempt t in
        Ran t (suc left) result u
  unfolding attempts
  attempts-Ran zero attempt t h = elim (Outcome-cases (operation t.calls)) [
    | inl (v, e) ↦ rw (e, attempts) (Ran-last zero t _ (sym e) (λ _. refl))
    | inr (x, e) ↦
        let m : (attempt == policy.max_attempts) ≡ true = ground arith in
        elim (Bool-cases (is_transient x)) [
          | inl y ↦ rw (e, attempts, m, y) (Ran-last zero t _ (sym e) (λ p. absurd (omega arith)))
          | inr y ↦ rw (e, attempts, m, y) (Ran-last zero t _ (sym e) (λ p. y))
        ]
  ]
  attempts-Ran (suc left) attempt t h = elim (Outcome-cases (operation t.calls)) [
    | inl (v, e) ↦ rw (e, attempts) (Ran-last _ t _ (sym e) (λ _. refl))
    | inr (x, e) ↦
        let m : (attempt == policy.max_attempts) ≡ false = ground arith in
        let called : Trace = record t { calls = t.calls + 1 } in
        let s : Trace = slept policy operation random attempt x called in
        let (sc, sp) = slept_lem attempt x called in
        elim (Bool-cases (is_transient x)) [
          | inl y ↦
              rw (e, attempts, m, y)
                (Ran-next (suc left) t s _ _ (rw e y) sc sp
                  (attempts-Ran left (attempt + 1) s (omega arith)))
          | inr y ↦ rw (e, attempts, m, y) (Ran-last _ t _ (sym e) (λ p. y))
        ]
  ]

abbrev start : Trace
start = record { calls = 0; draws = 0; pauses = [] }

attempts_all-Ran :
    {T : Type 0} (policy : RetryPolicy) (operation : ℕ → Outcome T) (random : ℕ → ℕ) (n : ℕ)
    → n ≡ policy.max_attempts
    → 0 < n
    → let (result, u) = attempts policy operation random n 1 start in
      Ran policy operation random start n result u
attempts_all-Ran policy operation random zero e h = absurd (omega arith)
attempts_all-Ran policy operation random (suc n) e h =
    attempts-Ran policy operation random n 1 start (omega arith)

-- For a policy with at least one attempt: the operation is called at least once and at most
-- `max_attempts` times, with one pause between two calls; the result is that of the last call;
-- every call before it failed in a way that the policy retries; and if attempts were left, the
-- last call's result is not one that the policy retries.
pub run_with_retry_lem :
    {T : Type 0} (policy : RetryPolicy) (operation : ℕ → Outcome T) (random : ℕ → ℕ)
    → 0 < policy.max_attempts
    → let (result, t) = run_with_retry policy operation random in
      (0 < t.calls)
      × (t.calls ≤ policy.max_attempts)
      × (length t.pauses + 1 ≡ t.calls)
      × (result ≡ operation (t.calls - 1))
      × ((j : ℕ) → j + 1 < t.calls → retryable (operation j) ≡ true)
      × (t.calls < policy.max_attempts → retryable result ≡ false)
unfolding run_with_retry
run_with_retry_lem policy operation random h =
    let r = attempts_all-Ran policy operation random policy.max_attempts refl h in
    (
      r.more,
      omega (arith, r.bounded),
      omega (arith, r.paused),
      r.last,
      λ j. r.earlier j (omega arith),
      λ p. r.final (omega arith),
    )

attempts_final :
    {T : Type 0} (policy : RetryPolicy) (operation : ℕ → Outcome T) (random : ℕ → ℕ) (n : ℕ)
    (error : Failure)
    → 0 < n
    → operation 0 ≡ raised error
    → is_transient error ≡ false
    → attempts policy operation random n 1 start
      ≡ (raised error, record { calls = 1; draws = 0; pauses = [] })
unfolding attempts
attempts_final policy operation random zero error h e f = absurd (omega arith)
attempts_final policy operation random (suc n) error h e f = rw (e, attempts, f)

denied_is_final :
    (status : ℕ) (header : Option String) (body : String)
    → (status ≡ 401) ⊎ ((status ≡ 403) ⊎ (should_request_human_review body ≡ true))
    → is_transient (response status header body) ≡ false
unfolding is_transient should_retry
denied_is_final status header body (inl e) = ground arith
denied_is_final status header body (inr (inl e)) = ground arith
denied_is_final status header body (inr (inr e)) = rw e

-- An answer with status 401 or 403, or whose body asks for a human, is final: the operation is
-- called once, nothing is slept or drawn, and that failure is the result.
pub access_control_is_final :
    {T : Type 0} (policy : RetryPolicy) (operation : ℕ → Outcome T) (random : ℕ → ℕ) (status : ℕ)
    (header : Option String) (body : String)
    → 0 < policy.max_attempts
    → operation 0 ≡ raised (response status header body)
    → (status ≡ 401) ⊎ ((status ≡ 403) ⊎ (should_request_human_review body ≡ true))
    → run_with_retry policy operation random
      ≡ (raised (response status header body), record { calls = 1; draws = 0; pauses = [] })
unfolding run_with_retry
access_control_is_final policy operation random status header body h e why =
    attempts_final policy operation random policy.max_attempts _ h e
      (denied_is_final status header body why)
