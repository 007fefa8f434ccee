-- ===== src/Resilience/Retry/Delay.antt =====
-- The delay between attempts: doubling under a cap, and jitter between half and one and a half.
use football_prediction_craw.Prelude.{ℕ, suc, ◌+◌, ◌-◌, ◌*◌, min, ◌≡◌, arith}
use football_prediction_craw.Resilience.Retry.{RetryPolicy, backoff}
use native.Mathlib.Nat.{pow-suc}

-- Each further attempt doubles the delay before jitter, up to the cap.
pub backoff-suc :
    (policy : RetryPolicy) (attempt : ℕ)
    → backoff policy (attempt + 2) ≡ min policy.max_delay (2 * backoff policy (attempt + 1))
unfolding backoff
backoff-suc policy attempt =
    let e : attempt + 2 - 1 ≡ suc attempt = omega arith in
    let d : attempt + 1 - 1 ≡ attempt = omega arith in rw (e, d, pow-suc 2 attempt) (omega arith)
