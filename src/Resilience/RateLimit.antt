-- ===== src/Resilience/RateLimit.antt =====
-- resilience.py: `FixedWindowRateLimiter`.
pub mod Window
use football_prediction_craw.Prelude.{
  ℕ, ◌+◌, Bool, true, false, Option, none, some, String, ltb, leb, if◌then◌else◌, List, [], ◌∷◌,
}
use football_prediction_craw.Prelude.Dict.{Dict, lookup, insert}

pub record RateLimiter : Type 0 where
  pub max_requests : ℕ
  pub window_seconds : ℕ
  pub windows : Dict (ℕ × ℕ)

-- `_windows.get(source_id, (now, 0))`
abbrev pub or_new : ℕ → Option (ℕ × ℕ) → ℕ × ℕ
or_new now none = (now, 0)
or_new now (some w) = w

unfoldable pub window_of : String → ℕ → RateLimiter → ℕ × ℕ
window_of source_id now l = or_new now (lookup source_id l.windows)

-- the window that counts a request at `now`: the stored one, or a new one when that is over
unfoldable pub current_window : ℕ → ℕ → ℕ × ℕ → ℕ × ℕ
current_window length now (start, count) =
    if leb (start + length) now then (now, 0) else (start, count)

unfoldable pub allow : String → ℕ → RateLimiter → Bool × RateLimiter
allow source_id now l =
    let (start, count) = current_window l.window_seconds now (window_of source_id now l) in
    if leb l.max_requests count
    then (false, l)
    else (true, record l { windows = insert source_id (start, count + 1) l.windows })

-- The requests of one source at the given times: how many were admitted, and the limiter after.
unfoldable pub admitted : String → List ℕ → RateLimiter → ℕ × RateLimiter
admitted source_id [] l = (0, l)
admitted source_id (now ∷ times) l =
    let (answer, m) = allow source_id now l in
    let (n, u) = admitted source_id times m in ((if answer then 1 else 0) + n, u)
