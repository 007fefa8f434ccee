-- ===== src/Resilience/RateLimit/Window.antt =====
-- How many requests one window admits.
use native.Mathlib.Decide.{dec_le}
use football_prediction_craw.Prelude.{
  ℕ, ◌+◌, ◌-◌, ◌≤◌, ◌<◌, min, ◌≡◌, refl, ◌≢◌, true, false, none, some, String, List, [], ◌∷◌,
  eq_iff, arith, length, All,
}
use football_prediction_craw.Prelude.Dict.{lookup, insert, lookup-insert}
use football_prediction_craw.Resilience.RateLimit.{
  RateLimiter, window_of, current_window, allow, admitted,
}

lookup-insert_self :
    {V : Type 0} (k : String) (v : V) (d : List (String × V)) → lookup k (insert k v d) ≡ some v
lookup-insert_self k v d = ground (arith, lookup-insert k k v d, eq_iff k k)

-- A request for one source leaves the window of every other source as it was.
pub allow_isolated :
    (k j : String) (now : ℕ) (l : RateLimiter)
    → k ≢ j
    → lookup j (allow k now l).1.windows ≡ lookup j l.windows
unfolding allow
allow_isolated k j now l h =
    let (start, count) = current_window l.window_seconds now (window_of k now l) in
    ground (arith, lookup-insert k j (start, count + 1) l.windows, eq_iff k j)

module _ (k : String) (now start count : ℕ) (l : RateLimiter) where
  -- a request when the window that counts it is full, or has room
  allow_full :
      current_window l.window_seconds now (window_of k now l) ≡ (start, count)
      → l.max_requests ≤ count
      → allow k now l ≡ (false, l)
  unfolding allow
  allow_full e f = ground arith

  allow_room :
      current_window l.window_seconds now (window_of k now l) ≡ (start, count)
      → count < l.max_requests
      → allow k now l ≡ (true, record l { windows = insert k (start, count + 1) l.windows })
  unfolding allow
  allow_room e f = ground arith

  stored_window :
      lookup k l.windows ≡ some (start, count)
      → now < start + l.window_seconds
      → current_window l.window_seconds now (window_of k now l) ≡ (start, count)
  unfolding current_window window_of
  stored_window e h = ground arith

  new_window :
      lookup k l.windows ≡ none → current_window l.window_seconds now (window_of k now l) ≡ (now, 0)
  unfolding current_window window_of
  new_window e = ground arith

-- the requests of a source within the window that is stored for it
within_window :
    (k : String) (start count : ℕ) (times : List ℕ) (l : RateLimiter)
    → lookup k l.windows ≡ some (start, count)
    → count ≤ l.max_requests
    → All (λ t. t < start + l.window_seconds) times
    → (admitted k times l).0 ≡ min (length times) (l.max_requests - count)
unfolding admitted
within_window k start count [] l e c h = omega arith
within_window k start count (t ∷ ts) l e c h =
    let w = stored_window k t start count l e h.0 in
    elim (dec_le l.max_requests count) [
      | yes f ↦
          rw (allow_full k t start count l w f)
            (omega (arith, within_window k start count ts l e c h.1))
      | no f ↦
          let m : RateLimiter = record l { windows = insert k (start, count + 1) l.windows } in
          let rest =
            within_window k start (count + 1) ts m
              (lookup-insert_self k (start, count + 1) l.windows) (omega arith) h.1 in
          rw (allow_room k t start count l w (omega arith)) (omega (arith, rest))
    ]

none_admitted :
    (k : String) (times : List ℕ) (l : RateLimiter)
    → l.max_requests ≤ 0
    → (admitted k times l).0 ≡ 0
unfolding admitted
none_admitted k [] l f = refl
none_admitted k (t ∷ ts) l f =
    let w = current_window l.window_seconds t (window_of k t l) in
    rw (allow_full k t w.0 w.1 l refl (omega arith)) (omega (arith, none_admitted k ts l f))

-- Of the requests of a source that has no window yet, the first at `now` and all within
-- `window_seconds` of it, exactly the first `max_requests` are admitted.
pub window_admits :
    (k : String) (now : ℕ) (times : List ℕ) (l : RateLimiter)
    → lookup k l.windows ≡ none
    → 0 < l.window_seconds
    → All (λ t. t < now + l.window_seconds) times
    → (admitted k (now ∷ times) l).0 ≡ min (1 + length times) l.max_requests
unfolding admitted
window_admits k now times l e w h =
    let w = new_window k now 0 0 l e in
    elim (dec_le l.max_requests 0) [
      | yes f ↦ rw (allow_full k now now 0 l w f) (omega (arith, none_admitted k times l f))
      | no f ↦
          let m : RateLimiter = record l { windows = insert k (now, 1) l.windows } in
          let rest =
            within_window k now 1 times m (lookup-insert_self k (now, 1) l.windows) (omega arith)
              h in
          rw (allow_room k now now 0 l w (omega arith)) (omega (arith, rest))
    ]
