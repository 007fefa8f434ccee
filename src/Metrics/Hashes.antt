-- ===== src/Metrics/Hashes.antt =====
-- The protocol `MetricsRedis` of metrics.py, with what Redis documents of hashes and sets: a state, the
-- operations, and laws on a field of a hash. Hashes and sets have different names in metrics.py.
use football_prediction_craw.Prelude.{ℕ, ◌+◌, ◌≡◌, false, ◌&&◌, none, some, List, String, str_eq}
use football_prediction_craw.Prelude.Dict.{Dict, lookup}

pub record MetricsRedis : Type 1 where
  pub State : Type 0
  -- a number as its decimal digits, the form of a counter
  pub decimal : ℕ → String
  pub hset : String → String → String → State → State
  pub hincrby : String → String → ℕ → State → State
  pub hgetall : String → State → Dict String
  pub sadd : String → String → State → State
  pub smembers : String → State → List String
  pub hset_same : (n k v : String) (s : State) → lookup k (hgetall n (hset n k v s)) ≡ some v
  pub hset_other :
      (n m k j v : String) (s : State)
      → (str_eq n m && str_eq k j) ≡ false
      → lookup j (hgetall m (hset n k v s)) ≡ lookup j (hgetall m s)
  pub hincrby_new :
      (n k : String) (a : ℕ) (s : State)
      → lookup k (hgetall n s) ≡ none
      → lookup k (hgetall n (hincrby n k a s)) ≡ some (decimal a)
  pub hincrby_old :
      (n k : String) (a m : ℕ) (s : State)
      → lookup k (hgetall n s) ≡ some (decimal m)
      → lookup k (hgetall n (hincrby n k a s)) ≡ some (decimal (m + a))
  pub hincrby_other :
      (n m k j : String) (a : ℕ) (s : State)
      → (str_eq n m && str_eq k j) ≡ false
      → lookup j (hgetall m (hincrby n k a s)) ≡ lookup j (hgetall m s)
  pub hgetall-sadd : (n m v : String) (s : State) → hgetall m (sadd n v s) ≡ hgetall m s
