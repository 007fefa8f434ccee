-- ===== src/Locking.antt =====
-- locking.py: renewable leases under a token, and the heartbeat that renews one.
-- Redis runs a script as one step; `redis.call` is the store of the parameter. A clock reading is
-- a number of seconds.
pub mod Keys
pub mod World
pub mod Exclusion
pub mod Heartbeat
mod Tests
use football_prediction_craw.Prelude.{
  ℕ, zero, suc, ◌+◌, Bool, true, false, Option, none, some, String, str_eq, List, [], ◌∷◌,
  if◌then◌else◌, leb,
}
use football_prediction_craw.Prelude.Result.{Result, ok, err}
use football_prediction_craw.Store.{Expiring}
use Prim.Native.String

-- `f"crawler:lock:source:{source_id}"`
unfoldable pub source_lock_key : String → String
source_lock_key source_id = String.◌++◌ "crawler:lock:source:" source_id

-- `f"{source_lock_key(source_id)}:page:{page_id}"`
unfoldable pub page_lock_key : String → String → String
page_lock_key source_id page_id =
    String.◌++◌ (String.◌++◌ (source_lock_key source_id) ":page:") page_id

pub record RedisLease : Type 0 where
  pub key : String
  pub ttl_seconds : ℕ
  pub token : String

pub data LeaseError : Type 0 where
  ttl_must_be_positive interval_must_be_positive : LeaseError

-- `token or uuid4().hex`; `generated` is the value of `uuid4().hex`
abbrev pub token_or : Option String → String → String
token_or none generated = generated
token_or (some token) generated = if str_eq token "" then generated else token

-- `RedisLease.__init__`
unfoldable pub new_lease : String → ℕ → Option String → String → Result LeaseError RedisLease
new_lease key zero token generated = err ttl_must_be_positive
new_lease key (suc n) token generated =
    ok (record { key = key; ttl_seconds = suc n; token = token_or token generated })

module _ (redis : Expiring String) where
  open redis use {State, get, set_nx, del, expire}

  -- `redis.call('get', KEYS[1]) == ARGV[1]`
  unfoldable pub owns : RedisLease → ℕ → State → Bool
  owns lease now s = elim (get now lease.key s) [
    | none ↦ false
    | some token ↦ str_eq token lease.token
  ]

  unfoldable pub acquire : RedisLease → ℕ → State → Bool × State
  acquire lease now s = set_nx now lease.key lease.token lease.ttl_seconds s

  -- RENEW_SCRIPT
  unfoldable pub renew : RedisLease → ℕ → State → Bool × State
  renew lease now s =
      if owns lease now s then (true, expire now lease.key lease.ttl_seconds s) else (false, s)

  -- RELEASE_SCRIPT
  unfoldable pub release : RedisLease → ℕ → State → Bool × State
  release lease now s = if owns lease now s then (true, del lease.key s) else (false, s)

  -- `LeaseHeartbeat._run`: the times at which the wait ends before the stop event is set
  unfoldable pub run : RedisLease → List ℕ → State → State
  run lease [] s = s
  run lease (now ∷ times) s =
      let (renewed, u) = renew lease now s in
      let rest = run lease times u in if renewed then rest else u
