-- ===== src/Alerts.antt =====
-- Alert evaluation (src/multisite_crawler/alerts.py): `AlertEvaluator` turns one scenario of metrics
-- into notifications and keeps, for each source and rule, whether the alert is active. A ratio that
-- the code keeps as a float is an exact fraction here.
use football_prediction_craw.Prelude.{
  ℕ, ◌*◌, ◌≡◌, Bool, true, false, not, ◌&&◌, ◌||◌, Option, none, some, String, str_eq, List, [],
  ◌∷◌, ◌++◌, leb, ltb, ◌==◌, if◌then◌else◌,
}
use Prim.Native.String.{◌++◌ as append}
use football_prediction_craw.Prelude.Dict.{Dict, lookup}
use football_prediction_craw.Prelude.Result.{Result, ok, err}
use football_prediction_craw.Prelude.Exec.{Exec, pure, raise, lift, modify, ◌>>=◌, ◌>>◌}
use football_prediction_craw.Patterns.{is_source_id}
use football_prediction_craw.Moment.{DateTime}
use football_prediction_craw.Store.{KeyValue}
pub mod Transitions
pub mod Evaluation
mod Tests

pub data Error : Type 0 where
  value_error : Error
  key_error : Error

pub data AlertState : Type 0 where
  active : AlertState
  resolved : AlertState

unfoldable pub state_value : AlertState → String
state_value active = "active"
state_value resolved = "resolved"

-- a number that the code keeps as a float, `numerator / denominator`
pub record Ratio : Type 0 where
  pub numerator : ℕ
  pub denominator : ℕ

-- `a >= b`
unfoldable pub at_least : Ratio → Ratio → Bool
at_least a b = leb (b.numerator * a.denominator) (a.numerator * b.denominator)

pub record AlertThresholds : Type 0 where
  pub consecutive_failures : ℕ
  pub max_last_success_age_seconds : ℕ
  pub item_deviation_ratio : Ratio
  pub parse_error_rate : Ratio
  pub queue_depth : ℕ
  pub worker_heartbeat_age_seconds : ℕ
  pub disk_free_ratio : Ratio

pub record MetricScenario : Type 0 where
  pub consecutive_failures : ℕ
  pub last_success_age_seconds : Option ℕ
  pub items_found : Option ℕ
  pub item_deviation_ratio : Option Ratio
  pub parse_error_rate : Ratio
  pub http_status : Option ℕ
  pub captcha_seen : Bool
  pub queue_depth : ℕ
  pub worker_last_heartbeat_age_seconds : Option ℕ
  pub postgres_available : Bool
  pub redis_available : Bool
  pub disk_free_ratio : Ratio

pub record AlertEvent : Type 0 where
  pub rule : String
  pub state : AlertState
  pub source_id : String
  pub crawl_run_id : String
  pub troubleshooting_path : String
  pub occurred_at : DateTime

-- `_RUNBOOKS`
unfoldable pub runbooks : Dict String
runbooks =
    ("crawler_consecutive_failures", "docs/operations/observability.md#run-failures")
    ∷ ("crawler_no_recent_success", "docs/operations/observability.md#run-failures")
    ∷ ("crawler_items_zero", "docs/operations/observability.md#data-quality")
    ∷ ("crawler_items_abnormal", "docs/operations/observability.md#data-quality")
    ∷ ("crawler_parse_error_rate", "docs/operations/observability.md#data-quality")
    ∷ ("crawler_access_denied", "docs/operations/observability.md#run-failures")
    ∷ ("crawler_captcha", "docs/operations/observability.md#run-failures")
    ∷ ("crawler_queue_backlog", "docs/operations/observability.md#queue-backlog")
    ∷ ("crawler_worker_offline", "docs/operations/observability.md#queue-backlog")
    ∷ ("crawler_postgres_down", "docs/operations/observability.md#dependencies")
    ∷ ("crawler_redis_down", "docs/operations/observability.md#dependencies")
    ∷ ("crawler_disk_low", "docs/operations/observability.md#snapshot-retention")
    ∷ []

-- `value is not None and test(value)`
abbrev known_and : {A : Type 0} → (A → Bool) → Option A → Bool
known_and test none = false
known_and test (some a) = test a

-- `_conditions`
unfoldable pub conditions : AlertThresholds → MetricScenario → List (String × Bool)
unfolding at_least
conditions t m =
    ("crawler_consecutive_failures", leb t.consecutive_failures m.consecutive_failures)
    ∷ (
      "crawler_no_recent_success",
      known_and (λ age. ltb t.max_last_success_age_seconds age) m.last_success_age_seconds,
    )
    ∷ ("crawler_items_zero", known_and (λ n. n == 0) m.items_found)
    ∷ (
      "crawler_items_abnormal",
      known_and (λ r. at_least r t.item_deviation_ratio) m.item_deviation_ratio,
    )
    ∷ ("crawler_parse_error_rate", at_least m.parse_error_rate t.parse_error_rate)
    ∷ ("crawler_access_denied", known_and (λ n. n == 401 || n == 403 || n == 429) m.http_status)
    ∷ ("crawler_captcha", m.captcha_seen)
    ∷ ("crawler_queue_backlog", leb t.queue_depth m.queue_depth)
    ∷ (
      "crawler_worker_offline",
      known_and (λ age. ltb t.worker_heartbeat_age_seconds age) m.worker_last_heartbeat_age_seconds,
    )
    ∷ ("crawler_postgres_down", not m.postgres_available)
    ∷ ("crawler_redis_down", not m.redis_available)
    ∷ ("crawler_disk_low", at_least t.disk_free_ratio m.disk_free_ratio)
    ∷ []

-- `f"crawler:alerts:{source_id}:{rule}"`
unfoldable pub alert_key : String → String → String
alert_key source rule = append "crawler:alerts:" (append source (append ":" rule))

-- `previous == AlertState.ACTIVE.value`
unfoldable pub is_active : Option String → Bool
unfolding state_value
is_active none = false
is_active (some value) = str_eq value (state_value active)

module _ (store : KeyValue String) (source run : String) (current : DateTime) where
  -- `_event`: `_RUNBOOKS[rule]` raises `KeyError` for a rule without a runbook
  unfoldable pub event : String → AlertState → Result Error AlertEvent
  event rule state = elim (lookup rule runbooks) [
    | none ↦ err key_error
    | some path ↦ ok (record {
      rule = rule;
      state = state;
      source_id = source;
      crawl_run_id = run;
      troubleshooting_path = path;
      occurred_at = current;
    })
  ]

  -- set the key, then append the event
  unfoldable pub turn : String → AlertState → Exec Error store.State (List AlertEvent)
  turn rule state =
      modify (store.set (alert_key source rule) (state_value state))
      >> (lift (event rule state) >>= λ e. pure (e ∷ []))

  -- one round of the loop of `evaluate`
  unfoldable pub change : String → Bool → Exec Error store.State (List AlertEvent)
  change rule now s =
      let previous = is_active (store.get (alert_key source rule) s) in
      if now && not previous
      then turn rule active s
      else if not now && previous
      then turn rule resolved s
      else pure [] s

  unfoldable pub watch : List (String × Bool) → Exec Error store.State (List AlertEvent)
  watch [] = pure []
  watch ((rule, now) ∷ rest) =
      change rule now >>= λ first. watch rest >>= λ later. pure (first ++ later)

  unfoldable pub evaluate :
      AlertThresholds → MetricScenario → Exec Error store.State (List AlertEvent)
  evaluate t m = if is_source_id source then watch (conditions t m) else raise value_error
