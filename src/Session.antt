-- ===== src/Session.antt =====
-- browser_session.py: the stored state of a browser profile.
mod Codec
pub mod Laws
mod Tests
pub use Codec.{BrowserSessionStatus, BrowserSessionState, Payload, not_json, not_mapping, mapping}
unfoldable pub use Codec.{
  status_value, status_of_text, unknown_state, serialize, names_profile, read_refresh, read,
  deserialize_state,
}
use football_prediction_craw.Prelude.{
  ℕ, Bool, true, false, not, Option, none, some, String, if◌then◌else◌,
}
use football_prediction_craw.Prelude.Result.{Result, ok, err}
use football_prediction_craw.Document.{Value, text}
use football_prediction_craw.Moment.{DateTime, is_beijing}
use football_prediction_craw.Patterns.{is_profile_reference}
use football_prediction_craw.Store.{KeyValue}
use Prim.Native.String

pub data BrowserSessionObservation : Type 0 where
  ready login_required unauthorized forbidden captcha access_control : BrowserSessionObservation

pub data Error : Type 0 where
  value_error : Error
  session_required : BrowserSessionState → Error

-- `_state_key`
unfoldable pub state_key : String → String
state_key profile = String.◌++◌ "browser-session:" profile

-- `_observation_state`
unfoldable pub observation_state : BrowserSessionObservation → BrowserSessionStatus × Option Value
observation_state BrowserSessionObservation.ready = (BrowserSessionStatus.ready, none)
observation_state BrowserSessionObservation.login_required =
    (BrowserSessionStatus.login_required, some (text "login_required"))
observation_state BrowserSessionObservation.captcha =
    (BrowserSessionStatus.captcha, some (text "captcha"))
observation_state BrowserSessionObservation.unauthorized =
    (BrowserSessionStatus.access_denied, some (text "unauthorized"))
observation_state BrowserSessionObservation.forbidden =
    (BrowserSessionStatus.access_denied, some (text "forbidden"))
observation_state BrowserSessionObservation.access_control =
    (BrowserSessionStatus.access_denied, some (text "access_control"))

unfoldable pub is_ready : BrowserSessionStatus → Bool
is_ready BrowserSessionStatus.ready = true
is_ready _ = false

module _ (store : KeyValue Payload) where
  open store use {State, get, set}

  unfoldable pub get_state : String → State → Result Error BrowserSessionState
  get_state profile s =
      if is_profile_reference profile
      then elim (get (state_key profile) s) [
        | none ↦ ok (unknown_state profile)
        | some value ↦ ok (deserialize_state profile value)
      ]
      else err value_error

  unfoldable pub save : BrowserSessionState → State → State
  save state s = set (state_key state.profile_reference) (serialize state) s

  -- `_validate_profile_reference` and `_validate_beijing_datetime`
  unfoldable pub is_valid : String → DateTime → Bool
  is_valid profile current = if is_profile_reference profile then is_beijing current.zone else false

  unfoldable pub record_manual_refresh :
      String → DateTime → State → Result Error BrowserSessionState × State
  unfolding is_valid
  record_manual_refresh profile current s =
      let state : BrowserSessionState = record {
        profile_reference = profile;
        status = BrowserSessionStatus.ready;
        last_manual_refresh_at = some current;
        reason = none;
      } in
      if is_valid profile current then (ok state, save state s) else (err value_error, s)

  unfoldable pub record_observation :
      String
      → BrowserSessionObservation
      → DateTime
      → State
      → Result Error BrowserSessionState × State
  unfolding is_valid observation_state is_ready
  record_observation profile observation current s =
      let (status, reason) = observation_state observation in
      let state : BrowserSessionState = record {
        profile_reference = profile;
        status = status;
        last_manual_refresh_at = none;
        reason = reason;
      } in
      if is_valid profile current
      then (if is_ready status then ok state else err (session_required state), save state s)
      else (err value_error, s)
