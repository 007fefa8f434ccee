-- ===== src/Session/Codec.antt =====
-- browser_session.py: `BrowserSessionStatus`, `BrowserSessionState`, the stored object of a state,
-- and `_deserialize_state`. The texts of the six statuses and reasons are no ISO timestamps.
use football_prediction_craw.Prelude.{Option, none, some, String, str_eq, [], ◌∷◌, if◌then◌else◌}
use football_prediction_craw.Prelude.Dict.{Dict, lookup}
use football_prediction_craw.Document.{Value, null, moment, text}
use football_prediction_craw.Moment.{DateTime, isoformat, fromisoformat, is_beijing}

pub data BrowserSessionStatus : Type 0 where
  unknown ready login_required access_denied captcha : BrowserSessionStatus

pub record BrowserSessionState : Type 0 where
  pub profile_reference : String
  pub status : BrowserSessionStatus
  pub last_manual_refresh_at : Option DateTime
  -- a text: the constructors `text` and `moment`
  pub reason : Option Value

-- What a stored text may denote.
pub data Payload : Type 0 where
  not_json : Payload
  not_mapping : Payload
  mapping : Dict Value → Payload

-- the values of the enumeration
unfoldable pub status_value : BrowserSessionStatus → String
status_value unknown = "unknown"
status_value ready = "ready"
status_value login_required = "login_required"
status_value access_denied = "access_denied"
status_value captcha = "captcha"

-- `BrowserSessionStatus(value)`
unfoldable pub status_of_text : String → Option BrowserSessionStatus
status_of_text s =
    if str_eq s "unknown"
    then some unknown
    else if str_eq s "ready"
    then some ready
    else if str_eq s "login_required"
    then some login_required
    else if str_eq s "access_denied"
    then some access_denied
    else if str_eq s "captcha"
    then some captcha
    else none

-- `_unknown_state`
unfoldable pub unknown_state : String → BrowserSessionState
unknown_state profile = record {
  profile_reference = profile;
  status = unknown;
  last_manual_refresh_at = none;
  reason = none;
}

abbrev refresh_value : Option DateTime → Value
refresh_value none = null
refresh_value (some t) = moment (isoformat t)

abbrev reason_value : Option Value → Value
reason_value none = null
reason_value (some v) = v

-- the object that `_save` writes
unfoldable pub serialize : BrowserSessionState → Payload
unfolding status_value
serialize state = mapping (
    ("profile_reference", text state.profile_reference)
    ∷ ("status", text (status_value state.status))
    ∷ ("last_manual_refresh_at", refresh_value state.last_manual_refresh_at)
    ∷ ("reason", reason_value state.reason)
    ∷ [])

infixl 5 ◌>>=◌
abbrev ◌>>=◌ : {A B : Type 0} → Option A → (A → Option B) → Option B
none >>= f = none
some a >>= f = f a

-- `payload.get("profile_reference") != profile_reference`
unfoldable pub names_profile : String → Option Value → Option (Unit {0})
names_profile profile (some (text s)) = if str_eq s profile then some tt else none
names_profile profile _ = none

-- `BrowserSessionStatus(payload["status"])`
unfoldable pub read_status : Option Value → Option BrowserSessionStatus
unfolding status_of_text
read_status (some (text s)) = status_of_text s
read_status _ = none

-- a missing or null reason is `None`; one that is no text raises
unfoldable pub read_reason : Option Value → Option (Option Value)
read_reason none = some none
read_reason (some null) = some none
read_reason (some (text s)) = some (some (text s))
read_reason (some (moment i)) = some (some (moment i))
read_reason _ = none

-- a missing or null time is `None`; else it must be a text in ISO format, in Beijing time
unfoldable pub read_refresh : Option Value → Option (Option DateTime)
read_refresh none = some none
read_refresh (some null) = some none
read_refresh (some (moment i)) =
    let t = fromisoformat i in if is_beijing t.zone then some (some t) else none
read_refresh _ = none

-- the body of the `try`: none is an exception that the handler catches
unfoldable pub read : String → Payload → Option BrowserSessionState
unfolding read_status read_reason
read profile not_json = none
read profile not_mapping = none
read profile (mapping d) = do
  named ← names_profile profile (lookup "profile_reference" d)
  status ← read_status (lookup "status" d)
  reason ← read_reason (lookup "reason" d)
  refresh_at ← read_refresh (lookup "last_manual_refresh_at" d)
  some (record {
    profile_reference = profile;
    status = status;
    last_manual_refresh_at = refresh_at;
    reason = reason;
  })

unfoldable pub deserialize_state : String → Payload → BrowserSessionState
unfolding unknown_state
deserialize_state profile value = elim (read profile value) [
  | none ↦ unknown_state profile
  | some state ↦ state
]
