-- ===== src/Session/Laws.antt =====
-- What is read back after a refresh or an observation.
use package.text.Mathlib.TextLemmas.{append_cancel_left}
use package.text.Mathlib.TextPositions.{eq_refl}
use football_prediction_craw.Prelude.{
  ◌≡◌, refl, ◌≢◌, ◌∙◌, ap, true, false, Option, none, some, String, str_eq, eq_iff, arith,
  Option-cases, Bool-cases, inl, inr,
}
use football_prediction_craw.Prelude.Result.{ok}
use football_prediction_craw.Prelude.Dict.{lookup}
use football_prediction_craw.Document.{Value, null, boolean, number, moment, text}
use football_prediction_craw.Moment.{DateTime, isoformat, is_beijing, parsed_zone}
use football_prediction_craw.Patterns.{is_profile_reference}
use football_prediction_craw.Store.{KeyValue}
use football_prediction_craw.Session.{
  BrowserSessionStatus, BrowserSessionState, Payload, not_json, not_mapping, mapping, status_value,
  status_of_text, unknown_state, serialize, names_profile, read, read_refresh, deserialize_state,
  BrowserSessionObservation, state_key, observation_state, get_state, save, is_valid,
  record_manual_refresh, record_observation,
}

status_round_trip : (s : BrowserSessionStatus) → status_of_text (status_value s) ≡ some s
unfolding status_of_text status_value
status_round_trip BrowserSessionStatus.unknown = refl
status_round_trip BrowserSessionStatus.ready = refl
status_round_trip BrowserSessionStatus.login_required = refl
status_round_trip BrowserSessionStatus.access_denied = refl
status_round_trip BrowserSessionStatus.captcha = refl

named : (profile : String) → names_profile profile (some (text profile)) ≡ some tt
unfolding names_profile
named profile = rw (eq_refl profile)

deserialize-refreshed :
    (profile : String) (t : DateTime)
    → deserialize_state profile (
        serialize (record {
          profile_reference = profile;
          status = BrowserSessionStatus.ready;
          last_manual_refresh_at = some t;
          reason = none;
        }))
      ≡ unknown_state profile
unfolding deserialize_state read read_refresh serialize lookup
deserialize-refreshed profile t =
    rw (named profile, parsed_zone (isoformat t), deserialize_state, read)

read_refresh-none : (v : Option Value) (r : Option DateTime) → read_refresh v ≡ some r → r ≡ none
unfolding read_refresh
read_refresh-none none r e = ground arith
read_refresh-none (some null) r e = ground arith
read_refresh-none (some (boolean b)) r e = absurd (ground arith)
read_refresh-none (some (number n)) r e = absurd (ground arith)
read_refresh-none (some (text t)) r e = absurd (ground arith)
read_refresh-none (some (moment i)) r e = absurd (ground (arith, parsed_zone i))

read_lem :
    (profile : String) (p : Payload) (s : BrowserSessionState)
    → read profile p ≡ some s
    → (s.last_manual_refresh_at ≡ none) × (s.profile_reference ≡ profile)
unfolding read
read_lem profile not_json s e = absurd (ground arith)
read_lem profile not_mapping s e = absurd (ground arith)
read_lem profile (mapping d) s e =
    elim (Option-cases (read_refresh (lookup "last_manual_refresh_at" d))) [
      | inl x ↦ absurd (ground arith)
      | inr (r, x) ↦ ground (arith, read_refresh-none (lookup "last_manual_refresh_at" d) r x)
    ]

no_refresh_time :
    (profile : String) (p : Payload)
    → ((deserialize_state profile p).last_manual_refresh_at ≡ none)
      × ((deserialize_state profile p).profile_reference ≡ profile)
unfolding deserialize_state
no_refresh_time profile p = elim (Option-cases (read profile p)) [
  | inl e ↦ ground arith
  | inr (s, e) ↦ ground (arith, read_lem profile p s e)
]

-- the state that stands for an observation
pub observed : String → BrowserSessionObservation → BrowserSessionState
observed profile o = record {
  profile_reference = profile;
  status = (observation_state o).0;
  last_manual_refresh_at = none;
  reason = (observation_state o).1;
}

module _ (store : KeyValue Payload) where
  open store use {State, get, set, get-set}

  get_state-saved :
      (profile : String) (state : BrowserSessionState) (s : State)
      → is_profile_reference profile ≡ true
      → state.profile_reference ≡ profile
      → get_state store profile (save store state s)
        ≡ ok (deserialize_state profile (serialize state))
  unfolding get_state save
  get_state-saved profile state s v e = rw (v, e, get-set, eq_refl (state_key profile))

  get_state-other :
      (profile other : String) (state : BrowserSessionState) (s : State)
      → profile ≢ other
      → state.profile_reference ≡ profile
      → get_state store other (save store state s) ≡ get_state store other s
  unfolding get_state save
  get_state-other profile other state s h e =
      let f : str_eq (state_key state.profile_reference) (state_key other) ≡ false =
        unfold state_key in
        ground (
          arith,
          eq_iff (state_key state.profile_reference) (state_key other),
          append_cancel_left "browser-session:" state.profile_reference other,
        ) in
      rw (get-set, f) refl

  -- For a valid profile reference and a time in the Beijing zone, a manual refresh returns the
  -- state `ready` with that time; reading the profile afterwards gives the unknown state, since
  -- the stored time comes back with a fixed offset and is taken as no Beijing time.
  pub manual_refresh_is_forgotten :
      (profile : String) (t : DateTime) (s : State)
      → is_profile_reference profile ≡ true
      → is_beijing t.zone ≡ true
      → let (answer, u) = record_manual_refresh store profile t s in
        (answer
          ≡ ok (record {
            profile_reference = profile;
            status = BrowserSessionStatus.ready;
            last_manual_refresh_at = some t;
            reason = none;
          }))
        × (get_state store profile u ≡ ok (unknown_state profile))
  unfolding record_manual_refresh
  manual_refresh_is_forgotten profile t s v z =
      rw (v, z)
        (
          refl,
          get_state-saved profile _ s v refl
              ∙ ap (λ (x : BrowserSessionState). ok x) (deserialize-refreshed profile t),
        )

  -- Whatever is stored, reading a valid profile succeeds with a state of that profile, and the
  -- state has no time of a manual refresh.
  pub get_state_total :
      (profile : String) (s : State)
      → is_profile_reference profile ≡ true
      → (state : BrowserSessionState) × (get_state store profile s ≡ ok state)
        × (state.profile_reference ≡ profile)
        × (state.last_manual_refresh_at ≡ none)
  unfolding get_state
  get_state_total profile s v = elim (Option-cases (get (state_key profile) s)) [
    | inl e ↦ (
      unknown_state profile,
      rw (v, e),
      unfold unknown_state in refl,
      unfold unknown_state in refl,
    )
    | inr (p, e) ↦
        let (none_at, same) = no_refresh_time profile p in
        (deserialize_state profile p, rw (v, e), same, none_at)
  ]

  -- A refresh or an observation of one profile leaves what is read of every other
  -- profile as it was.
  pub other_profiles_untouched :
      (profile other : String) (o : BrowserSessionObservation) (t : DateTime) (s : State)
      → profile ≢ other
      → (get_state store other (record_observation store profile o t s).1 ≡ get_state store other s)
        × (get_state store other (record_manual_refresh store profile t s).1
            ≡ get_state store other s)
  unfolding record_observation record_manual_refresh
  other_profiles_untouched profile other o t s h = elim (Bool-cases (is_valid store profile t)) [
    | inl v ↦
        rw v (get_state-other profile other _ s h refl, get_state-other profile other _ s h refl)
    | inr v ↦ rw v (refl, refl)
  ]
