-- ===== src/Session/Tests.antt =====
-- The theorems on browser sessions at concrete inputs.
use football_prediction_craw.Prelude.{◌≡◌, refl, ◌≢◌, true, none, some, String, [], arith, eq_iff}
use football_prediction_craw.Prelude.Result.{ok}
use football_prediction_craw.Moment.{DateTime, beijing, is_beijing}
use football_prediction_craw.Patterns.{is_profile_reference}
use football_prediction_craw.Store.{KeyValue}
use football_prediction_craw.Store.Sample.{memory}
use football_prediction_craw.Session.{
  BrowserSessionStatus, Payload, unknown_state, get_state, record_manual_refresh,
}
use football_prediction_craw.Session.Laws.{manual_refresh_is_forgotten}

abbrev redis : KeyValue Payload
redis = memory

abbrev noon : DateTime
noon = record { local = 43_200_000_000; zone = beijing }

valid_main : is_profile_reference "sporttery_primary" ≡ true
unfolding is_profile_reference
valid_main = refl

beijing_noon : is_beijing noon.zone ≡ true
unfolding is_beijing
beijing_noon = refl

manual_refresh_is_forgotten_example :
    let (answer, u) = record_manual_refresh redis "sporttery_primary" noon [] in
    (answer
      ≡ ok (record {
        profile_reference = "sporttery_primary";
        status = BrowserSessionStatus.ready;
        last_manual_refresh_at = some noon;
        reason = none;
      }))
    × (get_state redis "sporttery_primary" u ≡ ok (unknown_state "sporttery_primary"))
manual_refresh_is_forgotten_example =
    manual_refresh_is_forgotten redis "sporttery_primary" noon [] valid_main beijing_noon

main_not_spare : ◌≢◌ {A = String} "main" "spare"
main_not_spare e = ground (arith, eq_iff "main" "spare")
