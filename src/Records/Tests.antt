-- ===== src/Records/Tests.antt =====
-- The theorems on absent records at a concrete table.
use football_prediction_craw.Prelude.{◌≡◌, refl, true, false, none, some, String, [], ◌∷◌}
use football_prediction_craw.Moment.{DateTime, beijing}
use football_prediction_craw.Records.{Record, Collection, Table, Database, persist_collection}
use football_prediction_craw.Records.Sample.{rows, find}
use football_prediction_craw.Records.Absence.{found, third_absence_deactivates}

abbrev table : Table String
table = rows String

abbrev print : String → String
print data_text = data_text

abbrev noon : DateTime
noon = record { local = 43200; zone = beijing }

abbrev match_record : Record String
match_record = record {
  id = 1;
  source_id = "demo";
  external_id = "m1";
  payload = "1:0";
  content_hash = "1:0";
  is_active = true;
  last_seen_at = some noon;
  missing_count = 0;
}

abbrev stored : Database table print
stored = record { records = match_record ∷ []; fetch_states = []; events = []; next_id = 2 }

-- a collection with another item only
abbrev others : Collection String
others = record {
  etag = none;
  last_modified = none;
  raw_response_hash = "h";
  items = ("m2", "0:0") ∷ [];
}

stored_once : found table print "demo" "m1" stored ≡ some match_record
unfolding find
stored_once = refl

third_absence_deactivates_example :
    let d₁ = persist_collection table print "demo" others noon stored in
    let d₂ = persist_collection table print "demo" others noon d₁ in
    let d₃ = persist_collection table print "demo" others noon d₂ in
    ((x : Record String) × (found table print "demo" "m1" d₂ ≡ some x)
      × (x.is_active ≡ true)
      × (x.missing_count ≡ 2))
    × ((y : Record String) × (found table print "demo" "m1" d₃ ≡ some y)
        × (y.is_active ≡ false)
        × (y.missing_count ≡ 3))
third_absence_deactivates_example =
    third_absence_deactivates table print "demo" "m1" others others others noon noon noon stored
      match_record stored_once refl refl refl refl refl
