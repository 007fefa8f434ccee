-- ===== src/Adapters/Tests.antt =====
-- The theorems on adapter runs at a concrete adapter.
use football_prediction_craw.Prelude.{◌≡◌, refl, none, some, String, [], ◌∷◌, All}
use football_prediction_craw.Prelude.Result.{Result, ok, err}
use football_prediction_craw.Adapters.{
  Exception, other, BaseAdapter, FetchResult, AdapterResult, sequence, run, fetched, parsed,
  sequence_of, mappings, normalized, normalized_all, checked, canonical, same_fingerprint,
  instance_of,
}
use football_prediction_craw.Adapters.Contract.{the_run}
use football_prediction_craw.Adapters.Items.{IsCanonical, run_result_lem}

-- a fingerprint that is the text itself, for texts that are not empty
abbrev fingerprint_of : String → Result Exception String
fingerprint_of text = ok text

abbrev digest : String → Result Exception String
digest body = ok body

-- the digest of a body that is not bytes
abbrev no_digest : String → Result Exception String
no_digest body = err other

abbrev page : FetchResult String
page = record { body = "x"; etag = none; last_modified = none }

abbrev echo : BaseAdapter String String String
echo = record {
  fetch = ok (some page);
  parse = λ r. ok (sequence (some r.body ∷ []));
  normalize = λ x. ok (some (record { external_id = x; item_data = x }));
  fingerprint = λ item. ok item.item_data;
}

abbrev result : AdapterResult String String
result = record {
  response = page;
  items = record { external_id = "x"; item_data = "x" } ∷ [];
  raw_response_hash = "x";
}

echoed : the_run fingerprint_of digest echo ≡ ok result
unfolding run fetched parsed sequence_of mappings normalized normalized_all checked canonical
    same_fingerprint instance_of
echoed = refl

run_result_lem_example :
    All (IsCanonical fingerprint_of digest echo) result.items
    × (◌≡◌ {A = Result Exception String} (digest page.body) (ok result.raw_response_hash))
run_result_lem_example = run_result_lem fingerprint_of digest echo result echoed
