-- ===== src/Adapters/Contract.antt =====
-- Which failures `AdapterRunner.run` lets out (adapters/base.py).
use football_prediction_craw.Prelude.{◌≡◌, refl, ◌⊎◌, Bool, true, false, Option, none, some, String}
use football_prediction_craw.Prelude.Result.{Result, ok, err, ◌>>=◌}
use football_prediction_craw.Adapters.{
  Exception, run_error, validation_error, value_error, other, exit, normalization_error,
  FetchResult, CrawlItem, BaseAdapter, AdapterResult, renamed, on_error, instance_of, parsed,
  checked, normalized_all, run,
}

-- an `AdapterRunError`, or what is no `Exception`
abbrev pub is_named : Exception → Bool
is_named (run_error e) = true
is_named validation_error = false
is_named value_error = false
is_named other = false
is_named exit = true

abbrev pub Named : {A : Type 0} → Result Exception A → Type 0
Named (ok a) = Unit
Named (err e) = is_named e ≡ true

instance_of-Named : {A : Type 0} (o : Option A) → Named (instance_of o)
unfolding instance_of
instance_of-Named none = refl
instance_of-Named (some a) = tt

module _ {Body Raw Data : Type 0} (fingerprint_business_data : Data → Result Exception String)
    (sha256 : Body → Result Exception String) (adapter : BaseAdapter Body Raw Data) where
  open adapter use {fetch, parse, normalize, fingerprint}

  abbrev pub the_run : Result Exception (AdapterResult Body Data)
  the_run = run fingerprint_business_data sha256 adapter

  -- raised by the digest of the body that was fetched, or, as no `ValueError`, by the canonical
  -- fingerprint of an item that was normalized
  abbrev pub FromHashing : Exception → Type 0
  FromHashing e =
      ((response : FetchResult Body) × (fetch ≡ ok (some response))
        × (sha256 response.body ≡ err e))
      ⊎ ((raw_item : Raw) × (item : CrawlItem Data) × (normalize raw_item ≡ ok (some item))
          × (fingerprint_business_data item.item_data ≡ err e)
          × (e ≡ other))

  abbrev Explained : {A : Type 0} → Result Exception A → Type 0
  Explained (ok a) = Unit
  Explained (err e) = (is_named e ≡ true) ⊎ FromHashing e

  -- a normalization after its answer
  abbrev answered : Result Exception (Option (CrawlItem Data)) → Result Exception (CrawlItem Data)
  answered r = on_error (renamed normalization_error) r >>= λ value.
      instance_of value >>= λ item. checked fingerprint_business_data sha256 adapter item

  -- a run after the response
  abbrev continued : FetchResult Body → Result Exception (AdapterResult Body Data)
  continued response = parsed fingerprint_business_data sha256 adapter response >>= λ raw_items.
      normalized_all fingerprint_business_data sha256 adapter raw_items >>= λ items.
      sha256 response.body >>= λ hash.
      ok (record { response = response; items = items; raw_response_hash = hash })
