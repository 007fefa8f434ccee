-- ===== src/Adapters/Items.antt =====
-- The items of a result of `AdapterRunner.run` (adapters/base.py).
use football_prediction_craw.Prelude.{
  ◌≡◌, refl, ap, ◌∙◌, subst, Option, none, some, String, str_eq, eq_iff, List, [], ◌∷◌, All,
  Bool-cases, inl, inr,
}
use football_prediction_craw.Prelude.Result.{Result, ok, err, ◌>>=◌}
use football_prediction_craw.Adapters.{
  Exception, contract_error, normalization_error, FetchResult, CrawlItem, BaseAdapter,
  AdapterResult, renamed, replaced, on_error, incompatible, instance_of, fetched, parsed,
  same_fingerprint, canonical, checked, normalized, normalized_all, run,
}

module _ {Body Raw Data : Type 0} (fingerprint_business_data : Data → Result Exception String)
    (sha256 : Body → Result Exception String) (adapter : BaseAdapter Body Raw Data) where
  open adapter use {fetch, parse, normalize, fingerprint}

  -- the adapter's fingerprint of an item is the canonical one
  abbrev pub IsCanonical : CrawlItem Data → Type 0
  IsCanonical item =
      (expected : String) × (fingerprint_business_data item.item_data ≡ ok expected)
      × (fingerprint item ≡ ok expected)

  abbrev AllCanonical : Result Exception (List (CrawlItem Data)) → Type 0
  AllCanonical (ok items) = All IsCanonical items
  AllCanonical (err e) = Unit

  abbrev Canonical : Result Exception (CrawlItem Data) → Type 0
  Canonical (ok item) = IsCanonical item
  Canonical (err e) = Unit

  checked-Canonical :
      (item : CrawlItem Data) → Canonical (checked fingerprint_business_data sha256 adapter item)
  unfolding checked canonical same_fingerprint
  checked-Canonical item = cases (fingerprint_business_data item.item_data) refl
    where
      compare_texts :
          (expected actual : String)
          → fingerprint_business_data item.item_data ≡ ok expected
          → fingerprint item ≡ ok actual
          → Canonical
              (same_fingerprint fingerprint_business_data sha256 adapter item expected actual)
      compare_texts expected actual h k = elim (Bool-cases (str_eq actual expected)) [
        | inl e ↦ rw (e) (expected, h, k ∙ ap ok ((eq_iff actual expected).0 e))
        | inr e ↦ rw (e) tt
      ]

      answers :
          (expected : String) (r : Result Exception String)
          → fingerprint_business_data item.item_data ≡ ok expected
          → fingerprint item ≡ r
          → Canonical (
              on_error (replaced contract_error) r
              >>= same_fingerprint fingerprint_business_data sha256 adapter item expected)
      answers expected (ok actual) h k = compare_texts expected actual h k
      answers expected (err e) h k = tt

      cases :
          (o : Result Exception String)
          → fingerprint_business_data item.item_data ≡ o
          → Canonical
              (on_error incompatible o >>= canonical fingerprint_business_data sha256 adapter item)
      cases (err e) h = tt
      cases (ok expected) h = answers expected (fingerprint item) h refl

  normalized-Canonical :
      (x : Raw) → Canonical (normalized fingerprint_business_data sha256 adapter x)
  unfolding normalized instance_of
  normalized-Canonical x = cases (normalize x)
    where
      cases :
          (r : Result Exception (Option (CrawlItem Data)))
          → Canonical (
              on_error (renamed normalization_error) r >>= λ value.
              instance_of value >>= λ item. checked fingerprint_business_data sha256 adapter item)
      cases (ok none) = tt
      cases (ok (some item)) = checked-Canonical item
      cases (err e) = tt

  normalized_all-Canonical :
      (xs : List Raw) → AllCanonical (normalized_all fingerprint_business_data sha256 adapter xs)
  unfolding normalized_all
  normalized_all-Canonical [] = tt
  normalized_all-Canonical (x ∷ xs) =
      cases _ _ (normalized-Canonical x) (normalized_all-Canonical xs)
    where
      cases :
          (r : Result Exception (CrawlItem Data)) (rest : Result Exception (List (CrawlItem Data)))
          → Canonical r
          → AllCanonical rest
          → AllCanonical (r >>= λ item. rest >>= λ items. ok (item ∷ items))
      cases (err e) rest h k = tt
      cases (ok item) (err e) h k = tt
      cases (ok item) (ok items) h k = (h, k)

  -- what a result holds
  abbrev Complete : Result Exception (AdapterResult Body Data) → Type 0
  Complete (ok r) = All IsCanonical r.items × (sha256 r.response.body ≡ ok r.raw_response_hash)
  Complete (err e) = Unit

  run-Complete : Complete (run fingerprint_business_data sha256 adapter)
  unfolding run
  run-Complete = responses (fetched fingerprint_business_data sha256 adapter)
    where
      hashed :
          (response : FetchResult Body) (items : List (CrawlItem Data))
          (r : Result Exception String)
          → All IsCanonical items
          → sha256 response.body ≡ r
          → Complete (
              r >>= λ hash.
              ok (record { response = response; items = items; raw_response_hash = hash }))
      hashed response items (ok hash) h k = (h, k)
      hashed response items (err e) h k = tt

      finish :
          (response : FetchResult Body) (r : Result Exception (List (CrawlItem Data)))
          → AllCanonical r
          → Complete (
              r >>= λ items. sha256 response.body >>= λ hash.
              ok (record { response = response; items = items; raw_response_hash = hash }))
      finish response (ok items) h = hashed response items (sha256 response.body) h refl
      finish response (err e) h = tt

      raws :
          (response : FetchResult Body) (r : Result Exception (List Raw))
          → Complete (
              r >>= λ raw. normalized_all fingerprint_business_data sha256 adapter raw >>= λ items.
              sha256 response.body >>= λ hash.
              ok (record { response = response; items = items; raw_response_hash = hash }))
      raws response (ok raw) = finish response _ (normalized_all-Canonical raw)
      raws response (err e) = tt

      responses :
          (r : Result Exception (FetchResult Body))
          → Complete (
              r >>= λ response. parsed fingerprint_business_data sha256 adapter response >>= λ raw.
              normalized_all fingerprint_business_data sha256 adapter raw >>= λ items.
              sha256 response.body >>= λ hash.
              ok (record { response = response; items = items; raw_response_hash = hash }))
      responses (ok response) =
          raws response (parsed fingerprint_business_data sha256 adapter response)
      responses (err e) = tt

  -- Every item of a result has the adapter's fingerprint equal to the canonical one of its data, and
  -- the result's hash is that of the body of its response.
  pub run_result_lem :
      (r : AdapterResult Body Data)
      → run fingerprint_business_data sha256 adapter ≡ ok r
      → All IsCanonical r.items × (sha256 r.response.body ≡ ok r.raw_response_hash)
  run_result_lem r h = subst Complete h run-Complete
