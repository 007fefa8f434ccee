-- ===== src/Adapters.antt =====
-- adapters/base.py: `AdapterRunner`, which runs the four operations of a source adapter and names
-- their failures. An adapter is a parameter; a value of a wrong type is `none`.
pub mod Contract
pub mod Items
mod Tests
use football_prediction_craw.Prelude.{
  Bool, true, false, Option, none, some, String, str_eq, List, [], ◌∷◌, if◌then◌else◌,
}
use football_prediction_craw.Prelude.Result.{Result, ok, err, ◌>>=◌}

-- the classes below `AdapterRunError`
pub data AdapterRunError : Type 0 where
  contract_error fetch_error parse_error normalization_error : AdapterRunError

-- What may be raised: one of those, pydantic's error (a `ValueError`), another `ValueError`, another
-- `Exception`, or an exception that is no `Exception`, such as `KeyboardInterrupt`.
pub data Exception : Type 0 where
  run_error : AdapterRunError → Exception
  validation_error : Exception
  value_error : Exception
  other : Exception
  exit : Exception

pub record FetchResult (Body : Type 0) : Type 0 where
  pub body : Body
  pub etag : Option String
  pub last_modified : Option String

pub record CrawlItem (Data : Type 0) : Type 0 where
  pub external_id : String
  pub item_data : Data

-- what `parse` returns: no sequence, or a sequence whose items are mappings or not
pub data Parsed (Raw : Type 0) : Type 0 where
  not_sequence : Parsed Raw
  sequence : List (Option Raw) → Parsed Raw

pub record BaseAdapter (Body Raw Data : Type 0) : Type 0 where
  pub fetch : Result Exception (Option (FetchResult Body))
  pub parse : FetchResult Body → Result Exception (Parsed Raw)
  pub normalize : Raw → Result Exception (Option (CrawlItem Data))
  pub fingerprint : CrawlItem Data → Result Exception String

pub record AdapterResult (Body Data : Type 0) : Type 0 where
  pub response : FetchResult Body
  pub items : List (CrawlItem Data)
  pub raw_response_hash : String

-- `except AdapterRunError: raise`, then `except Exception as error: raise named from error`
unfoldable pub renamed : AdapterRunError → Exception → Exception
renamed named (run_error e) = run_error e
renamed named validation_error = run_error named
renamed named value_error = run_error named
renamed named other = run_error named
renamed named exit = exit

-- `except Exception` alone
unfoldable pub replaced : AdapterRunError → Exception → Exception
replaced named (run_error e) = run_error named
replaced named validation_error = run_error named
replaced named value_error = run_error named
replaced named other = run_error named
replaced named exit = exit

-- `except ValueError` alone
unfoldable pub incompatible : Exception → Exception
incompatible (run_error e) = run_error e
incompatible validation_error = run_error contract_error
incompatible value_error = run_error contract_error
incompatible other = other
incompatible exit = exit

abbrev pub on_error :
    {A : Type 0} → (Exception → Exception) → Result Exception A → Result Exception A
on_error f (ok a) = ok a
on_error f (err e) = err (f e)

-- `if not isinstance(...): raise AdapterContractError`
unfoldable pub instance_of : {A : Type 0} → Option A → Result Exception A
instance_of none = err (run_error contract_error)
instance_of (some a) = ok a

-- `fingerprint_business_data` of hashing.py, and the digest's text of `hashlib.sha256`; both may raise:
-- the second a `TypeError` for a body that is not bytes.
module _ {Body Raw Data : Type 0} (fingerprint_business_data : Data → Result Exception String)
    (sha256 : Body → Result Exception String) (adapter : BaseAdapter Body Raw Data) where
  open adapter use {fetch, parse, normalize, fingerprint}

  -- `_fetch`
  unfoldable pub fetched : Result Exception (FetchResult Body)
  unfolding instance_of renamed
  fetched = on_error (renamed fetch_error) fetch >>= instance_of

  -- `all(isinstance(item, Mapping) ...)`
  unfoldable pub mappings : List (Option Raw) → Result Exception (List Raw)
  mappings [] = ok []
  mappings (none ∷ xs) = err (run_error contract_error)
  mappings (some x ∷ xs) = mappings xs >>= λ ys. ok (x ∷ ys)

  unfoldable pub sequence_of : Parsed Raw → Result Exception (List Raw)
  unfolding mappings
  sequence_of not_sequence = err (run_error contract_error)
  sequence_of (sequence xs) = mappings xs

  -- `_parse`
  unfoldable pub parsed : FetchResult Body → Result Exception (List Raw)
  unfolding sequence_of renamed
  parsed response = on_error (renamed parse_error) (parse response) >>= sequence_of

  unfoldable pub same_fingerprint :
      CrawlItem Data → String → String → Result Exception (CrawlItem Data)
  same_fingerprint item expected actual =
      if str_eq actual expected then ok item else err (run_error contract_error)

  -- the comparison of the adapter's fingerprint with the canonical one
  unfoldable pub canonical : CrawlItem Data → String → Result Exception (CrawlItem Data)
  unfolding same_fingerprint replaced
  canonical item expected =
      on_error (replaced contract_error) (fingerprint item) >>= same_fingerprint item expected

  -- the checks of the fingerprint
  unfoldable pub checked : CrawlItem Data → Result Exception (CrawlItem Data)
  unfolding canonical incompatible
  checked item = on_error incompatible (fingerprint_business_data item.item_data) >>= canonical item

  -- `_normalize`
  unfoldable pub normalized : Raw → Result Exception (CrawlItem Data)
  unfolding checked instance_of renamed
  normalized raw_item = on_error (renamed normalization_error) (normalize raw_item) >>= λ value.
      instance_of value >>= λ item. checked item

  unfoldable pub normalized_all : List Raw → Result Exception (List (CrawlItem Data))
  normalized_all [] = ok []
  normalized_all (x ∷ xs) =
      normalized x >>= λ item. normalized_all xs >>= λ items. ok (item ∷ items)

  -- `run`
  unfoldable pub run : Result Exception (AdapterResult Body Data)
  unfolding fetched parsed normalized_all
  run = fetched >>= λ response. parsed response >>= λ raw_items.
      normalized_all raw_items >>= λ items. sha256 response.body >>= λ hash.
      ok (record { response = response; items = items; raw_response_hash = hash })
