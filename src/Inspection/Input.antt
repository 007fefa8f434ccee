-- ===== src/Inspection/Input.antt =====
-- inspection.py: the health-report input and its validation. A text of the document that is an
-- ISO timestamp is the constructor `moment`; a float is its sign and its literal.
use football_prediction_craw.Prelude.{
  ℕ, ◌+◌, ◌-◌, Bool, true, false, not, ◌&&◌, ◌||◌, Option, none, some, String, str_eq, List, [],
  ◌∷◌, map, all, any, if◌then◌else◌, leb,
}
use football_prediction_craw.Prelude.Result.{Result, ok, err, raise_if, ◌>>=◌}
use football_prediction_craw.Moment.{Iso, DateTime, beijing, hours, offset, fromisoformat}
use football_prediction_craw.Patterns.{is_source_id}

pub data Error : Type 0 where
  input_error : Error
  overflow_error : Error
  -- a naive reading subtracted from an aware one
  type_error : Error

mutual
  pub data Document : Type 0 where
    null : Document
    boolean : Bool → Document
    integer : (is_negative : Bool) → ℕ → Document
    float : (is_negative : Bool) → String → Document
    moment : Iso → Document
    text : String → Document
    array : Items → Document
    mapping : Fields → Document

  pub data Items : Type 0 where
    nil : Items
    cons : Document → Items → Items

  pub data Fields : Type 0 where
    end : Fields
    field : String → Document → Fields → Fields

-- a `float` that was read from an integer or from a float
pub data Seconds : Type 0 where
  whole : ℕ → Seconds
  fraction : String → Seconds

pub record HttpStatuses : Type 0 where
  pub unauthorized : ℕ
  pub forbidden : ℕ
  pub too_many_requests : ℕ

pub record SourceHealthInput : Type 0 where
  pub source_id : String
  pub runs_succeeded : ℕ
  pub runs_failed : ℕ
  pub last_success_at : Option DateTime
  pub average_duration_seconds : Seconds
  pub p95_duration_seconds : Seconds
  pub item_count : ℕ
  pub baseline_item_count : Option ℕ
  pub parse_failure_snapshot_count : ℕ
  pub http_statuses : HttpStatuses
  pub queue_depth : ℕ
  pub circuit_breaker_open : Bool

pub record HealthReportInput : Type 0 where
  pub window_end : DateTime
  pub sources : List SourceHealthInput

-- `value.get(key)`: a missing key gives `None`
unfoldable pub get : String → Fields → Document
get key end = null
get key (field k v rest) = let later = get key rest in if str_eq k key then v else later

unfoldable pub keys : Fields → List String
keys end = []
keys (field k v rest) = k ∷ keys rest

abbrev pub member : String → List String → Bool
member key = any (λ k. str_eq k key)

-- `_mapping`
unfoldable pub mapping_of : Document → Result Error Fields
mapping_of (mapping fs) = ok fs
mapping_of _ = err input_error

-- `_only_keys`
unfoldable pub only_keys : Fields → List String → Result Error (Unit {0})
unfolding keys
only_keys value allowed =
    raise_if
      (not (all (λ k. member k allowed) (keys value))
        || not (all (λ k. member k (keys value)) allowed))
      input_error

-- `value.astimezone(BEIJING)`; a reading before the first representable one overflows
unfoldable pub astimezone : ℕ → ℕ → Result Error DateTime
astimezone local o =
    if leb o (local + hours 32)
    then ok (record { local = local + hours 32 - o; zone = beijing })
    else err overflow_error

-- `_beijing_timestamp`
unfoldable pub beijing_timestamp : DateTime → Result Error DateTime
unfolding astimezone
beijing_timestamp t = elim (offset t.zone) [
  | none ↦ err input_error
  | some o ↦ astimezone t.local o
]

-- `_timestamp`
unfoldable pub timestamp : Document → Result Error DateTime
unfolding beijing_timestamp fromisoformat
timestamp (moment iso) = beijing_timestamp (fromisoformat iso)
timestamp _ = err input_error

-- `_optional_timestamp`
unfoldable pub optional_timestamp : Document → Result Error (Option DateTime)
unfolding timestamp
optional_timestamp null = ok none
optional_timestamp value = timestamp value >>= λ t. ok (some t)

-- `_nonnegative_int`
unfoldable pub nonnegative_int : Document → Result Error ℕ
nonnegative_int (integer false n) = ok n
nonnegative_int _ = err input_error

-- `_optional_nonnegative_int`
unfoldable pub optional_nonnegative_int : Document → Result Error (Option ℕ)
unfolding nonnegative_int
optional_nonnegative_int null = ok none
optional_nonnegative_int value = nonnegative_int value >>= λ n. ok (some n)

-- `_nonnegative_number`
unfoldable pub nonnegative_number : Document → Result Error Seconds
nonnegative_number (integer false n) = ok (whole n)
nonnegative_number (float false literal) = ok (fraction literal)
nonnegative_number _ = err input_error

-- `_boolean`
unfoldable pub boolean_of : Document → Result Error Bool
boolean_of (boolean b) = ok b
boolean_of _ = err input_error

-- `_http_statuses`
unfoldable pub http_statuses : Document → Result Error HttpStatuses
unfolding mapping_of only_keys nonnegative_int get
http_statuses value = do
  statuses ← mapping_of value
  checked ← only_keys statuses ("401" ∷ "403" ∷ "429" ∷ [])
  unauthorized ← nonnegative_int (get "401" statuses)
  forbidden ← nonnegative_int (get "403" statuses)
  too_many_requests ← nonnegative_int (get "429" statuses)
  ok (record {
    unauthorized = unauthorized;
    forbidden = forbidden;
    too_many_requests = too_many_requests;
  })

-- the keys of a source
unfoldable pub source_keys : List String
source_keys =
    "source_id" ∷ "runs_succeeded" ∷ "runs_failed" ∷ "last_success_at" ∷ "average_duration_seconds"
    ∷ "p95_duration_seconds" ∷ "item_count" ∷ "baseline_item_count" ∷ "parse_failure_snapshot_count"
    ∷ "http_statuses" ∷ "queue_depth" ∷ "circuit_breaker_open" ∷ []

-- the test of `source_id`
unfoldable pub checked_source_id : Document → Result Error String
checked_source_id (text s) = if is_source_id s then ok s else err input_error
checked_source_id _ = err input_error

-- `_source_input`
unfoldable pub source_input : Document → Result Error SourceHealthInput
unfolding mapping_of only_keys get
source_input value = do
  source ← mapping_of value
  checked ← only_keys source source_keys
  source_id ← checked_source_id (get "source_id" source)
  runs_succeeded ← nonnegative_int (get "runs_succeeded" source)
  runs_failed ← nonnegative_int (get "runs_failed" source)
  last_success_at ← optional_timestamp (get "last_success_at" source)
  average ← nonnegative_number (get "average_duration_seconds" source)
  p95 ← nonnegative_number (get "p95_duration_seconds" source)
  item_count ← nonnegative_int (get "item_count" source)
  baseline ← optional_nonnegative_int (get "baseline_item_count" source)
  snapshots ← nonnegative_int (get "parse_failure_snapshot_count" source)
  statuses ← http_statuses (get "http_statuses" source)
  queue_depth ← nonnegative_int (get "queue_depth" source)
  open_circuit ← boolean_of (get "circuit_breaker_open" source)
  ok (record {
    source_id = source_id;
    runs_succeeded = runs_succeeded;
    runs_failed = runs_failed;
    last_success_at = last_success_at;
    average_duration_seconds = average;
    p95_duration_seconds = p95;
    item_count = item_count;
    baseline_item_count = baseline;
    parse_failure_snapshot_count = snapshots;
    http_statuses = statuses;
    queue_depth = queue_depth;
    circuit_breaker_open = open_circuit;
  })

unfoldable pub source_inputs : Items → Result Error (List SourceHealthInput)
source_inputs nil = ok []
source_inputs (cons x xs) = source_input x >>= λ s. source_inputs xs >>= λ rest. ok (s ∷ rest)

-- the list of `sources`
unfoldable pub sources_of : Document → Result Error (List SourceHealthInput)
unfolding source_inputs
sources_of (array xs) = source_inputs xs
sources_of _ = err input_error

-- `len(source_ids) == len(set(source_ids))`
unfoldable pub all_different : List String → Bool
all_different [] = true
all_different (x ∷ xs) = not (member x xs) && all_different xs

-- `parse_health_report_input`
unfoldable pub parse_health_report_input : Document → Result Error HealthReportInput
unfolding mapping_of only_keys get timestamp
parse_health_report_input document = do
  root ← mapping_of document
  checked ← only_keys root ("window_end" ∷ "sources" ∷ [])
  window_end ← timestamp (get "window_end" root)
  sources ← sources_of (get "sources" root)
  distinct ← raise_if (not (all_different (map (λ s. s.source_id) sources))) input_error
  ok (record { window_end = window_end; sources = sources })
