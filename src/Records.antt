-- ===== src/Records.antt =====
-- record_repository.py and the rows of models.py that it writes: `RecordRepository` keeps the records
-- of a source, counts how often one was missing, and notes changes. The table of records is an
-- interface of SQL's documented meaning; one call is one transaction, so the row and advisory locks,
-- which order concurrent transactions, change nothing in it.
pub mod Absence
pub mod Sample
mod Tests
use football_prediction_craw.Prelude.{
  ℕ, suc, ◌+◌, ◌≡◌, Bool, true, false, not, ◌&&◌, ◌||◌, Option, none, some, String, str_eq, List,
  [], ◌∷◌, ◌++◌, map, any, all, All, if◌then◌else◌, leb,
}
use football_prediction_craw.Prelude.Dict.{Dict, lookup, insert}
use football_prediction_craw.Moment.{DateTime}

pub record Record (Data : Type 0) : Type 0 where
  pub id : ℕ
  pub source_id : String
  pub external_id : String
  pub payload : Data
  pub content_hash : String
  pub is_active : Bool
  pub last_seen_at : Option DateTime
  pub missing_count : ℕ

pub record ChangeEvent (Data : Type 0) : Type 0 where
  pub record_id : ℕ
  pub event_type : String
  pub payload : Data

pub record SourceFetchState : Type 0 where
  pub etag : Option String
  pub last_modified : Option String
  pub raw_response_hash : Option String
  pub updated_at : DateTime

-- the parts of `AdapterResult` that are stored
pub record Collection (Data : Type 0) : Type 0 where
  pub etag : Option String
  pub last_modified : Option String
  pub raw_response_hash : String
  -- external identifier and data of each item
  pub items : List (String × Data)

abbrev pub member : String → List String → Bool
member key = any (λ k. str_eq k key)

abbrev pub different : List String → Bool
different [] = true
different (x ∷ xs) = not (member x xs) && different xs

-- The table of records, which is unique in the source and the external identifier.
pub record Table (Data : Type 0) : Type 1 where
  pub State : Type 0
  -- `scalar(select(Record).where(source_id, external_id))`
  pub find : String → String → State → Option (Record Data)
  -- an added row, or a changed one
  pub put : Record Data → State → State
  -- `scalars(select(Record).where(source_id, is_active))`
  pub active : String → State → List (Record Data)
  pub find-put :
      (source key : String) (r : Record Data) (s : State)
      → find source key (put r s) ≡ (
          if str_eq r.source_id source && str_eq r.external_id key
          then some r
          else find source key s)
  pub find-key :
      (source key : String) (r : Record Data) (s : State)
      → find source key s ≡ some r
      → (r.source_id ≡ source) × (r.external_id ≡ key)
  pub active-find :
      (source : String) (s : State)
      → All (λ r. (find source r.external_id s ≡ some r) × (r.source_id ≡ source)) (active source s)
  pub active-different :
      (source : String) (s : State) → different (map (λ r. r.external_id) (active source s)) ≡ true
  pub active-member :
      (source key : String) (r : Record Data) (s : State)
      → find source key s ≡ some r
      → member key (map (λ x. x.external_id) (active source s)) ≡ r.is_active

module _ {Data : Type 0} (table : Table Data) (fingerprint : Data → String) where
  pub record Database : Type 0 where
    pub records : table.State
    pub fetch_states : Dict SourceFetchState
    pub events : List (ChangeEvent Data)
    -- the next primary key
    pub next_id : ℕ

  -- `_event`
  unfoldable pub note : ℕ → String → Data → Database → Database
  note record_id event_type payload d = record d {
    events =
        d.events
        ++ (record { record_id = record_id; event_type = event_type; payload = payload } ∷ []);
  }

  -- the branch of a new record
  unfoldable pub created : String → DateTime → String → Data → Database → Database
  unfolding note
  created source now key payload d = note d.next_id "created" payload (record d {
    records =
        table.put
          (record {
            id = d.next_id;
            source_id = source;
            external_id = key;
            payload = payload;
            content_hash = fingerprint payload;
            is_active = true;
            last_seen_at = some now;
            missing_count = 0;
          })
          d.records;
    next_id = d.next_id + 1;
  })

  -- a known record that was seen
  unfoldable pub seen : DateTime → Data → Record Data → Record Data
  seen now payload r = record r {
    payload = payload;
    content_hash = fingerprint payload;
    is_active = true;
    last_seen_at = some now;
    missing_count = 0;
  }

  -- the branch of a known record; where nothing changed, the new fingerprint is the old one
  unfoldable pub updated : DateTime → Data → Record Data → Database → Database
  unfolding seen note
  updated now payload r d =
      let stored = record d { records = table.put (seen now payload r) d.records } in
      if str_eq r.content_hash (fingerprint payload)
      then stored
      else note r.id "updated" payload stored

  unfoldable pub persist_found :
      String → DateTime → String → Data → Option (Record Data) → Database → Database
  unfolding created updated
  persist_found source now key payload none d = created source now key payload d
  persist_found source now key payload (some r) d = updated now payload r d

  -- one round of the loop of `persist_collection`
  unfoldable pub persist_item : String → DateTime → String × Data → Database → Database
  unfolding persist_found
  persist_item source now (key, payload) d =
      persist_found source now key payload (table.find source key d.records) d

  unfoldable pub persist_items : String → DateTime → List (String × Data) → Database → Database
  persist_items source now [] d = d
  persist_items source now (x ∷ xs) d = persist_items source now xs (persist_item source now x d)

  -- `_update_fetch_state`
  unfoldable pub update_fetch_state : String → Collection Data → DateTime → Database → Database
  unfolding insert
  update_fetch_state source result now d = record d {
    fetch_states =
        insert source
          (record {
            etag = result.etag;
            last_modified = result.last_modified;
            raw_response_hash = some result.raw_response_hash;
            updated_at = now;
          })
          d.fetch_states;
  }

  -- a record that a complete collection did not have; `INACTIVE_AFTER_SUCCESSFUL_ABSENCES` is 3
  unfoldable pub missed : Record Data → Record Data
  missed r = record r {
    missing_count = r.missing_count + 1;
    is_active = if leb 3 (r.missing_count + 1) then false else r.is_active;
  }

  -- one round of the loop of `_reconcile_missing`
  unfoldable pub reconcile : List String → Record Data → Database → Database
  unfolding note
  reconcile observed r d =
      let stored = record d { records = table.put (missed r) d.records } in
      if member r.external_id observed
      then d
      else if leb 3 (r.missing_count + 1)
      then note r.id "inactive" r.payload stored
      else stored

  unfoldable pub reconcile_all : List String → List (Record Data) → Database → Database
  reconcile_all observed [] d = d
  reconcile_all observed (r ∷ rs) d = reconcile_all observed rs (reconcile observed r d)

  -- `_reconcile_missing`
  unfoldable pub reconcile_missing : String → List String → Database → Database
  unfolding reconcile_all
  reconcile_missing source observed d = reconcile_all observed (table.active source d.records) d

  -- `persist_collection`; `now` is `beijing_now()`
  unfoldable pub persist_collection : String → Collection Data → DateTime → Database → Database
  persist_collection source result now d =
      reconcile_missing source (map (λ i. i.0) result.items)
        (update_fetch_state source result now (persist_items source now result.items d))
