-- ===== src/Snapshots.antt =====
-- failure_snapshots.py: the redacted responses of failed runs, in a directory outside the repository, and
-- their removal; times are whole units of the clock. `pathlib`, the file system and `json.dumps` are parameters.
pub mod Retention
pub mod Bounds
mod Tests
use Prim.Native.String
use football_prediction_craw.Prelude.{
  ℕ, ◌+◌, ◌≡◌, Bool, true, false, not, ◌&&◌, Option, none, some, List, [], ◌∷◌, String,
  if◌then◌else◌, ltb, ◌==◌, length,
}
use football_prediction_craw.Prelude.Dict.{Dict}
use football_prediction_craw.Prelude.Exec.{Exec, after}
use football_prediction_craw.Prelude.Result.{Result, ok, err, ◌>>=◌}
use football_prediction_craw.Prelude.Text.{codes, lower}
use football_prediction_craw.Moment.{DateTime}
use football_prediction_craw.Patterns.{is_source_id}
use football_prediction_craw.Artifacts.Words.{Text, one_of}
use football_prediction_craw.Observability.Json.{Json, text, object, Fields, end, field}
use football_prediction_craw.Observability.Redaction.{Urls, redact_value, Error as RedactionError}

-- `SnapshotConfigurationError` and `ValueError`
pub data Error : Type 0 where
  configuration_error value_error : Error

pub record SnapshotRequest : Type 0 where
  pub source_id : String
  pub crawl_run_id : String
  pub headers : Dict String
  pub body : Json

-- A path and the file system, whose operations do not raise. `unlink` removes the one file that it is given.
pub record Files (Location Disk : Type 0) : Type 0 where
  pub same : Location → Location → Bool
  pub is_absolute : Location → Bool
  pub resolve : Location → Disk → Location
  pub is_relative_to : Location → Location → Bool
  pub child : Location → String → Location
  pub exists : Location → Disk → Bool
  pub is_file : Location → Disk → Bool
  pub modified : Location → Disk → ℕ
  -- `list(path.rglob("*"))`
  pub rglob : Location → Disk → List Location
  pub unlink : Location → Disk → Disk
  pub mkdir : Location → Disk → Disk
  pub write_bytes : Location → List ℕ → Disk → Disk
  pub same-eq : (p q : Location) → same p q ≡ true → p ≡ q
  pub is_file-unlink :
      (p q : Location) (d : Disk)
      → is_file q (unlink p d) ≡ (if same p q then false else is_file q d)
  pub modified-unlink :
      (p q : Location) (d : Disk) → same p q ≡ false → modified q (unlink p d) ≡ modified q d

-- `FailureSnapshotWriter`, with its two fields
pub record FailureSnapshotWriter (Location : Type 0) : Type 0 where
  pub root : Location
  pub max_bytes : ℕ

unfoldable pub header_allowlist : List Text
header_allowlist = codes "content-type" ∷ codes "etag" ∷ codes "last-modified" ∷ []

-- the headers of the payload
unfoldable pub allowed_headers : Dict String → Fields
unfolding header_allowlist
allowed_headers [] = end
allowed_headers ((key, value) ∷ headers) =
    let rest = allowed_headers headers in
    if one_of header_allowlist (lower (codes key)) then field key (text value) rest else rest

module _ {Location Disk : Type 0} (files : Files Location Disk) where
  -- `_external_root`
  unfoldable pub external_root : Location → Location → Disk → Result Error Location
  external_root root repository_root disk =
      if not (files.is_absolute root)
      then err configuration_error
      else if files.is_relative_to (files.resolve root disk) (files.resolve repository_root disk)
      then err configuration_error
      else ok (files.resolve root disk)

  -- `FailureSnapshotWriter`; a negative limit is refused as 0 is
  unfoldable pub new_writer :
      Location → Location → ℕ → Exec Error Disk (FailureSnapshotWriter Location)
  unfolding external_root
  new_writer root repository_root max_bytes disk =
      if max_bytes == 0
      then (err configuration_error, disk)
      else after
          (λ resolved d.
            (ok (record { root = resolved; max_bytes = max_bytes }), files.mkdir resolved d))
          (external_root root repository_root disk) disk

  -- the candidates of `cleanup_expired_snapshots`, in order: the number of those that are removed
  unfoldable pub remove_expired : ℕ → List Location → Disk → ℕ × Disk
  remove_expired cutoff [] disk = (0, disk)
  remove_expired cutoff (p ∷ ps) disk =
      if files.is_file p disk && ltb (files.modified p disk) cutoff
      then (let (n, left) = remove_expired cutoff ps (files.unlink p disk) in (n + 1, left))
      else remove_expired cutoff ps disk

  -- `cleanup_expired_snapshots`; `cutoff` is the cutoff's time stamp
  unfoldable pub cleanup_expired_snapshots : Location → ℕ → Location → Exec Error Disk ℕ
  unfolding external_root remove_expired
  cleanup_expired_snapshots root cutoff repository_root disk =
      after
        (λ resolved d.
          if not (files.exists resolved d)
          then (ok 0, d)
          else (let (n, left) = remove_expired cutoff (files.rglob resolved d) d in (ok n, left)))
        (external_root root repository_root disk) disk

module _ (urls : Urls) (dumps : Json → List ℕ) where
  -- the encoded payload, from the redacted body
  unfoldable pub payload : Dict String → Result RedactionError Json → Result Error (List ℕ)
  unfolding allowed_headers
  payload headers (ok body) =
      ok (
        dumps (object (field "headers" (object (allowed_headers headers)) (field "body" body end))))
  payload headers (err e) = err value_error

  module _ {Location Disk : Type 0} (files : Files Location Disk)
      (writer : FailureSnapshotWriter Location) where
    -- the last part of `write`
    unfoldable pub write_payload : SnapshotRequest → List ℕ → Exec Error Disk Location
    write_payload request bytes disk =
        let path = files.child writer.root (
          String.◌++◌ request.source_id
            (String.◌++◌ "_" (String.◌++◌ request.crawl_run_id "_response.json"))) in
        if ltb writer.max_bytes (length bytes)
        then (err value_error, disk)
        else (ok path, files.write_bytes path bytes disk)

    -- `write`
    unfoldable pub write : SnapshotRequest → Exec Error Disk Location
    unfolding payload write_payload
    write request disk =
        if is_source_id request.source_id
        then after (write_payload request)
            (payload request.headers (redact_value urls none request.body)) disk
        else (err value_error, disk)

-- `models.CrawlRun`
pub record CrawlRun : Type 0 where
  pub id : String
  pub source_id : String
  pub status : String
  pub started_at : DateTime
  pub finished_at : Option DateTime
  pub record_count : ℕ
  pub error_metadata : Option Fields
  pub snapshot_path : Option String

-- `attach_snapshot_path`; `path_text` is `str` of a path
unfoldable pub attach_snapshot_path :
    {Location : Type 0} → (Location → String) → Location → CrawlRun → CrawlRun
attach_snapshot_path path_text response_path crawl_run = record crawl_run {
  snapshot_path = some (path_text response_path);
}
