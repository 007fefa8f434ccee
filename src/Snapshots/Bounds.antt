-- ===== src/Snapshots/Bounds.antt =====
-- The size of what a snapshot writes (failure_snapshots.py).
use football_prediction_craw.Prelude.{
  ℕ, ◌≤◌, ◌≡◌, refl, none, List, length, ltb, arith, Bool-cases, inl, inr,
}
use football_prediction_craw.Prelude.Result.{Result, ok, err}
use football_prediction_craw.Prelude.Exec.{after}
use football_prediction_craw.Patterns.{is_source_id}
use football_prediction_craw.Observability.Json.{Json}
use football_prediction_craw.Observability.Redaction.{Urls, redact_value}
use football_prediction_craw.Snapshots.{
  Error, Files, FailureSnapshotWriter, SnapshotRequest, payload, write_payload, write,
}

module _ (urls : Urls) (dumps : Json → List ℕ) {Location Disk : Type 0}
    (files : Files Location Disk) (writer : FailureSnapshotWriter Location) where
  -- a returned path holds at most the limit; a refusal leaves the disk as it was
  abbrev pub Bounded : Disk → Result Error Location × Disk → Type 0
  Bounded disk (ok path, left) =
      (bytes : List ℕ) × (left ≡ files.write_bytes path bytes disk)
      × (length bytes ≤ writer.max_bytes)
  Bounded disk (err e, left) = left ≡ disk

  write_payload-Bounded :
      (request : SnapshotRequest) (r : Result Error (List ℕ)) (disk : Disk)
      → Bounded disk (after (write_payload urls dumps files writer request) r disk)
  unfolding write_payload
  write_payload-Bounded request (ok bytes) disk =
      elim (Bool-cases (ltb writer.max_bytes (length bytes))) [
        | inl e ↦ rw e refl
        | inr e ↦ rw e (bytes, refl, ground (arith, e))
      ]
  write_payload-Bounded request (err e) disk = refl

  -- A snapshot that `write` returns was written with no more bytes than the limit; when `write` raises,
  -- for the source, the body or the size, nothing was written.
  pub write-Bounded :
      (request : SnapshotRequest) (disk : Disk)
      → Bounded disk (write urls dumps files writer request disk)
  unfolding write
  write-Bounded request disk = elim (Bool-cases (is_source_id request.source_id)) [
    | inl e ↦ rw e (
        write_payload-Bounded request
          (payload urls dumps request.headers (redact_value urls none request.body)) disk)
    | inr e ↦ rw e refl
  ]
