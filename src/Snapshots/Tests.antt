-- ===== src/Snapshots/Tests.antt =====
-- The theorems on snapshots on a disk that is a list of files with their times.
use football_prediction_craw.Prelude.{
  ℕ, ◌≡◌, refl, Bool, true, false, not, ◌&&◌, ◌||◌, List, [], ◌∷◌, String, if◌then◌else◌, any, map,
  str_eq, eq_iff, arith,
}
use football_prediction_craw.Prelude.Text.{codes, starts_with}
use football_prediction_craw.Prelude.Result.{ok, err}
use football_prediction_craw.Observability.Json.{Json, null}
use football_prediction_craw.Observability.Redaction.{Urls, value_error}
use football_prediction_craw.Snapshots.{
  Files, FailureSnapshotWriter, SnapshotRequest, external_root, cleanup_expired_snapshots, write,
}
use football_prediction_craw.Snapshots.Retention.{is_expired, cleanup_removes_expired}
use football_prediction_craw.Snapshots.Bounds.{Bounded, write-Bounded}

abbrev Disk : Type 0
Disk = List (String × ℕ)

unfoldable without : String → Disk → Disk
without p [] = []
without p ((q, t) ∷ d) = let rest = without p d in if str_eq p q then rest else (q, t) ∷ rest

unfoldable on_disk : String → Disk → Bool
on_disk q [] = false
on_disk q ((p, t) ∷ d) = str_eq p q || on_disk q d

unfoldable time_of : String → Disk → ℕ
time_of q [] = 0
time_of q ((p, t) ∷ d) = let rest = time_of q d in if str_eq p q then t else rest

on_disk-without :
    (p q : String) (d : Disk)
    → on_disk q (without p d) ≡ (if str_eq p q then false else on_disk q d)
unfolding on_disk without
on_disk-without p q [] = ground arith
on_disk-without p q ((r, t) ∷ d) =
    ground (arith, on_disk-without p q d, eq_iff p q, eq_iff p r, eq_iff r q)

time_of-without :
    (p q : String) (d : Disk) → str_eq p q ≡ false → time_of q (without p d) ≡ time_of q d
unfolding time_of without
time_of-without p q [] h = refl
time_of-without p q ((r, t) ∷ d) h =
    ground (arith, time_of-without p q d h, eq_iff p q, eq_iff p r, eq_iff r q)

text-eq : (p q : String) → str_eq p q ≡ true → p ≡ q
text-eq p q h = ground (arith, eq_iff p q)

-- every file is below the root
unfoldable files : Files String Disk
files = record {
  same = str_eq;
  is_absolute = λ p. starts_with (codes "/") (codes p);
  resolve = λ p d. p;
  is_relative_to = λ p root. starts_with (codes root) (codes p);
  child = λ p name. name;
  exists = λ p d. true;
  is_file = on_disk;
  modified = time_of;
  rglob = λ p d. map (λ f. f.0) d;
  unlink = without;
  mkdir = λ p d. d;
  write_bytes = λ p bytes d. (p, 9) ∷ d;
  same-eq = text-eq;
  is_file-unlink = on_disk-without;
  modified-unlink = time_of-without;
}

abbrev disk : Disk
disk = ("/s/old", 1) ∷ ("/s/new", 5) ∷ []

root_accepted : external_root files "/s" "/repository" disk ≡ ok "/s"
unfolding external_root starts_with files
root_accepted = refl

root_exists : files.exists "/s" disk ≡ true
unfolding files
root_exists = refl

cleanup_removes_expired_example :
    files.is_file "/s/old" (cleanup_expired_snapshots files "/s" 3 "/repository" disk).1 ≡ (
      files.is_file "/s/old" disk
      && not (
          any (λ p. files.same p "/s/old") (files.rglob "/s" disk)
          && is_expired files 3 "/s/old" disk))
cleanup_removes_expired_example =
    cleanup_removes_expired files 3 "/s" "/repository" "/s" disk "/s/old" root_accepted root_exists

abbrev urls : Urls
urls = record { urlsplit = λ s. err value_error; urlunsplit = λ a b c. b }

abbrev dumps : Json → List ℕ
dumps payload = codes "{}"

abbrev writer : FailureSnapshotWriter String
writer = record { root = "/s"; max_bytes = 2 }

abbrev request : SnapshotRequest
request = record { source_id = "demo"; crawl_run_id = "1"; headers = []; body = null }

write-Bounded_example :
    Bounded urls dumps files writer disk (write urls dumps files writer request disk)
write-Bounded_example = write-Bounded urls dumps files writer request disk
