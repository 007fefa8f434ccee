-- ===== src/BrowserRuntime/Outside.antt =====
-- The paths and numbers that pass the settings checks (browser_runtime.py).
use football_prediction_craw.Prelude.{
  ◌≡◌, refl, subst, true, false, not, ◌&&◌, Option, none, some, String, Bool-cases, inl, inr,
}
use football_prediction_craw.Prelude.Text.{codes}
use football_prediction_craw.Prelude.Dict.{Dict}
use football_prediction_craw.Prelude.Result.{Result, ok, err, ◌>>=◌}
use football_prediction_craw.Prelude.Exec.{after}
use football_prediction_craw.Artifacts.Words.{has_ink}
use football_prediction_craw.BrowserRuntime.Settings.{
  ConfigurationError, FileSystem, Floats, BrowserRuntimeSettings, refuse, raw_value, positive_of,
  require_positive_timeout, outside_of, require_external_path, existing_file,
  require_existing_external_file, possible_directory, require_external_directory,
  ensure_snapshot_directory, made, checked_settings, with_directory, from_environment,
}

-- what a check's value satisfies, if there is one
abbrev Gives : {E A : Type 0} → (A → Type 0) → Result E A → Type 0
Gives P (ok a) = P a
Gives P (err e) = Unit

then-Gives :
    {E A B : Type 0} (P : A → Type 0) (Q : B → Type 0) (m : Result E A) (f : A → Result E B)
    → Gives P m
    → ((a : A) → P a → Gives Q (f a))
    → Gives Q (m >>= f)
then-Gives P Q (ok a) f h rest = rest a h
then-Gives P Q (err e) f h rest = tt

module _ {Location Disk Num : Type 0} (fs : FileSystem Location Disk) (floats : Floats Num)
    (root : Location) (disk : Disk) where
  -- outside the repository
  abbrev pub External : Location → Type 0
  External path = fs.is_relative_to path root ≡ false

  abbrev pub Program : Location → Type 0
  Program path = External path × (fs.is_file path disk ≡ true)

  -- outside the repository, and a directory if it exists
  abbrev pub Place : Location → Type 0
  Place path = External path × ((fs.exists path disk && not (fs.is_dir path disk)) ≡ false)

  abbrev pub Positive : Num → Type 0
  Positive x = (floats.is_finite x && floats.is_positive x) ≡ true

  -- settings that are safe to run with
  abbrev pub Safe : BrowserRuntimeSettings Location Num → Type 0
  Safe s =
      Program s.edge_executable_path
      × Place s.user_data_dir
      × Place s.failure_snapshot_dir
      × Positive s.page_timeout_seconds
      × Positive s.action_timeout_seconds

  resolved-External :
      (environ : Dict String) (variable_name : String)
      → Gives External (require_external_path fs environ variable_name root disk)
  unfolding require_external_path outside_of refuse
  resolved-External environ variable_name =
      elim (Bool-cases (has_ink (codes (raw_value environ variable_name)))) [
        | inr e ↦ rw e tt
        | inl e ↦ elim (Bool-cases (fs.is_absolute (fs.path (raw_value environ variable_name)))) [
          | inr f ↦ rw (e, f) tt
          | inl f ↦
              elim (Bool-cases (
                fs.is_relative_to (fs.resolve (fs.path (raw_value environ variable_name)) disk)
                  root)) [ inl g ↦ rw (e, f, g) tt | inr g ↦ rw (e, f, g) g ]
        ]
      ]

  file-Program :
      (variable_name : String) (path : Location)
      → External path
      → Gives Program (existing_file fs variable_name disk path)
  unfolding existing_file refuse
  file-Program variable_name path h = elim (Bool-cases (fs.exists path disk)) [
    | inr e ↦ rw e tt
    | inl e ↦ elim (Bool-cases (fs.is_file path disk)) [
      | inl f ↦ rw (e, f) (h, f)
      | inr f ↦ rw (e, f) tt
    ]
  ]

  directory-Place :
      (variable_name : String) (path : Location)
      → External path
      → Gives Place (possible_directory fs variable_name disk path)
  unfolding possible_directory refuse
  directory-Place variable_name path h =
      elim (Bool-cases (fs.exists path disk && not (fs.is_dir path disk))) [
        | inl e ↦ rw e tt
        | inr e ↦ rw e (h, e)
      ]

  executable-Program :
      (environ : Dict String) (variable_name : String)
      → Gives Program (require_existing_external_file fs environ variable_name root disk)
  unfolding require_existing_external_file
  executable-Program environ variable_name =
      then-Gives External Program _ _ (resolved-External environ variable_name)
        (file-Program variable_name)

  directory_of-Place :
      (environ : Dict String) (variable_name : String)
      → Gives Place (require_external_directory fs environ variable_name root disk)
  unfolding require_external_directory
  directory_of-Place environ variable_name =
      then-Gives External Place _ _ (resolved-External environ variable_name)
        (directory-Place variable_name)

  number-Positive :
      (variable_name : String) (x : Option Num)
      → Gives Positive (positive_of floats variable_name x)
  unfolding positive_of refuse
  number-Positive variable_name none = tt
  number-Positive variable_name (some x) =
      elim (Bool-cases (floats.is_finite x && floats.is_positive x)) [
        | inl e ↦ rw e e
        | inr e ↦ rw e tt
      ]

  timeout-Positive :
      (environ : Dict String) (variable_name : String)
      → Gives Positive (require_positive_timeout floats environ variable_name)
  unfolding require_positive_timeout refuse
  timeout-Positive environ variable_name =
      elim (Bool-cases (has_ink (codes (raw_value environ variable_name)))) [
        | inl e ↦
            rw e (number-Positive variable_name (floats.float (raw_value environ variable_name)))
        | inr e ↦ rw e tt
      ]

  settings-Safe :
      (environ : Dict String) → Gives Safe (checked_settings fs floats environ root disk)
  unfolding checked_settings
  settings-Safe environ =
      then-Gives Program Safe _ _ (executable-Program environ _) (λ executable p.
        then-Gives Place Safe _ _ (directory_of-Place environ _) (λ user_data q.
          then-Gives Place Safe _ _ (directory_of-Place environ _) (λ snapshots r.
            then-Gives Positive Safe _ _ (timeout-Positive environ _) (λ page_timeout s.
              then-Gives Positive Safe _ _ (timeout-Positive environ _)
                (λ action_timeout t. (p, q, r, s, t))))))

-- a result and what is left beside it
Ends : {E A D : Type 0} → (A → D → Type 0) → Result E A × D → Type 0
Ends P (ok a, left) = P a left
Ends P (err e, left) = Unit

ends-at :
    {E A D : Type 0} (P : A → D → Type 0) {x : Result E A × D} {a : A} {left : D}
    → x ≡ (ok a, left)
    → Ends P x
    → P a left
unfolding Ends
ends-at P h k = subst (Ends P) h k

module _ {Location Disk Num : Type 0} (fs : FileSystem Location Disk) (floats : Floats Num)
    (root : Location) (disk : Disk) where
  -- safe settings, whose directory of artifacts was made
  abbrev pub Ready : BrowserRuntimeSettings Location Num → Disk → Type 0
  Ready s left = Safe fs floats root disk s × (fs.mkdir s.failure_snapshot_dir disk ≡ (ok tt, left))

  made-Ready :
      (s : BrowserRuntimeSettings Location Num)
      → Safe fs floats root disk s
      → (r : Result (Unit {0}) (Unit {0})) (left : Disk)
      → fs.mkdir s.failure_snapshot_dir disk ≡ (r, left)
      → Ends Ready (after (λ u d. (ok s, d)) (made fs r) left)
  unfolding made refuse Ends
  made-Ready s h (ok u) left e = (h, e)
  made-Ready s h (err x) left e = tt

  directory-Ready :
      (s : BrowserRuntimeSettings Location Num)
      → Safe fs floats root disk s
      → Ends Ready (with_directory fs floats s disk)
  unfolding with_directory ensure_snapshot_directory
  directory-Ready s h = rw (h.2.1) (
      made-Ready s h (fs.mkdir s.failure_snapshot_dir disk).0
        (fs.mkdir s.failure_snapshot_dir disk).1 refl)

  checked-Ready :
      (r : Result ConfigurationError (BrowserRuntimeSettings Location Num))
      → Gives (Safe fs floats root disk) r
      → Ends Ready (after (with_directory fs floats) r disk)
  unfolding Ends
  checked-Ready (ok s) h = directory-Ready s h
  checked-Ready (err e) h = tt

-- Settings that `from_environment` accepts are safe to run with: the browser's program is an existing
-- file, both directories are directories or do not exist, all three lie outside the repository, and both
-- timeouts are finite and positive; and the directory of failure artifacts was made.
pub accepted_settings_are_safe :
    {Location Disk Num : Type 0} (fs : FileSystem Location Disk) (floats : Floats Num)
    (environ : Dict String) (repository_root : Location) (disk left : Disk)
    (s : BrowserRuntimeSettings Location Num)
    → from_environment fs floats environ repository_root disk ≡ (ok s, left)
    → Ready fs floats (fs.resolve repository_root disk) disk s left
unfolding from_environment
accepted_settings_are_safe fs floats environ repository_root disk left s h =
    let root = fs.resolve repository_root disk in
    ends-at (Ready fs floats root disk) h (
      checked-Ready fs floats root disk (checked_settings fs floats environ root disk)
        (settings-Safe fs floats root disk environ))
