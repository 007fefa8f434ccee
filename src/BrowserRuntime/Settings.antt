-- ===== src/BrowserRuntime/Settings.antt =====
-- `BrowserRuntimeSettings` of browser_runtime.py. `pathlib` and `float` are parameters: what the code
-- asks of a path, in a file system that `mkdir` may change, and of a number.
use football_prediction_craw.Prelude.{ℕ, Bool, not, ◌&&◌, Option, none, some, String, if◌then◌else◌}
use football_prediction_craw.Prelude.Text.{codes}
use football_prediction_craw.Prelude.Dict.{Dict, lookup}
use football_prediction_craw.Prelude.Result.{Result, ok, err, ◌>>=◌}
use football_prediction_craw.Prelude.Exec.{Exec, after}
use football_prediction_craw.Artifacts.Words.{has_ink}

-- why `BrowserRuntimeConfigurationError` is raised
pub data Reason : Type 0 where
  is_required must_be_absolute inside_repository no_existing_file no_directory not_positive
        not_created :
      Reason

-- `BrowserRuntimeConfigurationError`, with the variable that its message names
pub record ConfigurationError : Type 0 where
  pub variable_name : String
  pub reason : Reason

-- `Path` and the file system
pub record FileSystem (Location Disk : Type 0) : Type 0 where
  pub path : String → Location
  pub is_absolute : Location → Bool
  pub resolve : Location → Disk → Location
  pub is_relative_to : Location → Location → Bool
  pub exists : Location → Disk → Bool
  pub is_file : Location → Disk → Bool
  pub is_dir : Location → Disk → Bool
  -- `path.mkdir(parents=True, exist_ok=True)`; an error is an `OSError`
  pub mkdir : Location → Exec (Unit {0}) Disk (Unit {0})

-- `float` of a text, and the tests on the number
pub record Floats (Num : Type 0) : Type 0 where
  pub float : String → Option Num
  pub is_finite : Num → Bool
  pub is_positive : Num → Bool
  -- `int(seconds * 1000)`
  pub milliseconds : Num → ℕ

pub record BrowserRuntimeSettings (Location Num : Type 0) : Type 0 where
  pub edge_executable_path : Location
  pub user_data_dir : Location
  pub failure_snapshot_dir : Location
  pub page_timeout_seconds : Num
  pub action_timeout_seconds : Num

unfoldable pub refuse : {A : Type 0} → String → Reason → Result ConfigurationError A
refuse variable_name reason = err (record { variable_name = variable_name; reason = reason })

abbrev pub snapshot_variable : String
snapshot_variable = "BROWSER_FAILURE_SNAPSHOT_DIR"

-- `environ.get(variable_name, "")`
unfoldable pub raw_value : Dict String → String → String
raw_value environ variable_name = elim (lookup variable_name environ) [
  | none ↦ ""
  | some text ↦ text
]

module _ {Num : Type 0} (floats : Floats Num) where
  -- the number must be finite and positive
  unfoldable pub positive_of : String → Option Num → Result ConfigurationError Num
  unfolding refuse
  positive_of variable_name none = refuse variable_name not_positive
  positive_of variable_name (some x) =
      if floats.is_finite x && floats.is_positive x then ok x else refuse variable_name not_positive

  -- `_require_positive_timeout`
  unfoldable pub require_positive_timeout : Dict String → String → Result ConfigurationError Num
  unfolding positive_of
  require_positive_timeout environ variable_name =
      if has_ink (codes (raw_value environ variable_name))
      then positive_of variable_name (floats.float (raw_value environ variable_name))
      else refuse variable_name is_required

module _ {Location Disk : Type 0} (fs : FileSystem Location Disk) where
  -- the last test of `_require_external_path`
  unfoldable pub outside_of : Location → String → Location → Result ConfigurationError Location
  unfolding refuse
  outside_of root variable_name resolved =
      if fs.is_relative_to resolved root
      then refuse variable_name inside_repository
      else ok resolved

  -- `_require_external_path`
  unfoldable pub require_external_path :
      Dict String → String → Location → Disk → Result ConfigurationError Location
  unfolding outside_of
  require_external_path environ variable_name root disk =
      if not (has_ink (codes (raw_value environ variable_name)))
      then refuse variable_name is_required
      else if not (fs.is_absolute (fs.path (raw_value environ variable_name)))
      then refuse variable_name must_be_absolute
      else outside_of root variable_name
          (fs.resolve (fs.path (raw_value environ variable_name)) disk)

  unfoldable pub existing_file : String → Disk → Location → Result ConfigurationError Location
  unfolding refuse
  existing_file variable_name disk path =
      if not (fs.exists path disk)
      then refuse variable_name no_existing_file
      else if not (fs.is_file path disk)
      then refuse variable_name no_existing_file
      else ok path

  -- `_require_existing_external_file`
  unfoldable pub require_existing_external_file :
      Dict String → String → Location → Disk → Result ConfigurationError Location
  unfolding require_external_path existing_file
  require_existing_external_file environ variable_name root disk =
      require_external_path environ variable_name root disk >>= existing_file variable_name disk

  unfoldable pub possible_directory : String → Disk → Location → Result ConfigurationError Location
  unfolding refuse
  possible_directory variable_name disk path =
      if fs.exists path disk && not (fs.is_dir path disk)
      then refuse variable_name no_directory
      else ok path

  -- `_require_external_directory`
  unfoldable pub require_external_directory :
      Dict String → String → Location → Disk → Result ConfigurationError Location
  unfolding require_external_path possible_directory
  require_external_directory environ variable_name root disk =
      require_external_path environ variable_name root disk
      >>= possible_directory variable_name disk

  unfoldable pub made : Result (Unit {0}) (Unit {0}) → Result ConfigurationError (Unit {0})
  unfolding refuse
  made (ok u) = ok tt
  made (err e) = refuse snapshot_variable not_created

  -- `_ensure_snapshot_directory`
  unfoldable pub ensure_snapshot_directory : Location → Exec ConfigurationError Disk (Unit {0})
  unfolding refuse made
  ensure_snapshot_directory path disk =
      let (r, left) = fs.mkdir path disk in
      if fs.exists path disk && not (fs.is_dir path disk)
      then (refuse snapshot_variable no_directory, disk)
      else (made r, left)

module _ {Location Disk Num : Type 0} (fs : FileSystem Location Disk) (floats : Floats Num) where
  -- what `from_environment` reads and tests, in its order
  unfoldable pub checked_settings :
      Dict String
      → Location
      → Disk
      → Result ConfigurationError (BrowserRuntimeSettings Location Num)
  unfolding require_existing_external_file require_external_directory require_positive_timeout
  checked_settings environ root disk = do
    executable ← require_existing_external_file fs environ "BROWSER_EDGE_EXECUTABLE_PATH" root disk
    user_data ← require_external_directory fs environ "BROWSER_USER_DATA_DIR" root disk
    snapshots ← require_external_directory fs environ snapshot_variable root disk
    page_timeout ← require_positive_timeout floats environ "BROWSER_PAGE_TIMEOUT_SECONDS"
    action_timeout ← require_positive_timeout floats environ "BROWSER_ACTION_TIMEOUT_SECONDS"
    ok (record {
      edge_executable_path = executable;
      user_data_dir = user_data;
      failure_snapshot_dir = snapshots;
      page_timeout_seconds = page_timeout;
      action_timeout_seconds = action_timeout;
    })

  unfoldable pub with_directory :
      BrowserRuntimeSettings Location Num
      → Exec ConfigurationError Disk (BrowserRuntimeSettings Location Num)
  unfolding ensure_snapshot_directory
  with_directory settings disk =
      let (r, left) = ensure_snapshot_directory fs settings.failure_snapshot_dir disk in
      after (λ u d. (ok settings, d)) r left

  -- `from_environment`
  unfoldable pub from_environment :
      Dict String → Location → Exec ConfigurationError Disk (BrowserRuntimeSettings Location Num)
  unfolding checked_settings with_directory
  from_environment environ repository_root disk =
      after with_directory (checked_settings environ (fs.resolve repository_root disk) disk) disk
