-- ===== src/BrowserRuntime/Tests.antt =====
-- The theorems on the browser runtime at concrete inputs: a browser whose page and context raise when
-- they are closed, and a small file system.
use football_prediction_craw.Prelude.{
  ℕ, ◌+◌, ◌*◌, ◌≡◌, refl, true, ◌||◌, none, some, List, [], ◌∷◌, String, str_eq, any, ltb,
  if◌then◌else◌,
}
use football_prediction_craw.Prelude.Text.{codes, starts_with}
use football_prediction_craw.Prelude.Dict.{Dict, lookup}
use football_prediction_craw.Prelude.Result.{ok, err}
use football_prediction_craw.Prelude.Exec.{Exec}
use football_prediction_craw.Artifacts.Words.{Text, Event, start_tag, end_tag, has_ink, is_space}
use football_prediction_craw.Artifacts.Writer.{redacted_png}
use football_prediction_craw.Artifacts.Directory.{AllRedacted}
use football_prediction_craw.BrowserRuntime.Settings.{
  BrowserRuntimeSettings, FileSystem, Floats, from_environment, raw_value,
}
use football_prediction_craw.BrowserRuntime.Host.{Fault, browser_operation_error, other, Host, Desk}
use football_prediction_craw.BrowserRuntime.Run.{ArtifactWriter, run}
use football_prediction_craw.BrowserRuntime.Closing.{nothing_open, phase_of, run_closes_everything}
use football_prediction_craw.BrowserRuntime.Directory.{run_keeps_directory_redacted}
use football_prediction_craw.BrowserRuntime.Outside.{Ready, accepted_settings_are_safe}

-- a world that counts calls; a page is opened, and nothing closes well
abbrev host : Host ℕ ℕ ℕ
host = record {
  enter = λ w. (ok tt, w + 1);
  exit = λ w. (ok tt, w + 1);
  launch_persistent_context = λ directory program headless w. (ok 1, w + 1);
  pages = λ context w. [];
  new_page = λ context w. (ok 2, w + 1);
  route = λ context pattern handler w. (ok tt, w + 1);
  set_default_timeout = λ page timeout w. (ok tt, w + 1);
  set_default_navigation_timeout = λ page timeout w. (ok tt, w + 1);
  close_page = λ page w. (err (other 7), w + 1);
  close_context = λ context w. (err (other 8), w + 1);
}

-- numbers of seconds, of one digit or two
abbrev floats : Floats ℕ
floats = record {
  float = λ text. if str_eq text "5" then some 5 else if str_eq text "30" then some 30 else none;
  is_finite = λ x. true;
  is_positive = λ x. ltb 0 x;
  milliseconds = λ x. x * 1000;
}

-- paths are texts; the disk is the list of the directories, and `/edge` a file
abbrev disk_of : FileSystem String (List String)
disk_of = record {
  path = λ text. text;
  is_absolute = λ path. starts_with (codes "/") (codes path);
  resolve = λ path disk. path;
  is_relative_to = λ path root. starts_with (codes root) (codes path);
  exists = λ path disk. str_eq path "/edge" || any (str_eq path) disk;
  is_file = λ path disk. str_eq path "/edge";
  is_dir = λ path disk. any (str_eq path) disk;
  mkdir = λ path disk. (ok tt, path ∷ disk);
}

abbrev environ : Dict String
environ =
    ("BROWSER_EDGE_EXECUTABLE_PATH", "/edge")
    ∷ ("BROWSER_USER_DATA_DIR", "/profile")
    ∷ ("BROWSER_FAILURE_SNAPSHOT_DIR", "/failures")
    ∷ ("BROWSER_PAGE_TIMEOUT_SECONDS", "30")
    ∷ ("BROWSER_ACTION_TIMEOUT_SECONDS", "5")
    ∷ []

abbrev settings : BrowserRuntimeSettings String ℕ
settings = record {
  edge_executable_path = "/edge";
  user_data_dir = "/profile";
  failure_snapshot_dir = "/failures";
  page_timeout_seconds = 30;
  action_timeout_seconds = 5;
}

settings_accepted :
    from_environment disk_of floats environ "/repository" ("/profile" ∷ [])
    ≡ (ok settings, "/failures" ∷ "/profile" ∷ [])
unfolding from_environment raw_value has_ink is_space lookup starts_with
settings_accepted = refl

accepted_settings_are_safe_example :
    Ready disk_of floats "/repository" ("/profile" ∷ []) settings ("/failures" ∷ "/profile" ∷ [])
accepted_settings_are_safe_example =
    accepted_settings_are_safe disk_of floats environ "/repository" ("/profile" ∷ [])
      ("/failures" ∷ "/profile" ∷ []) settings settings_accepted

abbrev table : Text → List Event
table text = start_tag (codes "table") [] ∷ end_tag (codes "table") ∷ []

abbrev writer : ArtifactWriter
writer = record { parse = table; artifact_id = "1" }

-- an operation that fails, with a fragment
abbrev failure : Fault
failure = browser_operation_error (record {
  source_id = "lottery";
  safe_html = codes "<table></table>";
  redacted_png = redacted_png [];
})

abbrev operation : ℕ → Exec Fault ℕ ℕ
operation page w = (err failure, w)

abbrev crash : ℕ → Exec Fault ℕ ℕ
crash page w = (err (other 3), w)

abbrev start : Desk ℕ
start = record { world = 0; calls = []; files = [] }

nothing_yet : phase_of [] ≡ some nothing_open
unfolding phase_of
nothing_yet = refl

run_closes_everything_example :
    phase_of (run host floats (λ p. p) settings (some writer) operation start).1.calls
    ≡ some nothing_open
run_closes_everything_example =
    run_closes_everything host floats (λ p. p) settings (some writer) operation start nothing_yet

run_keeps_directory_redacted_example :
    AllRedacted table (run host floats (λ p. p) settings (some writer) operation start).1.files
run_keeps_directory_redacted_example =
    run_keeps_directory_redacted host floats (λ p. p) settings writer operation start tt
