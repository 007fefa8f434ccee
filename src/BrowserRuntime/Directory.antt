-- ===== src/BrowserRuntime/Directory.antt =====
-- The directory of failure artifacts during runs of the browser (browser_runtime.py).
use football_prediction_craw.Prelude.{Bool, true, false, Option, none, some, List, [], ◌∷◌, String}
use football_prediction_craw.Prelude.Result.{Result, ok, err}
use football_prediction_craw.Prelude.Exec.{Exec, after, raise, ◌>>=◌}
use football_prediction_craw.Artifacts.Writer.{Files, Error, write_failure}
use football_prediction_craw.Artifacts.Directory.{AllRedacted, directory_stays_redacted}
use football_prediction_craw.BrowserRuntime.Settings.{BrowserRuntimeSettings, Floats}
use football_prediction_craw.BrowserRuntime.Host.{
  Fault, browser_operation_error, value_error, other, Host, Call, routing, timing, operating,
  entering, exiting, launching, Desk, call,
}
use football_prediction_craw.BrowserRuntime.Run.{
  ArtifactWriter, persist_failure_artifact, handle_failure, left_by, with_files, close_page,
  raise_page_error, conclude, close_context, close_page_and_context, clean_up, first_page, operate,
  with_page, attempt, launched, within_gateway, run,
}

module _ {W : Type 0} (writer : ArtifactWriter) where
  -- a computation that leaves a redacted directory redacted
  abbrev Keeps : {A : Type 0} → Exec Fault (Desk W) A → Type 0
  Keeps m = (d : Desk W) → AllRedacted writer.parse d.files → AllRedacted writer.parse (m d).1.files

  after-Keeps :
      {A B : Type 0} (f : A → Exec Fault (Desk W) B) (r : Result Fault A)
      → ((a : A) → Keeps (f a))
      → Keeps (after f r)
  after-Keeps f (ok a) rest d h = rest a d h
  after-Keeps f (err e) rest d h = h

  call-Keeps : {A : Type 0} (c : Call) (m : Exec Fault W A) → Keeps (call c m)
  unfolding call
  call-Keeps c m d h = h

  call_then-Keeps :
      {A B : Type 0} (c : Call) (m : Exec Fault W A) (f : A → Exec Fault (Desk W) B)
      → ((a : A) → Keeps (f a))
      → Keeps (call c m >>= f)
  call_then-Keeps c m f rest d h =
      let (r, t) = call c m d in after-Keeps f r rest t (call-Keeps c m d h)

  with_files-Redacted :
      {A : Type 0} (x : Result Error A × Files) (d : Desk W)
      → AllRedacted writer.parse x.1
      → AllRedacted writer.parse (with_files x d).1.files
  with_files-Redacted (ok a, files) d h = h
  with_files-Redacted (err e, files) d h = h

  handle_failure-Keeps : {T : Type 0} (r : Result Fault T) → Keeps (handle_failure (some writer) r)
  unfolding handle_failure persist_failure_artifact
  handle_failure-Keeps (ok a) d h = h
  handle_failure-Keeps (err (browser_operation_error error)) d h =
      let files =
        write_failure writer.parse writer.artifact_id error.source_id (some error.safe_html)
          error.redacted_png d.files in
      let (r, t) = with_files files d in
      after-Keeps (λ u. raise (browser_operation_error error)) r (λ u t k. k) t
        (with_files-Redacted files d (
          directory_stays_redacted writer.parse writer.artifact_id error.source_id
            (some error.safe_html) error.redacted_png d.files h))
  handle_failure-Keeps (err value_error) d h = h
  handle_failure-Keeps (err (other n)) d h = h

  left_by-Keeps :
      {T : Type 0} (r : Result Fault T) (x : Result Fault (Unit {0}) × Desk W)
      → AllRedacted writer.parse x.1.files
      → AllRedacted writer.parse (left_by r x).1.files
  left_by-Keeps r (ok u, d) h = h
  left_by-Keeps r (err e, d) h = h

module _ {W Context Page : Type 0} (host : Host W Context Page) (writer : ArtifactWriter) where
  conclude-Keeps :
      (suppress : Bool) (e : Option Fault) (r : Result Fault (Unit {0}))
      → Keeps writer (conclude host suppress e r)
  unfolding conclude raise_page_error
  conclude-Keeps suppress none (ok u) d h = h
  conclude-Keeps suppress (some e) (ok u) d h = h
  conclude-Keeps true e (err f) d h = h
  conclude-Keeps false e (err f) d h = h

  close-Keeps :
      (page : Option Page) (context : Context) (suppress : Bool)
      → Keeps writer (close_page_and_context host page context suppress)
  unfolding close_page_and_context close_context close_page call
  close-Keeps none context suppress d h = conclude-Keeps suppress none _ _ h
  close-Keeps (some page) context suppress d h = conclude-Keeps suppress _ _ _ h

  clean_up-Keeps :
      {T : Type 0} (page : Option Page) (context : Context) (r : Result Fault T)
      → Keeps writer (clean_up host (some writer) page context r)
  unfolding clean_up
  clean_up-Keeps page context r d h =
      let (answer, t) = handle_failure (some writer) r d in
      left_by-Keeps writer answer (close_page_and_context host page context _ t)
        (close-Keeps page context _ t (handle_failure-Keeps writer r d h))

module _ {W Context Page Location Num T : Type 0} (host : Host W Context Page) (floats : Floats Num)
    (path_text : Location → String) (settings : BrowserRuntimeSettings Location Num)
    (writer : ArtifactWriter) (operation : Page → Exec Fault W T) where
  operate-Keeps :
      (context : Context) (page : Page)
      → Keeps writer (operate host floats path_text settings (some writer) operation context page)
  unfolding operate
  operate-Keeps context page = call_then-Keeps writer routing _ _ (λ u.
      call_then-Keeps writer timing _ _ (λ v.
        call_then-Keeps writer timing _ _ (λ w. call-Keeps writer operating (operation page))))

  with_page-Keeps :
      (context : Context) (r : Result Fault Page)
      → Keeps writer (with_page host floats path_text settings (some writer) operation context r)
  unfolding with_page
  with_page-Keeps context (ok page) d h =
      let (r, t) = operate host floats path_text settings (some writer) operation context page d in
      clean_up-Keeps host writer (some page) context r t (operate-Keeps context page d h)
  with_page-Keeps context (err e) d h = clean_up-Keeps host writer none context (err e) d h

  first_page-Keeps :
      (context : Context) (pages : List Page) → Keeps writer (first_page host context pages)
  unfolding first_page call
  first_page-Keeps context [] d h = h
  first_page-Keeps context (page ∷ pages) d h = h

  attempt-Keeps :
      (context : Context)
      → Keeps writer (attempt host floats path_text settings (some writer) operation context)
  unfolding attempt
  attempt-Keeps context d h =
      let (r, t) = first_page host context (host.pages context d.world) d in
      with_page-Keeps context r t (first_page-Keeps context (host.pages context d.world) d h)

  within_gateway-Keeps :
      Keeps writer (within_gateway host floats path_text settings (some writer) operation)
  unfolding within_gateway launched
  within_gateway-Keeps d h =
      let (r, t) = launched host floats path_text settings (some writer) operation d in
      left_by-Keeps writer r (call exiting host.exit t) (
        call-Keeps writer exiting host.exit t (
          call_then-Keeps writer launching
            (host.launch_persistent_context (path_text settings.user_data_dir)
              (path_text settings.edge_executable_path) false)
            _ attempt-Keeps d h))

  -- A run of the browser, whatever its calls do or raise, keeps a directory of redacted artifacts one:
  -- the artifact that it writes for a failed operation is redacted too.
  pub run_keeps_directory_redacted :
      (d : Desk W)
      → AllRedacted writer.parse d.files
      → AllRedacted writer.parse
          (run host floats path_text settings (some writer) operation d).1.files
  unfolding run
  run_keeps_directory_redacted d h =
      call_then-Keeps writer entering host.enter _ (λ u. within_gateway-Keeps) d h
