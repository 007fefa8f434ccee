-- ===== src/BrowserRuntime/Run.antt =====
-- `ManagedEdgeRuntime` of browser_runtime.py.
use football_prediction_craw.Prelude.{
  Bool, false, not, ◌||◌, Option, none, some, List, [], ◌∷◌, String, if◌then◌else◌, str_eq,
}
use football_prediction_craw.Prelude.Result.{Result, ok, err}
use football_prediction_craw.Prelude.Exec.{Exec, pure, raise, ◌>>=◌, ◌>>◌}
use football_prediction_craw.Artifacts.Words.{Text, Event}
use football_prediction_craw.Artifacts.Writer.{Files, Error, write_failure}
use football_prediction_craw.BrowserRuntime.Settings.{BrowserRuntimeSettings, Floats}
use football_prediction_craw.BrowserRuntime.Host.{
  OperationFailure, Fault, browser_operation_error, value_error, other, Verdict, abort, continue_,
  Host, entering, exiting, launching, opening_page, routing, timing, operating, closing_page,
  closing_context, Desk, call, succeeded,
}

-- `_block_unneeded_resources`, on the request's `resource_type`
unfoldable pub block_unneeded_resources : String → Verdict
block_unneeded_resources resource_type =
    if str_eq resource_type "font" || str_eq resource_type "image" || str_eq resource_type "media"
    then abort
    else continue_

-- an artifact writer: the parser of its fragments, and the value of `uuid4()` at its next artifact
pub record ArtifactWriter : Type 0 where
  pub parse : Text → List Event
  pub artifact_id : String

module _ {W : Type 0} where
  abbrev pub with_files :
      {A : Type 0} → Result Error A × Files → Desk W → Result Fault (Unit {0}) × Desk W
  with_files (ok a, files) d = (ok tt, record d { files = files })
  with_files (err e, files) d = (err value_error, record d { files = files })

  -- `_persist_failure_artifact`
  unfoldable pub persist_failure_artifact :
      Option ArtifactWriter → OperationFailure → Exec Fault (Desk W) (Unit {0})
  persist_failure_artifact none error d = (ok tt, d)
  persist_failure_artifact (some writer) error d =
      with_files
        (write_failure writer.parse writer.artifact_id error.source_id (some error.safe_html)
          error.redacted_png d.files)
        d

  -- the `except` clause, of what the `try` block came to
  unfoldable pub handle_failure :
      {T : Type 0} → Option ArtifactWriter → Result Fault T → Exec Fault (Desk W) T
  unfolding persist_failure_artifact
  handle_failure writer (ok a) = pure a
  handle_failure writer (err (browser_operation_error error)) =
      persist_failure_artifact writer error >> raise (browser_operation_error error)
  handle_failure writer (err value_error) = raise value_error
  handle_failure writer (err (other n)) = raise (other n)

  -- the gateway's `__exit__` comes last, and what it raises takes the place of the result
  abbrev pub left_by :
      {T : Type 0} → Result Fault T → Result Fault (Unit {0}) × Desk W → Result Fault T × Desk W
  left_by r (ok u, d) = (r, d)
  left_by r (err e, d) = (err e, d)

module _ {W Context Page : Type 0} (host : Host W Context Page) where
  -- the page's part of `_close_page_and_context`: the error to raise later
  unfoldable pub kept_error : Bool → Result Fault (Unit {0}) → Option Fault
  kept_error suppress (ok u) = none
  kept_error suppress (err e) = if suppress then none else some e

  unfoldable pub close_page : Option Page → Bool → Desk W → Option Fault × Desk W
  unfolding kept_error
  close_page none suppress d = (none, d)
  close_page (some page) suppress d =
      let (r, t) = call closing_page (host.close_page page) d in (kept_error suppress r, t)

  -- the last test of `_close_page_and_context`
  unfoldable pub raise_page_error : Option Fault → Exec Fault (Desk W) (Unit {0})
  raise_page_error none = pure tt
  raise_page_error (some e) = raise e

  -- what `_close_page_and_context` does once the context was asked to close
  unfoldable pub conclude :
      Bool → Option Fault → Result Fault (Unit {0}) → Exec Fault (Desk W) (Unit {0})
  unfolding raise_page_error
  conclude suppress page_error (ok u) = raise_page_error page_error
  conclude suppress page_error (err e) = if suppress then pure tt else raise e

  unfoldable pub close_context : Context → Bool → Option Fault → Exec Fault (Desk W) (Unit {0})
  unfolding conclude
  close_context context suppress page_error d =
      let (r, t) = call closing_context (host.close_context context) d in
      conclude suppress page_error r t

  -- `_close_page_and_context`
  unfoldable pub close_page_and_context :
      Option Page → Context → Bool → Exec Fault (Desk W) (Unit {0})
  unfolding close_page close_context
  close_page_and_context page context suppress d =
      let (page_error, t) = close_page page suppress d in
      close_context context suppress page_error t

  -- the `except` and the `finally` clause, after a `try` block with the given result
  unfoldable pub clean_up :
      {T : Type 0}
      → Option ArtifactWriter
      → Option Page
      → Context
      → Result Fault T
      → Exec Fault (Desk W) T
  unfolding handle_failure close_page_and_context
  clean_up writer page context r d =
      let (answer, t) = handle_failure writer r d in
      let (closed, u) = close_page_and_context page context (not (succeeded r)) t in
      left_by answer (closed, u)

  -- `context.pages[0] if context.pages else context.new_page()`
  unfoldable pub first_page : Context → List Page → Exec Fault (Desk W) Page
  first_page context [] = call opening_page (host.new_page context)
  first_page context (page ∷ pages) = pure page

-- The settings are those of the class; `path_text` is `str` of a path.
module _ {W Context Page Location Num T : Type 0} (host : Host W Context Page) (floats : Floats Num)
    (path_text : Location → String) (settings : BrowserRuntimeSettings Location Num)
    (writer : Option ArtifactWriter) (operation : Page → Exec Fault W T) where
  -- the `try` block, from the page on
  unfoldable pub operate : Context → Page → Exec Fault (Desk W) T
  operate context page =
      call routing (host.route context "**/*" block_unneeded_resources)
      >> (call timing
            (host.set_default_timeout page (floats.milliseconds settings.action_timeout_seconds))
          >> (call timing (
                host.set_default_navigation_timeout page
                  (floats.milliseconds settings.page_timeout_seconds))
              >> call operating (operation page)))

  -- the `try` statement, from what getting the page came to
  unfoldable pub with_page : Context → Result Fault Page → Exec Fault (Desk W) T
  unfolding operate clean_up
  with_page context (ok page) d =
      let (r, t) = operate context page d in clean_up host writer (some page) context r t
  with_page context (err e) d = clean_up host writer none context (err e) d

  -- the `try` statement
  unfoldable pub attempt : Context → Exec Fault (Desk W) T
  unfolding first_page with_page
  attempt context d =
      let (r, t) = first_page host context (host.pages context d.world) d in with_page context r t

  -- the body of the `with` statement
  unfoldable pub launched : Exec Fault (Desk W) T
  unfolding attempt
  launched =
      call launching (
        host.launch_persistent_context (path_text settings.user_data_dir)
          (path_text settings.edge_executable_path) false)
      >>= attempt

  -- the `with` statement, once the gateway was entered
  unfoldable pub within_gateway : Exec Fault (Desk W) T
  unfolding launched
  within_gateway d = let (r, t) = launched d in left_by r (call exiting host.exit t)

  -- `run`
  unfoldable pub run : Exec Fault (Desk W) T
  unfolding within_gateway
  run = call entering host.enter >> within_gateway
