-- ===== src/BrowserRuntime/Failures.antt =====
-- What a failed run raises and leaves in the directory of artifacts (browser_runtime.py).
use football_prediction_craw.Prelude.{Option, String}
use football_prediction_craw.Prelude.Result.{Result}
use football_prediction_craw.Prelude.Exec.{Exec, after}
use football_prediction_craw.BrowserRuntime.Settings.{BrowserRuntimeSettings, Floats}
use football_prediction_craw.BrowserRuntime.Host.{Fault, Host, Desk}
use football_prediction_craw.BrowserRuntime.Run.{ArtifactWriter, first_page, operate}

module _ {W Context Page Location Num T : Type 0} (host : Host W Context Page) (floats : Floats Num)
    (path_text : Location → String) (settings : BrowserRuntimeSettings Location Num)
    (writer : Option ArtifactWriter) (operation : Page → Exec Fault W T) where
  -- the `try` block alone: nothing is closed
  unfoldable pub try_block : Context → Exec Fault (Desk W) T
  try_block context d =
      let (r, t) = first_page host context (host.pages context d.world) d in
      after (operate host floats path_text settings writer operation context) r t
