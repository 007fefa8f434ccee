-- ===== src/BrowserRuntime/Host.antt =====
-- What browser_runtime.py asks of Playwright, and the calls that it makes. A call changes the browser's
-- world and may raise; the calls are noted with their success, the latest first.
use football_prediction_craw.Prelude.{ℕ, Bool, true, false, List, ◌∷◌, String}
use football_prediction_craw.Prelude.Result.{Result, ok, err}
use football_prediction_craw.Prelude.Exec.{Exec}
use football_prediction_craw.Artifacts.Words.{Text}
use football_prediction_craw.Artifacts.Writer.{Screenshot, Files}

-- `BrowserOperationError`
pub record OperationFailure : Type 0 where
  pub source_id : String
  pub safe_html : Text
  pub redacted_png : Screenshot

-- what is raised: an adapter's error with a fragment, a `ValueError` of the artifact writer, or the
-- exceptions of Playwright and of the operation, told apart by a number
pub data Fault : Type 0 where
  browser_operation_error : OperationFailure → Fault
  value_error : Fault
  other : ℕ → Fault

pub data Verdict : Type 0 where
  abort continue_ : Verdict

-- the protocols of the gateway, the launcher, the context and the page
pub record Host (W Context Page : Type 0) : Type 1 where
  -- the factory's call and `__enter__`
  pub enter : Exec Fault W (Unit {0})
  pub exit : Exec Fault W (Unit {0})
  pub launch_persistent_context : String → String → Bool → Exec Fault W Context
  pub pages : Context → W → List Page
  pub new_page : Context → Exec Fault W Page
  pub route : Context → String → (String → Verdict) → Exec Fault W (Unit {0})
  pub set_default_timeout : Page → ℕ → Exec Fault W (Unit {0})
  pub set_default_navigation_timeout : Page → ℕ → Exec Fault W (Unit {0})
  pub close_page : Page → Exec Fault W (Unit {0})
  pub close_context : Context → Exec Fault W (Unit {0})

-- a kind of call
pub data Call : Type 0 where
  entering exiting launching opening_page routing timing operating closing_page closing_context :
      Call

-- the browser's world, the calls so far, and the directory of failure artifacts
pub record Desk (W : Type 0) : Type 0 where
  pub world : W
  pub calls : List (Call × Bool)
  pub files : Files

abbrev pub succeeded : {E A : Type 0} → Result E A → Bool
succeeded (ok a) = true
succeeded (err e) = false

module _ {W : Type 0} where
  abbrev pub noted : {A : Type 0} → Call → Result Fault A → W → Desk W → Result Fault A × Desk W
  noted c r w d = (r, record d { world = w; calls = (c, succeeded r) ∷ d.calls })

  -- a call of the browser, noted
  unfoldable pub call : {A : Type 0} → Call → Exec Fault W A → Exec Fault (Desk W) A
  call c m d = let (r, w) = m d.world in noted c r w d
