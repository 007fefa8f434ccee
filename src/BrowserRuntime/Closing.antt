-- ===== src/BrowserRuntime/Closing.antt =====
-- The order of the calls of a run, and what is left open after it (browser_runtime.py).
use football_prediction_craw.Prelude.{
  ◌≡◌, refl, ap, ◌∙◌, Bool, true, false, not, Option, none, some, List, [], ◌∷◌, String,
  if◌then◌else◌,
}
use football_prediction_craw.Prelude.Result.{Result, ok, err}
use football_prediction_craw.Prelude.Exec.{Exec, raise, after, ◌>>=◌, ◌>>◌}
use football_prediction_craw.Artifacts.Writer.{Files, Error}
use football_prediction_craw.BrowserRuntime.Settings.{BrowserRuntimeSettings, Floats}
use football_prediction_craw.BrowserRuntime.Host.{
  OperationFailure, Fault, browser_operation_error, value_error, other, Host, Call, entering,
  exiting, launching, opening_page, routing, timing, operating, closing_page, closing_context, Desk,
  call, succeeded, noted,
}
use football_prediction_craw.BrowserRuntime.Run.{
  ArtifactWriter, persist_failure_artifact, handle_failure, left_by, with_files, close_page,
  raise_page_error, conclude, close_context, close_page_and_context, clean_up, first_page, operate,
  with_page, attempt, launched, within_gateway, run, block_unneeded_resources,
}

-- What is open: nothing; the gateway; the context too; a page too, that is not closed; the gateway and
-- the context, when the page was asked to close.
pub data Phase : Type 0 where
  nothing_open gateway_open context_open page_open page_closed : Phase

-- the phase after a call, where the phase before allows it
unfoldable pub next_phase : Call → Bool → Phase → Option Phase
next_phase entering made nothing_open = some (if made then gateway_open else nothing_open)
next_phase exiting made gateway_open = some nothing_open
next_phase launching made gateway_open = some (if made then context_open else gateway_open)
next_phase opening_page made context_open = some (if made then page_open else context_open)
next_phase routing made context_open = some page_open
next_phase routing made page_open = some page_open
next_phase timing made page_open = some page_open
next_phase operating made page_open = some page_open
next_phase closing_page made page_open = some page_closed
next_phase closing_context made context_open = some gateway_open
next_phase closing_context made page_closed = some gateway_open
next_phase c made phase = none

unfoldable pub allowed : Call × Bool → Option Phase → Option Phase
unfolding next_phase
allowed call none = none
allowed (c, made) (some phase) = next_phase c made phase

-- the phase after all calls, the latest first, if each was allowed
unfoldable pub phase_of : List (Call × Bool) → Option Phase
unfolding allowed
phase_of [] = some nothing_open
phase_of (call ∷ calls) = allowed call (phase_of calls)

module _ {W : Type 0} where
  abbrev pub At : Phase → Desk W → Type 0
  At phase d = phase_of d.calls ≡ some phase

  call-At :
      {A : Type 0} (c : Call) (m : Exec Fault W A) (p q : Phase) (d : Desk W)
      → ((made : Bool) → next_phase c made p ≡ some q)
      → At p d
      → At q (call c m d).1
  unfolding call phase_of
  call-At c m p q d step h =
      ap (allowed (c, succeeded (m d.world).0)) h ∙ step (succeeded (m d.world).0)

  -- a computation that starts and ends in given phases
  abbrev Moves : {A : Type 0} → Phase → Phase → Exec Fault (Desk W) A → Type 0
  Moves p q m = (d : Desk W) → At p d → At q (m d).1

  after-At :
      {A B : Type 0} (q : Phase) (f : A → Exec Fault (Desk W) B) (r : Result Fault A)
      → ((a : A) → Moves q q (f a))
      → Moves q q (after f r)
  after-At q f (ok a) second t h = second a t h
  after-At q f (err e) second t h = h

  bind-Moves :
      {A B : Type 0} (p q : Phase) (m : Exec Fault (Desk W) A) (f : A → Exec Fault (Desk W) B)
      → Moves p q m
      → ((a : A) → Moves q q (f a))
      → Moves p q (m >>= f)
  bind-Moves p q m f first second d h = after-At q f (m d).0 second (m d).1 (first d h)

  call_then :
      {A B : Type 0} (c : Call) (p : Phase) (m : Exec Fault W A) (k : Exec Fault (Desk W) B)
      → ((made : Bool) → next_phase c made p ≡ some page_open)
      → Moves page_open page_open k
      → Moves p page_open (call c m >> k)
  call_then c p m k step rest =
      bind-Moves p page_open (call c m) (λ a. k) (λ d. call-At c m p page_open d step) (λ a. rest)

  with_files-calls :
      {A : Type 0} (x : Result Error A × Files) (d : Desk W) → (with_files x d).1.calls ≡ d.calls
  with_files-calls (ok a, files) d = refl
  with_files-calls (err e, files) d = refl

  files-At :
      (writer : Option ArtifactWriter) (error : OperationFailure) (p : Phase)
      → Moves p p (persist_failure_artifact writer error)
  unfolding persist_failure_artifact
  files-At none error p d h = h
  files-At (some writer) error p d h = ap phase_of (with_files-calls _ d) ∙ h

  handle_failure-Moves :
      {T : Type 0} (writer : Option ArtifactWriter) (r : Result Fault T) (p : Phase)
      → Moves p p (handle_failure writer r)
  unfolding handle_failure
  handle_failure-Moves writer (ok a) p d h = h
  handle_failure-Moves writer (err (browser_operation_error error)) p d h =
      bind-Moves p p (persist_failure_artifact writer error)
        (λ u. raise (browser_operation_error error)) (files-At writer error p) (λ u t k. k) d h
  handle_failure-Moves writer (err value_error) p d h = h
  handle_failure-Moves writer (err (other n)) p d h = h

  left_by-At :
      {T : Type 0} (q : Phase) (r : Result Fault T) (x : Result Fault (Unit {0}) × Desk W)
      → At q x.1
      → At q (left_by r x).1
  left_by-At q r (ok u, d) h = h
  left_by-At q r (err e, d) h = h

module _ {W Context Page : Type 0} (host : Host W Context Page) where
  raise_page_error-Moves : (e : Option Fault) (p : Phase) → Moves p p (raise_page_error host e)
  unfolding raise_page_error
  raise_page_error-Moves none p d h = h
  raise_page_error-Moves (some e) p d h = h

  conclude-Moves :
      (suppress : Bool) (page_error : Option Fault) (r : Result Fault (Unit {0})) (p : Phase)
      → Moves p p (conclude host suppress page_error r)
  unfolding conclude
  conclude-Moves suppress page_error (ok u) p d h = raise_page_error-Moves page_error p d h
  conclude-Moves true page_error (err e) p d h = h
  conclude-Moves false page_error (err e) p d h = h

  close_context-Moves :
      (context : Context) (suppress : Bool) (page_error : Option Fault) (p : Phase)
      → ((made : Bool) → next_phase closing_context made p ≡ some gateway_open)
      → Moves p gateway_open (close_context host context suppress page_error)
  unfolding close_context
  close_context-Moves context suppress page_error p step d h =
      conclude-Moves suppress page_error _ gateway_open _
        (call-At closing_context (host.close_context context) p gateway_open d step h)

  -- the phase that closing starts in
  closing_from : Option Page → Phase
  closing_from none = context_open
  closing_from (some page) = page_open

  close_page_and_context-Moves :
      (page : Option Page) (context : Context) (suppress : Bool)
      → Moves (closing_from page) gateway_open (close_page_and_context host page context suppress)
  unfolding close_page_and_context close_page closing_from next_phase
  close_page_and_context-Moves none context suppress d h =
      close_context-Moves context suppress none context_open (λ made. refl) d h
  close_page_and_context-Moves (some page) context suppress d h =
      close_context-Moves context suppress _ page_closed (λ made. refl) _
        (call-At closing_page (host.close_page page) page_open page_closed d (λ made. refl) h)

  clean_up-Moves :
      {T : Type 0} (writer : Option ArtifactWriter) (page : Option Page) (context : Context)
      (r : Result Fault T)
      → Moves (closing_from page) gateway_open (clean_up host writer page context r)
  unfolding clean_up
  clean_up-Moves writer page context r d h = left_by-At gateway_open _ _ (
      close_page_and_context-Moves page context (not (succeeded r)) _
        (handle_failure-Moves writer r (closing_from page) d h))

module _ {W Context Page Location Num T : Type 0} (host : Host W Context Page) (floats : Floats Num)
    (path_text : Location → String) (settings : BrowserRuntimeSettings Location Num)
    (writer : Option ArtifactWriter) (operation : Page → Exec Fault W T) where
  operate-Moves :
      (context : Context) (page : Page) (p : Phase)
      → ((made : Bool) → next_phase routing made p ≡ some page_open)
      → Moves p page_open (operate host floats path_text settings writer operation context page)
  unfolding operate next_phase
  operate-Moves context page p step =
      call_then routing p (host.route context "**/*" block_unneeded_resources) _ step (
        call_then timing page_open
          (host.set_default_timeout page (floats.milliseconds settings.action_timeout_seconds)) _
          (λ made. refl)
          (call_then timing page_open
            (host.set_default_navigation_timeout page
              (floats.milliseconds settings.page_timeout_seconds))
            _ (λ made. refl)
            (λ d. call-At operating (operation page) page_open page_open d (λ made. refl))))

  -- the part of the `try` statement that has a page
  with_page-Moves :
      (context : Context) (page : Page) (p : Phase)
      → ((made : Bool) → next_phase routing made p ≡ some page_open)
      → Moves p gateway_open
          (with_page host floats path_text settings writer operation context (ok page))
  unfolding with_page closing_from
  with_page-Moves context page p step d h =
      let (r, t) = operate host floats path_text settings writer operation context page d in
      clean_up-Moves host writer (some page) context r t (operate-Moves context page p step d h)

  page_less-Moves :
      (context : Context) (e : Fault)
      → Moves context_open gateway_open
          (with_page host floats path_text settings writer operation context (err e))
  unfolding with_page closing_from
  page_less-Moves context e = clean_up-Moves host writer none context (err e)

  opened_page-At :
      (context : Context) (r : Result Fault Page) (w : W) (d : Desk W)
      → At context_open d
      → At gateway_open
          (with_page host floats path_text settings writer operation context r
            (noted opening_page r w d).1).1
  unfolding next_phase phase_of
  opened_page-At context (ok page) w d h =
      with_page-Moves context page page_open (λ made. refl) _ (ap (allowed (opening_page, true)) h)
  opened_page-At context (err e) w d h =
      page_less-Moves context e _ (ap (allowed (opening_page, false)) h)

  attempt-At :
      (context : Context) (pages : List Page) (d : Desk W)
      → At context_open d
      → At gateway_open
          (let (r, t) = first_page host context pages d in
            with_page host floats path_text settings writer operation context r t).1
  unfolding first_page call next_phase
  attempt-At context [] d h =
      opened_page-At context (host.new_page context d.world).0 (host.new_page context d.world).1 d h
  attempt-At context (page ∷ pages) d h =
      with_page-Moves context page context_open (λ made. refl) d h

  launched-At :
      (r : Result Fault Context) (w : W) (d : Desk W)
      → At gateway_open d
      → At gateway_open
          (after
            (attempt host floats path_text settings writer operation)
            r
            (noted launching r w d).1).1
  unfolding attempt next_phase phase_of
  launched-At (ok context) w d h =
      attempt-At context (host.pages context w) _ (ap (allowed (launching, true)) h)
  launched-At (err e) w d h = ap (allowed (launching, false)) h

  launched-Moves :
      Moves gateway_open gateway_open (launched host floats path_text settings writer operation)
  unfolding launched call
  launched-Moves d h =
      let (r, w) =
        host.launch_persistent_context (path_text settings.user_data_dir)
          (path_text settings.edge_executable_path) false d.world in
      launched-At r w d h

  within_gateway-Moves :
      Moves gateway_open nothing_open
        (within_gateway host floats path_text settings writer operation)
  unfolding within_gateway next_phase
  within_gateway-Moves d h =
      let (r, t) = launched host floats path_text settings writer operation d in
      left_by-At nothing_open r (call exiting host.exit t)
        (call-At exiting host.exit gateway_open nothing_open t (λ made. refl) (launched-Moves d h))

  entered-At :
      (r : Result Fault (Unit {0})) (w : W) (d : Desk W)
      → At nothing_open d
      → At nothing_open
          (after
            (λ u. within_gateway host floats path_text settings writer operation)
            r
            (noted entering r w d).1).1
  unfolding next_phase phase_of
  entered-At (ok u) w d h = within_gateway-Moves _ (ap (allowed (entering, true)) h)
  entered-At (err e) w d h = ap (allowed (entering, false)) h

  -- From a desk with nothing open, every run keeps to the protocol and leaves nothing open, whichever of
  -- its calls raise: a context that was launched is closed once, after the page, if it has one, was
  -- asked to close once; the gateway is left last; and nothing is used before it is open or after it
  -- was closed.
  pub run_closes_everything :
      (d : Desk W)
      → phase_of d.calls ≡ some nothing_open
      → phase_of (run host floats path_text settings writer operation d).1.calls ≡ some nothing_open
  unfolding run call
  run_closes_everything d h = entered-At (host.enter d.world).0 (host.enter d.world).1 d h
