-- ===== src/Artifacts/Writer.antt =====
-- `BrowserArtifactWriter` of browser_artifacts.py. The directory is the list of the files that were
-- written; `parse` is the parser's list of calls for a text, and `artifact_id` the value of `uuid4()`.
-- Writing a file does not raise.
use football_prediction_craw.Prelude.{
  ℕ, Option, none, some, List, [], ◌∷◌, ◌++◌, String, if◌then◌else◌,
}
use Prim.Native.String
use football_prediction_craw.Prelude.Text.{starts_with}
use football_prediction_craw.Prelude.Exec.{Exec, pure, raise, modify, ◌>>=◌, ◌>>◌}
use football_prediction_craw.Patterns.{is_profile_reference}
use football_prediction_craw.Artifacts.Words.{Text, Event, is_space}
use football_prediction_craw.Artifacts.Validator.{is_valid}
use football_prediction_craw.Artifacts.Sanitizer.{sanitize}

pub data Error : Type 0 where
  value_error : Error

-- the content of a file: an HTML text, or the bytes of a picture
pub data Content : Type 0 where
  html : Text → Content
  png : List ℕ → Content

abbrev pub Files : Type 0
Files = List (String × Content)

-- the argument `screenshot`: `None` or another object, or a `RedactedPng`
pub data Screenshot : Type 0 where
  nothing : Screenshot
  redacted_png : List ℕ → Screenshot

pub record BrowserFailureArtifact : Type 0 where
  pub html_path : String
  pub screenshot_path : Option String

-- `b"\x89PNG\r\n\x1a\n"`
unfoldable pub png_signature : List ℕ
png_signature = 137 ∷ 80 ∷ 78 ∷ 71 ∷ 13 ∷ 10 ∷ 26 ∷ 10 ∷ []

unfoldable pub left_strip : Text → Text
left_strip [] = []
left_strip (c ∷ text) = if is_space c then left_strip text else c ∷ text

-- before white space that was cut off, white space is cut off too
unfoldable put_before : ℕ → Text → Text
put_before c [] = if is_space c then [] else c ∷ []
put_before c (d ∷ rest) = c ∷ d ∷ rest

unfoldable pub right_strip : Text → Text
unfolding put_before
right_strip [] = []
right_strip (c ∷ text) = put_before c (right_strip text)

-- `text.strip()`
unfoldable pub strip : Text → Text
unfolding left_strip right_strip
strip text = right_strip (left_strip text)

-- `f"{source_id}_{artifact_id}{suffix}"` in the output directory
unfoldable pub file_name : String → String → String → String
file_name source_id artifact_id suffix =
    String.◌++◌ source_id (String.◌++◌ "_" (String.◌++◌ artifact_id suffix))

unfoldable pub store : String → Content → Exec Error Files String
store path content = modify (λ files. files ++ ((path, content) ∷ [])) >> pure path

-- `_write_redacted_png`
unfoldable pub write_redacted_png : String → String → Screenshot → Exec Error Files (Option String)
unfolding store
write_redacted_png source_id artifact_id nothing = pure none
write_redacted_png source_id artifact_id (redacted_png content) =
    if starts_with png_signature content
    then (store (file_name source_id artifact_id ".png") (png content) >>= λ path. pure (some path))
    else raise value_error

-- `_validate_source_id`
unfoldable pub validate_source_id : String → Exec Error Files (Unit {0})
validate_source_id source_id = if is_profile_reference source_id then pure tt else raise value_error

module _ (parse : Text → List Event) where
  -- the tests on the stripped fragment
  unfoldable pub checked_fragment : Text → Exec Error Files Text
  checked_fragment [] = raise value_error
  checked_fragment (c ∷ rest) =
      if is_valid (parse (c ∷ rest)) then pure (c ∷ rest) else raise value_error

  -- `_validate_safe_html`
  unfoldable pub validate_safe_html : Option Text → Exec Error Files Text
  unfolding checked_fragment
  validate_safe_html none = raise value_error
  validate_safe_html (some safe_html) = checked_fragment (strip safe_html)

  -- `write_failure` after the fragment was checked
  unfoldable pub write_files :
      String → String → Text → Screenshot → Exec Error Files BrowserFailureArtifact
  unfolding store write_redacted_png
  write_files artifact_id source_id fragment screenshot =
      store (file_name source_id artifact_id ".html") (html (sanitize (parse fragment)))
      >>= λ html_path.
          (write_redacted_png source_id artifact_id screenshot >>= λ screenshot_path.
          pure (record { html_path = html_path; screenshot_path = screenshot_path }))

  -- `write_failure`
  unfoldable pub write_failure :
      String → String → Option Text → Screenshot → Exec Error Files BrowserFailureArtifact
  unfolding validate_safe_html validate_source_id write_files
  write_failure artifact_id source_id safe_html screenshot =
      validate_source_id source_id
      >> (validate_safe_html safe_html >>= λ fragment.
          write_files artifact_id source_id fragment screenshot)
