-- ===== src/Artifacts/Directory.antt =====
-- What is in the directory of the failure artifacts (browser_artifacts.py).
use football_prediction_craw.Prelude.{
  ◌≡◌, refl, subst, sym, true, Option, none, some, List, [], ◌∷◌, String, All, All-append,
  Bool-cases, inl, inr,
}
use football_prediction_craw.Prelude.Result.{Result, ok, err}
use football_prediction_craw.Prelude.Exec.{after, pure}
use football_prediction_craw.Prelude.Text.{starts_with}
use football_prediction_craw.Patterns.{is_profile_reference}
use football_prediction_craw.Artifacts.Words.{Text, Event}
use football_prediction_craw.Artifacts.Validator.{is_valid}
use football_prediction_craw.Artifacts.Sanitizer.{sanitize}
use football_prediction_craw.Artifacts.Writer.{
  Error, Content, html, png, Files, Screenshot, nothing, redacted_png, png_signature, strip,
  file_name, store, write_redacted_png, validate_source_id, checked_fragment, validate_safe_html,
  write_files, write_failure,
}

-- An HTML file is the redaction of a single table, and a picture begins as a PNG does.
abbrev pub Redacted : (Text → List Event) → Content → Type 0
Redacted parse (html text) =
    (fragment : Text) × (is_valid (parse fragment) ≡ true) × (text ≡ sanitize (parse fragment))
Redacted parse (png bytes) = starts_with png_signature bytes ≡ true

-- every file of the directory is redacted
abbrev pub AllRedacted : (Text → List Event) → Files → Type 0
AllRedacted parse files = All (λ file. Redacted parse file.1) files

-- a checked fragment is a single table, and the check writes nothing
Checked : (Text → List Event) → Files → Result Error Text × Files → Type 0
Checked parse files (ok fragment, left) = (is_valid (parse fragment) ≡ true) × (left ≡ files)
Checked parse files (err e, left) = left ≡ files

-- a last step that only returns leaves the state as it is
last_pure :
    {E S A B : Type 0} (f : A → B) (r : Result E A) (t : S) → (after (λ x. pure (f x)) r t).1 ≡ t
last_pure f (ok a) t = refl
last_pure f (err e) t = refl

module _ (parse : Text → List Event) where
  png-Redacted :
      (source_id artifact_id : String) (screenshot : Screenshot) (files : Files)
      → AllRedacted parse files
      → AllRedacted parse (write_redacted_png source_id artifact_id screenshot files).1
  unfolding write_redacted_png store
  png-Redacted source_id artifact_id nothing files h = h
  png-Redacted source_id artifact_id (redacted_png bytes) files h =
      elim (Bool-cases (starts_with png_signature bytes)) [
        | inl e ↦ rw e (
            All-append _ files ((file_name source_id artifact_id ".png", png bytes) ∷ []) h (e, tt))
        | inr e ↦ rw e h
      ]

  checked_fragment-Checked :
      (text : Text) (files : Files) → Checked parse files (checked_fragment parse text files)
  unfolding checked_fragment Checked
  checked_fragment-Checked [] files = refl
  checked_fragment-Checked (c ∷ rest) files = elim (Bool-cases (is_valid (parse (c ∷ rest)))) [
    | inl e ↦ rw e (e, refl)
    | inr e ↦ rw e refl
  ]

  validate_safe_html-Checked :
      (safe_html : Option Text) (files : Files)
      → Checked parse files (validate_safe_html parse safe_html files)
  unfolding validate_safe_html Checked
  validate_safe_html-Checked none files = refl
  validate_safe_html-Checked (some safe_html) files =
      checked_fragment-Checked (strip safe_html) files

  write_files-Redacted :
      (artifact_id source_id : String) (fragment : Text) (screenshot : Screenshot) (files : Files)
      → is_valid (parse fragment) ≡ true
      → AllRedacted parse files
      → AllRedacted parse (write_files parse artifact_id source_id fragment screenshot files).1
  unfolding write_files store
  write_files-Redacted artifact_id source_id fragment screenshot files valid h =
      subst (AllRedacted parse)
        (sym (last_pure _ (write_redacted_png source_id artifact_id screenshot _).0 _))
        (png-Redacted source_id artifact_id screenshot _ (
          All-append _ files
            ((file_name source_id artifact_id ".html", html (sanitize (parse fragment))) ∷ []) h
            ((fragment, valid, refl), tt)))

  after_check :
      (artifact_id source_id : String) (screenshot : Screenshot) (files : Files)
      (r : Result Error Text) (left : Files)
      → Checked parse files (r, left)
      → AllRedacted parse files
      → AllRedacted parse
          (after (λ fragment. write_files parse artifact_id source_id fragment screenshot) r left).1
  unfolding Checked
  after_check artifact_id source_id screenshot files (ok fragment) left h all_files =
      write_files-Redacted artifact_id source_id fragment screenshot left h.0
        (subst (AllRedacted parse) (sym h.1) all_files)
  after_check artifact_id source_id screenshot files (err e) left h all_files =
      subst (AllRedacted parse) (sym h) all_files

  -- Whatever the arguments, and whether `write_failure` returns or raises: a directory whose every
  -- file is the redaction of a single table, or begins as a PNG does, stays one.
  pub directory_stays_redacted :
      (artifact_id source_id : String) (safe_html : Option Text) (screenshot : Screenshot)
      (files : Files)
      → AllRedacted parse files
      → AllRedacted parse (write_failure parse artifact_id source_id safe_html screenshot files).1
  unfolding write_failure validate_source_id
  directory_stays_redacted artifact_id source_id safe_html screenshot files h =
      elim (Bool-cases (is_profile_reference source_id)) [
        | inl e ↦ rw e (
            after_check artifact_id source_id screenshot files
              (validate_safe_html parse safe_html files).0
              (validate_safe_html parse safe_html files).1
              (validate_safe_html-Checked safe_html files) h)
        | inr e ↦ rw e h
      ]
