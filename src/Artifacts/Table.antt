-- ===== src/Artifacts/Table.antt =====
-- A fragment that the validator accepts stays a single table (browser_artifacts.py).
use football_prediction_craw.Prelude.{◌≡◌, refl, ap, ◌∙◌, true, false, List, [], ◌∷◌, map, All}
use football_prediction_craw.Artifacts.Words.{Event}
use football_prediction_craw.Artifacts.Sanitizer.{sanitized, sanitize, feed as clean}
use football_prediction_craw.Artifacts.Validator.{is_valid, accepts, fresh, feed as validate}
use football_prediction_craw.Artifacts.Shape.{call_of, is_plain, going, Plain, Outside, Within}
use football_prediction_craw.Artifacts.Composition.{step-Outside}
use football_prediction_craw.Artifacts.Within.{step-Within, unfinished}
use football_prediction_craw.Artifacts.Grammar.{is_named, TableText}
use football_prediction_craw.Artifacts.Parts.{cleaned-AllKept}
use football_prediction_craw.Artifacts.Printed.{printed-TableText}

nothing-Outside : Outside []
unfolding validate clean
nothing-Outside v parts same_text valid no_void accepted = ap accepts same_text ∙ accepted

nothing-Within : Within []
unfolding validate
nothing-Within v w parts n tag a b c d f below h accepted = unfinished tag n v accepted below

both : (es : List Event) → Plain es → Outside es × Within es
both [] p = (nothing-Outside, nothing-Within)
both (e ∷ es) p = let (o, r) = both es p.1 in (step-Outside e es p.0 o r, step-Within e es p.0 o r)

-- what the sanitizer keeps of an accepted fragment is accepted
parts_accepted :
    (events : List Event)
    → Plain events
    → is_valid events ≡ true
    → is_valid (map call_of (sanitized events)) ≡ true
unfolding is_valid sanitized validate fresh
parts_accepted events plain accepted =
    (both events plain).0 (going false []) [] refl refl tt accepted

-- The redaction of an accepted fragment is the text of a single table: every tag in it is closed in
-- order, no element or attribute in it is one that the redaction removes, and neither a value nor a text
-- has a character that delimits tags or values. The fragment has no self-closing tag and no void tag
-- that the redaction removes, and the names of its tags and attributes are a letter and then letters,
-- digits, `-`, `_` and `:`, with which references are written too.
pub redaction_is_table :
    (events : List Event)
    → All (λ e. is_plain e ≡ true) events
    → All (λ e. is_named e ≡ true) events
    → is_valid events ≡ true
    → TableText false [] (sanitize events)
unfolding sanitize sanitized is_valid fresh
redaction_is_table events plain named accepted =
    printed-TableText (sanitized events)
      (cleaned-AllKept events (record { parts = []; skipped = [] }) plain named tt) false []
      (parts_accepted events plain accepted)
