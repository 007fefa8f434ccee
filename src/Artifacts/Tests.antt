-- ===== src/Artifacts/Tests.antt =====
-- The theorems on failure artifacts at concrete inputs.
use football_prediction_craw.Prelude.{ℕ, ◌≡◌, refl, true, false, some, List, [], ◌∷◌, ◌++◌, All}
use football_prediction_craw.Prelude.Text.{codes, lower, lower_char, is_upper}
use football_prediction_craw.Artifacts.Words.{
  Text, Event, start_tag, startend_tag, end_tag, chars, same, one_of, has_ink, void_tags,
}
use football_prediction_craw.Artifacts.Validator.{is_void, is_valid, fresh, handle as check}
use football_prediction_craw.Artifacts.Sanitizer.{
  is_removed, removed_tags, sanitized, feed, handle, open_tag, emit, sanitize,
}
use football_prediction_craw.Artifacts.Writer.{Files, html}
use football_prediction_craw.Artifacts.Erasure.{
  depth, removed_element_is_erased, unclosed_removed_tag_swallows,
}
use football_prediction_craw.Artifacts.Shape.{is_plain}
use football_prediction_craw.Artifacts.Grammar.{
  is_named, named_attributes, is_name, is_letter, is_name_char, all_name_chars, TableText,
}
use football_prediction_craw.Artifacts.Table.{redaction_is_table}
use football_prediction_craw.Artifacts.SelfClosing.{self_closing_void_is_rejected}
use football_prediction_craw.Artifacts.Directory.{AllRedacted}

abbrev row : Text
row = codes "TR"

-- `<table><TR>`
abbrev opening_events : List Event
opening_events =
    start_tag (codes "table") [] ∷ start_tag row ((codes "onclick", some (codes "x")) ∷ []) ∷ []

-- `<form>1<br></form>` without its outer tags
abbrev form_inside : List Event
form_inside =
    start_tag (codes "form") []
    ∷ chars (codes "1")
    ∷ start_tag (codes "br") []
    ∷ end_tag (codes "FORM")
    ∷ []

-- `2</TR></table>`
abbrev closing_events : List Event
closing_events = chars (codes "2") ∷ end_tag row ∷ end_tag (codes "table") ∷ []

-- the whole table, with a form in a form
abbrev table_events : List Event
table_events =
    opening_events
    ++ (start_tag (codes "form") [] ∷ (form_inside ++ (end_tag (codes "form") ∷ closing_events)))

form_removed : is_removed (lower (codes "form")) ≡ true
unfolding is_removed removed_tags one_of same lower lower_char is_upper
form_removed = refl

input_removed : is_removed (lower (codes "input")) ≡ true
unfolding is_removed removed_tags one_of same lower lower_char is_upper
input_removed = refl

opening_outside : (feed opening_events (record { parts = []; skipped = [] })).skipped ≡ []
unfolding feed handle open_tag emit is_removed removed_tags one_of same lower lower_char is_upper
opening_outside = refl

form_left_open : depth (lower (codes "form")) 0 form_inside ≡ some 0
unfolding depth same lower lower_char is_upper
form_left_open = refl

input_left_open : depth (lower (codes "input")) 0 closing_events ≡ some 0
unfolding depth same lower lower_char is_upper
input_left_open = refl

void_break : is_void (lower (codes "BR")) ≡ true
unfolding is_void void_tags one_of same lower lower_char is_upper
void_break = refl

table-is_plain : All (λ e. is_plain e ≡ true) table_events
unfolding is_plain is_void void_tags is_removed removed_tags one_of same lower lower_char is_upper
table-is_plain =
    (refl, (refl, (refl, (refl, (refl, (refl, (refl, (refl, (refl, (refl, (refl, tt)))))))))))

table_accepted : is_valid table_events ≡ true
unfolding is_valid void_tags one_of same lower lower_char is_upper has_ink check fresh is_void
table_accepted = refl

removed_element_is_erased_example :
    sanitized table_events ≡ sanitized (opening_events ++ closing_events)
removed_element_is_erased_example =
    removed_element_is_erased (codes "form") (codes "form") [] opening_events form_inside
      closing_events form_removed refl opening_outside form_left_open

unclosed_removed_tag_swallows_example :
    sanitized (opening_events ++ (start_tag (codes "input") [] ∷ closing_events))
    ≡ sanitized opening_events
unclosed_removed_tag_swallows_example =
    unclosed_removed_tag_swallows (codes "input") [] opening_events closing_events 0 input_removed
      opening_outside input_left_open

self_closing_void_is_rejected_example :
    is_valid (opening_events ++ (startend_tag (codes "BR") [] ∷ closing_events)) ≡ false
self_closing_void_is_rejected_example =
    self_closing_void_is_rejected (codes "BR") [] opening_events closing_events void_break

table-is_named : All (λ e. is_named e ≡ true) table_events
unfolding is_named named_attributes is_name is_letter is_name_char all_name_chars lower lower_char
    is_upper
table-is_named =
    (refl, (refl, (refl, (refl, (refl, (refl, (refl, (refl, (refl, (refl, (refl, tt)))))))))))

redaction_is_table_example : TableText false [] (sanitize table_events)
redaction_is_table_example =
    redaction_is_table table_events table-is_plain table-is_named table_accepted

abbrev parse : Text → List Event
parse text = table_events

abbrev picture : List ℕ
picture = 137 ∷ 80 ∷ 78 ∷ 71 ∷ 13 ∷ 10 ∷ 26 ∷ 10 ∷ 0 ∷ []

abbrev earlier : Files
earlier = ("lottery_1.html", html (sanitize table_events)) ∷ []

earlier_redacted : AllRedacted parse earlier
earlier_redacted = ((codes "<table>", table_accepted, refl), tt)
