-- ===== src/Artifacts/Sanitizer.antt =====
-- `_SafeFragmentSanitizer` of browser_artifacts.py. A part of its output is kept as what it is
-- written from; `written` is the text that the code appends.
use football_prediction_craw.Prelude.{
  ℕ, Bool, ◌||◌, Option, none, some, List, [], ◌∷◌, ◌++◌, if◌then◌else◌, ◌==◌,
}
use football_prediction_craw.Prelude.Text.{codes, lower, starts_with}
use football_prediction_craw.Artifacts.Words.{
  Text, Attributes, Event, start_tag, startend_tag, end_tag, chars, comment, declaration,
  unknown_declaration, instruction, entity_ref, char_ref, same, one_of,
}
use football_prediction_craw.Artifacts.Validator.{is_void}

pub data Part : Type 0 where
  opening : Text → Attributes → Part
  closing : Text → Part
  content : Text → Part
  entity character : Text → Part

pub record Sanitizer : Type 0 where
  pub parts : List Part
  pub skipped : List Text

unfoldable pub removed_tags : List Text
removed_tags =
    codes "button"
    ∷ codes "form"
    ∷ codes "input"
    ∷ codes "option"
    ∷ codes "script"
    ∷ codes "select"
    ∷ codes "style"
    ∷ codes "textarea"
    ∷ []

unfoldable pub removed_attributes : List Text
removed_attributes = codes "authorization" ∷ codes "cookie" ∷ codes "password" ∷ codes "token" ∷ []

unfoldable pub is_removed : Text → Bool
is_removed = one_of removed_tags

-- whether `_serialize_attrs` skips the name
unfoldable pub drops : Text → Bool
drops name = starts_with (codes "on") name || one_of removed_attributes name

-- the attributes that `_serialize_attrs` writes
unfoldable pub kept : Attributes → Attributes
unfolding drops
kept [] = []
kept ((name, value) ∷ attrs) =
    if drops (lower name) then kept attrs else (lower name, value) ∷ kept attrs

-- `html.escape` of one character
unfoldable pub escape_char : ℕ → Text
escape_char c =
    if c == b'&'
    then codes "&amp;"
    else if c == b'<'
    then codes "&lt;"
    else if c == b'>'
    then codes "&gt;"
    else if c == b'"'
    then codes "&quot;"
    else if c == 39
    then codes "&#x27;"
    else c ∷ []

-- `html.escape(text)`
unfoldable pub escape : Text → Text
unfolding escape_char
escape [] = []
escape (c ∷ text) = escape_char c ++ escape text

unfoldable pub written_value : Option Text → Text
unfolding escape
written_value none = []
written_value (some value) = codes "=\"" ++ escape value ++ codes "\""

unfoldable pub written_attributes : Attributes → Text
unfolding written_value
written_attributes [] = []
written_attributes ((name, value) ∷ attrs) =
    codes " " ++ name ++ written_value value ++ written_attributes attrs

unfoldable pub written : Part → Text
unfolding written_attributes escape
written (opening tag attrs) = codes "<" ++ tag ++ written_attributes attrs ++ codes ">"
written (closing tag) = codes "</" ++ tag ++ codes ">"
written (content text) = escape text
written (entity name) = codes "&" ++ name ++ codes ";"
written (character name) = codes "&#" ++ name ++ codes ";"

unfoldable pub emit : Part → Sanitizer → Sanitizer
emit part s = record s { parts = s.parts ++ (part ∷ []) }

-- `handle_starttag`, on the stack of skipped tags
unfoldable pub open_tag : Text → Attributes → List Text → Sanitizer → Sanitizer
unfolding emit
open_tag tag attrs [] s =
    if is_removed tag then record s { skipped = tag ∷ [] } else emit (opening tag (kept attrs)) s
open_tag tag attrs (top ∷ below) s =
    if same tag top then record s { skipped = tag ∷ top ∷ below } else s

-- `handle_endtag`
unfoldable pub close_tag : Text → List Text → Sanitizer → Sanitizer
unfolding emit
close_tag tag [] s = if is_void tag then s else emit (closing tag) s
close_tag tag (top ∷ below) s = if same tag top then record s { skipped = below } else s

-- `handle_startendtag`
unfoldable pub open_close_tag : Text → Attributes → List Text → Sanitizer → Sanitizer
unfolding emit
open_close_tag tag attrs [] s = if is_removed tag then s else emit (opening tag (kept attrs)) s
open_close_tag tag attrs (top ∷ below) s = s

unfoldable pub emit_outside : Part → List Text → Sanitizer → Sanitizer
unfolding emit
emit_outside part [] s = emit part s
emit_outside part (top ∷ below) s = s

-- one call of a handler; comments, declarations and instructions have none
unfoldable pub handle : Event → Sanitizer → Sanitizer
unfolding open_tag close_tag open_close_tag emit_outside
handle (start_tag tag attrs) s = open_tag (lower tag) attrs s.skipped s
handle (startend_tag tag attrs) s = open_close_tag (lower tag) attrs s.skipped s
handle (end_tag tag) s = close_tag (lower tag) s.skipped s
handle (chars text) s = emit_outside (content text) s.skipped s
handle (comment text) s = s
handle (declaration text) s = s
handle (unknown_declaration text) s = s
handle (instruction text) s = s
handle (entity_ref name) s = emit_outside (entity name) s.skipped s
handle (char_ref name) s = emit_outside (character name) s.skipped s

unfoldable pub feed : List Event → Sanitizer → Sanitizer
feed [] s = s
feed (e ∷ es) s = feed es (handle e s)

unfoldable pub sanitized : List Event → List Part
unfolding feed
sanitized events = (feed events (record { parts = []; skipped = [] })).parts

unfoldable pub joined : List Part → Text
unfolding written
joined [] = []
joined (p ∷ ps) = written p ++ joined ps

-- `sanitize`
unfoldable pub sanitize : List Event → Text
unfolding sanitized joined
sanitize events = joined (sanitized events)
