-- ===== src/Artifacts/Grammar.antt =====
-- The text of a redacted table (browser_artifacts.py), described by itself: its tags are closed in
-- the order in which they are open, around a single table.
use football_prediction_craw.Prelude.{
  ℕ, Bool, true, false, ◌&&◌, ◌||◌, ◌≡◌, List, [], ◌∷◌, ◌++◌, any, leb, ◌==◌,
}
use football_prediction_craw.Prelude.Text.{codes, lower, starts_with}
use football_prediction_craw.Artifacts.Words.{
  Text, Attributes, Event, start_tag, startend_tag, end_tag, entity_ref, char_ref, one_of, has_ink,
}
use football_prediction_craw.Artifacts.Validator.{is_void}

-- a small letter
unfoldable pub is_letter : ℕ → Bool
is_letter c = leb 97 c && leb c 122

unfoldable pub is_name_char : ℕ → Bool
unfolding is_letter
is_name_char c = is_letter c || (leb 48 c && leb c 57) || c == b'-' || c == b'_' || c == b':'

unfoldable pub all_name_chars : Text → Bool
unfolding is_name_char
all_name_chars [] = true
all_name_chars (c ∷ s) = is_name_char c && all_name_chars s

-- a letter, and then letters, digits, `-`, `_` and `:`
unfoldable pub is_name : Text → Bool
unfolding all_name_chars
is_name [] = false
is_name (c ∷ s) = is_letter c && all_name_chars s

-- the characters that delimit tags and values
unfoldable pub is_delimiter : ℕ → Bool
is_delimiter c = c == b'<' || c == b'>' || c == b'"' || c == 39

abbrev pub NoDelimiter : Text → Type 0
NoDelimiter text = any is_delimiter text ≡ false

-- elements that ask for input or act, and attributes that act or identify
unfoldable pub is_refused_tag : Text → Bool
is_refused_tag = one_of (
    codes "button"
    ∷ codes "form"
    ∷ codes "input"
    ∷ codes "option"
    ∷ codes "script"
    ∷ codes "select"
    ∷ codes "style"
    ∷ codes "textarea"
    ∷ [])

unfoldable pub is_refused_attribute : Text → Bool
is_refused_attribute name =
    starts_with (codes "on") name
    || one_of (codes "authorization" ∷ codes "cookie" ∷ codes "password" ∷ codes "token" ∷ []) name

-- ` name` or ` name="value"`, for each attribute
pub data AttributesText : Text → Type 0 where
  no_attributes : AttributesText []
  bare :
      (name rest : Text)
      → is_name name ≡ true
      → is_refused_attribute name ≡ false
      → AttributesText rest
      → AttributesText (codes " " ++ name ++ rest)
  valued :
      (name value rest : Text)
      → is_name name ≡ true
      → is_refused_attribute name ≡ false
      → NoDelimiter value
      → AttributesText rest
      → AttributesText (codes " " ++ name ++ (codes "=\"" ++ value ++ codes "\"") ++ rest)

-- `<tag attributes>` and `</tag>`
abbrev pub opening_text : Text → Text → Text
opening_text tag attributes = codes "<" ++ tag ++ attributes ++ codes ">"

abbrev pub closing_text : Text → Text
closing_text tag = codes "</" ++ tag ++ codes ">"

-- The rest of the text of a redacted table: whether the table has begun, the tags that are open, the
-- innermost first, and the text.
pub data TableText : Bool → List Text → Text → Type 0 where
  finished : TableText true [] []
  table_begins :
      (attributes rest : Text)
      → AttributesText attributes
      → TableText true (codes "table" ∷ []) rest
      → TableText false [] (opening_text (codes "table") attributes ++ rest)
  element_begins :
      (begun : Bool) (tag top : Text) (below : List Text) (attributes rest : Text)
      → is_name tag ≡ true
      → is_refused_tag tag ≡ false
      → is_void tag ≡ false
      → AttributesText attributes
      → TableText begun (tag ∷ top ∷ below) rest
      → TableText begun (top ∷ below) (opening_text tag attributes ++ rest)
  void_element :
      (begun : Bool) (tag top : Text) (below : List Text) (attributes rest : Text)
      → is_name tag ≡ true
      → is_refused_tag tag ≡ false
      → is_void tag ≡ true
      → AttributesText attributes
      → TableText begun (top ∷ below) rest
      → TableText begun (top ∷ below) (opening_text tag attributes ++ rest)
  element_ends :
      (begun : Bool) (tag : Text) (below : List Text) (rest : Text)
      → TableText begun below rest
      → TableText begun (tag ∷ below) (closing_text tag ++ rest)
  text_inside :
      (begun : Bool) (top : Text) (below : List Text) (text rest : Text)
      → NoDelimiter text
      → TableText begun (top ∷ below) rest
      → TableText begun (top ∷ below) (text ++ rest)
  space_outside :
      (begun : Bool) (text rest : Text)
      → has_ink text ≡ false
      → NoDelimiter text
      → TableText begun [] rest
      → TableText begun [] (text ++ rest)
  named_reference :
      (begun : Bool) (open_tags : List Text) (name rest : Text)
      → all_name_chars name ≡ true
      → TableText begun open_tags rest
      → TableText begun open_tags ((codes "&" ++ name ++ codes ";") ++ rest)
  numbered_reference :
      (begun : Bool) (open_tags : List Text) (name rest : Text)
      → all_name_chars name ≡ true
      → TableText begun open_tags rest
      → TableText begun open_tags ((codes "&#" ++ name ++ codes ";") ++ rest)

-- whether every attribute has a name of the ordinary characters
unfoldable pub named_attributes : Attributes → Bool
unfolding is_name
named_attributes [] = true
named_attributes ((name, value) ∷ attrs) = is_name (lower name) && named_attributes attrs

-- whether the call's tag and attributes have such names
unfoldable pub is_named : Event → Bool
unfolding named_attributes
is_named (start_tag tag attrs) = is_name (lower tag) && named_attributes attrs
is_named (startend_tag tag attrs) = is_name (lower tag) && named_attributes attrs
is_named (end_tag tag) = true
is_named (entity_ref name) = all_name_chars name
is_named (char_ref name) = all_name_chars name
is_named e = true
