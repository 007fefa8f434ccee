-- ===== src/Artifacts/Validator.antt =====
-- `_SingleTableRootValidator` of browser_artifacts.py.
use football_prediction_craw.Prelude.{
  Bool, true, false, not, ◌&&◌, ◌||◌, List, [], ◌∷◌, if◌then◌else◌,
}
use football_prediction_craw.Prelude.Text.{codes, lower}
use football_prediction_craw.Artifacts.Words.{
  Text, Event, start_tag, startend_tag, end_tag, chars, comment, declaration, unknown_declaration,
  instruction, entity_ref, char_ref, same, one_of, has_ink, void_tags,
}

pub record Validator : Type 0 where
  pub root_seen : Bool
  pub stack : List Text
  pub is_valid : Bool

unfoldable pub fresh : Validator
fresh = record { root_seen = false; stack = []; is_valid = true }

unfoldable pub is_void : Text → Bool
is_void = one_of void_tags

unfoldable pub push : Text → Validator → Validator
push tag v = if is_void tag then v else record v { stack = tag ∷ v.stack }

-- the first test of `handle_starttag`, on the stack
unfoldable pub open_tag : Text → List Text → Validator → Validator
unfolding push
open_tag tag [] v =
    if v.root_seen || not (same tag (codes "table"))
    then record v { is_valid = false }
    else push tag (record v { root_seen = true })
open_tag tag (top ∷ below) v = push tag v

-- `handle_starttag`
unfoldable pub handle_starttag : Text → Validator → Validator
unfolding open_tag
handle_starttag tag v = open_tag (lower tag) v.stack v

unfoldable pub close_tag : Text → List Text → Validator → Validator
close_tag tag [] v = record v { is_valid = false }
close_tag tag (top ∷ below) v =
    if same top tag then record v { stack = below } else record v { is_valid = false }

-- `handle_endtag`
unfoldable pub handle_endtag : Text → Validator → Validator
unfolding close_tag
handle_endtag tag v = close_tag (lower tag) v.stack v

-- `handle_startendtag`
unfoldable pub handle_startendtag : Text → Validator → Validator
handle_startendtag tag v =
    let opened = handle_starttag tag v in
    if opened.is_valid then handle_endtag tag opened else opened

-- the handlers that allow something only inside the root
unfoldable pub inside_only : Bool → List Text → Validator → Validator
inside_only refused [] v = if refused then record v { is_valid = false } else v
inside_only refused (top ∷ below) v = v

-- one call of a handler; the references have none
unfoldable pub handle : Event → Validator → Validator
unfolding handle_starttag handle_endtag handle_startendtag inside_only
handle (start_tag tag attrs) v = handle_starttag tag v
handle (startend_tag tag attrs) v = handle_startendtag tag v
handle (end_tag tag) v = handle_endtag tag v
handle (chars text) v = inside_only (has_ink text) v.stack v
handle (comment text) v = inside_only true v.stack v
handle (declaration text) v = inside_only true v.stack v
handle (unknown_declaration text) v = inside_only true v.stack v
handle (instruction text) v = inside_only true v.stack v
handle (entity_ref name) v = v
handle (char_ref name) v = v

unfoldable pub feed : List Event → Validator → Validator
feed [] v = v
feed (e ∷ es) v = feed es (handle e v)

abbrev pub is_empty : List Text → Bool
is_empty [] = true
is_empty (t ∷ ts) = false

unfoldable pub accepts : Validator → Bool
accepts v = v.is_valid && v.root_seen && is_empty v.stack

-- `is_valid`
unfoldable pub is_valid : List Event → Bool
unfolding feed accepts
is_valid events = accepts (feed events fresh)
