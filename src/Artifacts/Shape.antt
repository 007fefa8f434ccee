-- ===== src/Artifacts/Shape.antt =====
-- The validator and the sanitizer together (browser_artifacts.py): what the validator makes of the
-- sanitizer's parts, each taken for the call that it was made from.
use football_prediction_craw.Prelude.{
  ℕ, zero, suc, ◌≡◌, refl, ap, ◌∙◌, Bool, true, false, not, ◌&&◌, ◌||◌, Option, none, some, List,
  [], ◌∷◌, ◌++◌, map, All, if◌then◌else◌, arith, Bool-cases, inl, inr,
}
use mathlib.Core.List.{map-append}
use football_prediction_craw.Prelude.Text.{codes, lower}
use football_prediction_craw.Artifacts.Words.{
  Text, Attributes, Event, start_tag, startend_tag, end_tag, chars, comment, declaration,
  unknown_declaration, instruction, entity_ref, char_ref, same, lower_idempotent,
}
use football_prediction_craw.Artifacts.Sanitizer.{
  Part, opening, closing, content, entity, character, Sanitizer, is_removed, feed as clean,
}
use football_prediction_craw.Artifacts.Validator.{
  Validator, is_void, accepts, fresh, feed as validate, handle as check, push, open_tag, close_tag,
  handle_starttag, handle_endtag, handle_startendtag, inside_only,
}
use football_prediction_craw.Artifacts.Erasure.{times}

-- the call that a part was made from
unfoldable pub call_of : Part → Event
call_of (opening tag attrs) = start_tag tag attrs
call_of (closing tag) = end_tag tag
call_of (content text) = chars text
call_of (entity name) = entity_ref name
call_of (character name) = char_ref name

-- no self-closing tag, and no void tag that the sanitizer removes
unfoldable pub is_plain : Event → Bool
is_plain (start_tag tag attrs) = not (is_void (lower tag) && is_removed (lower tag))
is_plain (startend_tag tag attrs) = false
is_plain e = true

abbrev pub going : Bool → List Text → Validator
going root stack = record { root_seen = root; stack = stack; is_valid = true }

-- The stack below the tag's `n + 1`-th element from the top.
unfoldable pub under : Text → ℕ → List Text → Option (List Text)
under tag n [] = none
under tag zero (u ∷ st) = let below = under tag zero st in if same u tag then some st else below
under tag (suc n) (u ∷ st) = under tag (if same u tag then n else suc n) st

opened-invalid :
    (tag : Text) (st : List Text) (v : Validator)
    → v.is_valid ≡ false
    → (open_tag tag st v).is_valid ≡ false
unfolding open_tag push
opened-invalid tag [] v h = ground (arith, h)
opened-invalid tag (top ∷ below) v h = ground (arith, h)

check-invalid : (e : Event) (v : Validator) → v.is_valid ≡ false → (check e v).is_valid ≡ false
unfolding check handle_starttag handle_endtag handle_startendtag open_tag close_tag push inside_only
check-invalid (start_tag u attrs) v h = opened-invalid (lower u) v.stack v h
check-invalid (startend_tag u attrs) v h =
    let opened = opened-invalid (lower u) v.stack v h in rw opened opened
check-invalid (end_tag u) v h = ground (arith, h)
check-invalid (chars u) v h = ground (arith, h)
check-invalid (comment u) v h = ground (arith, h)
check-invalid (declaration u) v h = ground (arith, h)
check-invalid (unknown_declaration u) v h = ground (arith, h)
check-invalid (instruction u) v h = ground (arith, h)
check-invalid (entity_ref u) v h = h
check-invalid (char_ref u) v h = h

pub validate-invalid :
    (es : List Event) (v : Validator) → v.is_valid ≡ false → accepts (validate es v) ≡ false
unfolding validate accepts
validate-invalid [] v h = rw h refl
validate-invalid (e ∷ es) v h = validate-invalid es (check e v) (check-invalid e v h)

-- a call that an accepted fragment makes leaves the validator going
pub stays_valid :
    (e : Event) (es : List Event) (v : Validator)
    → accepts (validate es (check e v)) ≡ true
    → (check e v).is_valid ≡ true
stays_valid e es v h = elim (Bool-cases (check e v).is_valid) [
  | inl k ↦ k
  | inr k ↦ ground (arith, h, validate-invalid es (check e v) k)
]

pub validate-append :
    (es fs : List Event) (v : Validator) → validate (es ++ fs) v ≡ validate fs (validate es v)
unfolding validate
validate-append [] fs v = refl
validate-append (e ∷ es) fs v = validate-append es fs (check e v)

-- the validator after the calls of the parts
abbrev pub validated : List Part → Validator
validated parts = validate (map call_of parts) fresh

pub validated-emit :
    (parts : List Part) (p : Part)
    → validated (parts ++ (p ∷ [])) ≡ check (call_of p) (validated parts)
unfolding validate
validated-emit parts p =
    ap (λ es. validate es fresh) (map-append call_of parts (p ∷ []))
    ∙ validate-append (map call_of parts) (call_of p ∷ []) fresh

-- no void tag is open
abbrev pub NoVoid : List Text → Type 0
NoVoid = All (λ t. is_void t ≡ false)

abbrev pub Plain : List Event → Type 0
Plain = All (λ e. is_plain e ≡ true)

-- a valid validator is going
pub going_lem : (v : Validator) → v.is_valid ≡ true → v ≡ going v.root_seen v.stack
going_lem v h = ap (λ b. record { root_seen = v.root_seen; stack = v.stack; is_valid = b }) h

push-NoVoid : (tag : Text) (v : Validator) → NoVoid v.stack → NoVoid (push tag v).stack
unfolding push
push-NoVoid tag v h = elim (Bool-cases (is_void tag)) [ inl e ↦ rw e h | inr e ↦ rw e (e, h) ]

pub opened-NoVoid :
    (tag : Text) (st : List Text) (v : Validator)
    → NoVoid v.stack
    → NoVoid (open_tag tag st v).stack
unfolding open_tag
opened-NoVoid tag [] v h = elim (Bool-cases (v.root_seen || not (same tag (codes "table")))) [
  | inl e ↦ rw e h
  | inr e ↦ rw e (push-NoVoid tag (record v { root_seen = true }) h)
]
opened-NoVoid tag (top ∷ below) v h = push-NoVoid tag v h

pub closed-NoVoid :
    (tag : Text) (st : List Text) (v : Validator)
    → NoVoid st
    → NoVoid v.stack
    → NoVoid (close_tag tag st v).stack
unfolding close_tag
closed-NoVoid tag [] v k h = h
closed-NoVoid tag (top ∷ below) v k h = elim (Bool-cases (same top tag)) [
  | inl e ↦ rw e k.1
  | inr e ↦ rw e h
]

pub confined-stack :
    (refused : Bool) (st : List Text) (v : Validator) → (inside_only refused st v).stack ≡ v.stack
unfolding inside_only
confined-stack true [] v = refl
confined-stack false [] v = refl
confined-stack refused (top ∷ below) v = refl

-- Among the calls that a validator with an open root takes, those on text and remarks change nothing.
pub confined-open :
    (refused : Bool) (st : List Text) (v : Validator)
    → (inside_only refused st v).is_valid ≡ true
    → v.is_valid ≡ true
    → inside_only refused st v ≡ v
unfolding inside_only
confined-open true [] v h k = ground (arith, h)
confined-open false [] v h k = refl
confined-open refused (top ∷ below) v h k = refl

-- the sanitizer while nothing is skipped, and inside a removed element
abbrev pub outside : List Part → Sanitizer
outside parts = record { parts = parts; skipped = [] }

abbrev pub within : List Part → ℕ → Text → Sanitizer
within parts n tag = record { parts = parts; skipped = times (suc n) tag }

abbrev pub ResultOf : List Event → Sanitizer → Type 0
ResultOf es s = accepts (validated (clean es s).parts) ≡ true

-- The part that a call appends does to the validator what that call does.
pub opening-call_of :
    (u : Text) (attrs kept_attrs : Attributes) (v : Validator)
    → check (call_of (opening (lower u) kept_attrs)) v ≡ check (start_tag u attrs) v
unfolding check call_of handle_starttag
opening-call_of u attrs kept_attrs v = rw (lower_idempotent u) refl

pub closing-call_of :
    (u : Text) (v : Validator) → check (call_of (closing (lower u))) v ≡ check (end_tag u) v
unfolding check call_of handle_endtag
closing-call_of u v = rw (lower_idempotent u) refl

-- what the induction gives for the rest of the fragment
abbrev pub Outside : List Event → Type 0
Outside es =
    (v : Validator) (parts : List Part)
    → validated parts ≡ v
    → v.is_valid ≡ true
    → NoVoid v.stack
    → accepts (validate es v) ≡ true
    → ResultOf es (outside parts)

abbrev pub Within : List Event → Type 0
Within es =
    (v w : Validator) (parts : List Part) (n : ℕ) (tag : Text)
    → validated parts ≡ w
    → v.is_valid ≡ true
    → w.is_valid ≡ true
    → v.root_seen ≡ w.root_seen
    → is_void tag ≡ false
    → under tag n v.stack ≡ some w.stack
    → NoVoid w.stack
    → accepts (validate es v) ≡ true
    → ResultOf es (within parts n tag)
