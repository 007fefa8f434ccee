-- ===== src/Artifacts/Parts.antt =====
-- What the sanitizer keeps (browser_artifacts.py): the tags, the attributes and the text of its parts.
use mathlib.Core.List.{append-nil}
use football_prediction_craw.Prelude.{
  ℕ, ◌≡◌, refl, sym, subst, ◌∙◌, true, false, Option, none, some, List, [], ◌∷◌, ◌++◌, any-append,
  All, All-append, ◌==◌, arith, Bool-cases, inl, inr,
}
use football_prediction_craw.Prelude.Text.{codes, lower}
use football_prediction_craw.Artifacts.Words.{
  Text, Attributes, Event, start_tag, startend_tag, end_tag, chars, comment, declaration,
  unknown_declaration, instruction, entity_ref, char_ref, same, lower_idempotent, is_space, has_ink,
}
use football_prediction_craw.Artifacts.Sanitizer.{
  Part, opening, closing, content, entity, character, Sanitizer, drops, removed_attributes, kept,
  escape_char, escape, written_value, written_attributes, removed_tags, is_removed, emit, open_tag,
  close_tag, emit_outside, handle as clean_one, feed as clean,
}
use football_prediction_craw.Artifacts.Validator.{is_void}
use football_prediction_craw.Artifacts.Shape.{is_plain, Plain}
use football_prediction_craw.Artifacts.Composition.{not_plain}
use football_prediction_craw.Artifacts.Grammar.{
  is_delimiter, NoDelimiter, is_refused_tag, is_refused_attribute, is_name, all_name_chars,
  AttributesText, no_attributes, bare, valued, named_attributes, is_named,
}

-- what is escaped has no delimiter
escaped_char-NoDelimiter : (c : ℕ) → NoDelimiter (escape_char c)
unfolding escape_char is_delimiter
escaped_char-NoDelimiter c = elim (Bool-cases (c == b'&')) [
  | inl e ↦ rw e refl
  | inr e ↦ elim (Bool-cases (c == b'<')) [
    | inl f ↦ rw (e, f) refl
    | inr f ↦ elim (Bool-cases (c == b'>')) [
      | inl g ↦ rw (e, f, g) refl
      | inr g ↦ elim (Bool-cases (c == b'"')) [
        | inl h ↦ rw (e, f, g, h) refl
        | inr h ↦ elim (Bool-cases (c == 39)) [
          | inl k ↦ rw (e, f, g, h, k) refl
          | inr k ↦ rw (e, f, g, h, k, f, g, h, k) refl
        ]
      ]
    ]
  ]
]

pub escaped-NoDelimiter : (text : Text) → NoDelimiter (escape text)
unfolding escape
escaped-NoDelimiter [] = refl
escaped-NoDelimiter (c ∷ text) =
    any-append is_delimiter (escape_char c) (escape text)
    ∙ rw (escaped_char-NoDelimiter c) (escaped-NoDelimiter text)

-- white space is written as it is
space_char : (c : ℕ) → is_space c ≡ true → escape_char c ≡ c ∷ []
unfolding escape_char is_space
space_char c h = ground (arith, h)

pub escaped_blank : (text : Text) → has_ink text ≡ false → escape text ≡ text
unfolding escape has_ink
escaped_blank [] h = refl
escaped_blank (c ∷ text) h =
    rw (space_char c (ground (arith, h)), escaped_blank text (ground (arith, h))) refl

-- the attributes that are kept
refused_attribute_lem : (name : Text) → is_refused_attribute name ≡ drops name
unfolding is_refused_attribute drops removed_attributes
refused_attribute_lem name = refl

refused_tag_lem : (tag : Text) → is_refused_tag tag ≡ is_removed tag
unfolding is_refused_tag is_removed removed_tags
refused_tag_lem tag = refl

kept-AttributesText :
    (attrs : Attributes)
    → named_attributes attrs ≡ true
    → AttributesText (written_attributes (kept attrs))
unfolding kept written_attributes written_value named_attributes
kept-AttributesText [] h = no_attributes
kept-AttributesText ((name, value) ∷ attrs) h =
    let rest = kept-AttributesText attrs (ground (arith, h)) in
    elim (Bool-cases (drops (lower name))) [
      | inl e ↦ rw e rest
      | inr e ↦ rw e (one value (ground (arith, h)) (refused_attribute_lem (lower name) ∙ e) rest)
    ]
  where
    one :
        (value : Option Text)
        → is_name (lower name) ≡ true
        → is_refused_attribute (lower name) ≡ false
        → AttributesText (written_attributes (kept attrs))
        → AttributesText (written_attributes ((lower name, value) ∷ kept attrs))
    one none named free rest =
        subst (λ t. AttributesText (t ++ written_attributes (kept attrs)))
          (sym (append-nil (codes " " ++ lower name)))
          (bare (lower name) (written_attributes (kept attrs)) named free rest)
    one (some text) named free rest =
        valued (lower name) (escape text) (written_attributes (kept attrs)) named free
          (escaped-NoDelimiter text) rest

-- what is true of a part of the output
abbrev pub IsKept : Part → Type 0
IsKept (opening tag attrs) =
    (lower tag ≡ tag)
    × (is_name tag ≡ true)
    × (is_refused_tag tag ≡ false)
    × AttributesText (written_attributes attrs)
IsKept (closing tag) = lower tag ≡ tag
IsKept (content text) = Unit
IsKept (entity name) = all_name_chars name ≡ true
IsKept (character name) = all_name_chars name ≡ true

abbrev pub AllKept : Sanitizer → Type 0
AllKept s = All IsKept s.parts

emitted-AllKept : (p : Part) (s : Sanitizer) → IsKept p → AllKept s → AllKept (emit p s)
unfolding emit
emitted-AllKept p s h k = All-append IsKept s.parts (p ∷ []) k (h, tt)

outside-AllKept :
    (p : Part) (skipped : List Text) (s : Sanitizer)
    → IsKept p
    → AllKept s
    → AllKept (emit_outside p skipped s)
unfolding emit_outside
outside-AllKept p [] s h k = emitted-AllKept p s h k
outside-AllKept p (top ∷ below) s h k = k

module _ (u : Text) (attrs : Attributes) (named : is_named (start_tag u attrs) ≡ true) where
  opening-IsKept : is_removed (lower u) ≡ false → IsKept (opening (lower u) (kept attrs))
  unfolding is_named
  opening-IsKept stays = (
    lower_idempotent u,
    ground (arith, named),
    refused_tag_lem (lower u) ∙ stays,
    kept-AttributesText attrs (ground (arith, named)),
  )

  opened-AllKept :
      (skipped : List Text) (s : Sanitizer)
      → AllKept s
      → AllKept (open_tag (lower u) attrs skipped s)
  unfolding open_tag
  opened-AllKept [] s k = elim (Bool-cases (is_removed (lower u))) [
    | inl e ↦ rw e k
    | inr e ↦ rw e (emitted-AllKept (opening (lower u) (kept attrs)) s (opening-IsKept e) k)
  ]
  opened-AllKept (top ∷ below) s k = elim (Bool-cases (same (lower u) top)) [
    | inl e ↦ rw e k
    | inr e ↦ rw e k
  ]

closed-AllKept :
    (u : Text) (skipped : List Text) (s : Sanitizer)
    → AllKept s
    → AllKept (close_tag (lower u) skipped s)
unfolding close_tag
closed-AllKept u [] s k = elim (Bool-cases (is_void (lower u))) [
  | inl e ↦ rw e k
  | inr e ↦ rw e (emitted-AllKept (closing (lower u)) s (lower_idempotent u) k)
]
closed-AllKept u (top ∷ below) s k = elim (Bool-cases (same (lower u) top)) [
  | inl e ↦ rw e k
  | inr e ↦ rw e k
]

call-AllKept :
    (e : Event) (s : Sanitizer)
    → is_plain e ≡ true
    → is_named e ≡ true
    → AllKept s
    → AllKept (clean_one e s)
unfolding clean_one is_named
call-AllKept (start_tag u attrs) s p h k = opened-AllKept u attrs h s.skipped s k
call-AllKept (startend_tag u attrs) s p h k = not_plain u attrs p
call-AllKept (end_tag u) s p h k = closed-AllKept u s.skipped s k
call-AllKept (chars u) s p h k = outside-AllKept (content u) s.skipped s tt k
call-AllKept (comment u) s p h k = k
call-AllKept (declaration u) s p h k = k
call-AllKept (unknown_declaration u) s p h k = k
call-AllKept (instruction u) s p h k = k
call-AllKept (entity_ref u) s p h k = outside-AllKept (entity u) s.skipped s h k
call-AllKept (char_ref u) s p h k = outside-AllKept (character u) s.skipped s h k

pub cleaned-AllKept :
    (es : List Event) (s : Sanitizer)
    → Plain es
    → All (λ e. is_named e ≡ true) es
    → AllKept s
    → AllKept (clean es s)
unfolding clean
cleaned-AllKept [] s p h k = k
cleaned-AllKept (e ∷ es) s p h k =
    cleaned-AllKept es (clean_one e s) p.1 h.1 (call-AllKept e s p.0 h.0 k)
