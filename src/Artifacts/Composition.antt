-- ===== src/Artifacts/Composition.antt =====
-- The sanitizer on a fragment that the validator accepts (browser_artifacts.py), call by call.
use football_prediction_craw.Prelude.{
  ◌≡◌, refl, sym, ap, subst, ◌∙◌, Bool, true, false, not, ◌&&◌, some, List, [], ◌∷◌, ◌++◌, arith,
  Bool-cases, inl, inr,
}
use football_prediction_craw.Prelude.Text.{codes, lower}
use football_prediction_craw.Artifacts.Words.{
  Text, Attributes, Event, start_tag, startend_tag, end_tag, chars, comment, declaration,
  unknown_declaration, instruction, entity_ref, char_ref, same, same-eq, same_refl, one_of, has_ink,
}
use football_prediction_craw.Artifacts.Sanitizer.{
  Part, opening, closing, content, entity, character, Sanitizer, is_removed, removed_tags, kept,
  emit, feed as clean, handle as clean_one, open_tag as clean_open, close_tag as clean_close,
  emit_outside,
}
use football_prediction_craw.Artifacts.Validator.{
  Validator, is_void, accepts, feed as validate, handle as check, push, open_tag, close_tag,
  handle_starttag, handle_endtag,
}
use football_prediction_craw.Artifacts.Erasure.{entered}
use football_prediction_craw.Artifacts.Shape.{
  call_of, is_plain, under, stays_valid, validated, validated-emit, NoVoid, opened-NoVoid,
  closed-NoVoid, confined-stack, confined-open, outside, ResultOf, opening-call_of, closing-call_of,
  Outside, Within,
}

pub true_ne_false : {A : Type 0} {b : Bool} → b ≡ true → b ≡ false → A
true_ne_false h k = ground (arith, h, k)

check-NoVoid :
    (e : Event) (v : Validator) → is_plain e ≡ true → NoVoid v.stack → NoVoid (check e v).stack
unfolding check handle_starttag handle_endtag is_plain
check-NoVoid (start_tag u attrs) v p h = opened-NoVoid (lower u) v.stack v h
check-NoVoid (end_tag u) v p h = closed-NoVoid (lower u) v.stack v h h
check-NoVoid (startend_tag u attrs) v p h = ground (arith, p)
check-NoVoid (chars u) v p h = subst NoVoid (sym (confined-stack (has_ink u) v.stack v)) h
check-NoVoid (comment u) v p h = subst NoVoid (sym (confined-stack true v.stack v)) h
check-NoVoid (declaration u) v p h = subst NoVoid (sym (confined-stack true v.stack v)) h
check-NoVoid (unknown_declaration u) v p h = subst NoVoid (sym (confined-stack true v.stack v)) h
check-NoVoid (instruction u) v p h = subst NoVoid (sym (confined-stack true v.stack v)) h
check-NoVoid (entity_ref u) v p h = h
check-NoVoid (char_ref u) v p h = h

-- a call that appends a part
emitted :
    (e : Event) (p : Part) (es : List Event)
    → is_plain e ≡ true
    → Outside es
    → (v : Validator) (parts : List Part) → validated parts ≡ v
    → NoVoid v.stack
    → check (call_of p) v ≡ check e v
    → accepts (validate es (check e v)) ≡ true
    → ResultOf es (outside (parts ++ (p ∷ [])))
emitted e p es plain rest v parts same_text no_void read accepted =
    rest (check e v) (parts ++ (p ∷ []))
      (validated-emit parts p ∙ ap (check (call_of p)) same_text ∙ read)
      (stays_valid e es v accepted) (check-NoVoid e v plain no_void) accepted

-- a call that neither changes the validator nor appends a part
unchanged :
    (e : Event) (es : List Event)
    → Outside es
    → (v : Validator) (parts : List Part) → validated parts ≡ v
    → v.is_valid ≡ true
    → NoVoid v.stack
    → check e v ≡ v
    → accepts (validate es (check e v)) ≡ true
    → ResultOf es (outside parts)
unchanged e es rest v parts same_text valid no_void still accepted =
    rest v parts same_text valid no_void
      (subst (λ x. accepts (validate es x) ≡ true) still accepted)

table_is_kept : is_removed (codes "table") ≡ false
unfolding is_removed one_of removed_tags same
table_is_kept = refl

under_top : (tag : Text) (st : List Text) → under tag 0 (tag ∷ st) ≡ some st
unfolding under
under_top tag st = rw (same_refl tag) refl

-- a closed tag was open, so it is not void
pub closed-solid :
    (tag : Text) (st : List Text) (v : Validator)
    → NoVoid st
    → (close_tag tag st v).is_valid ≡ true
    → is_void tag ≡ false
unfolding close_tag
closed-solid tag [] v n h = ground (arith, h)
closed-solid tag (top ∷ below) v n h = elim (Bool-cases (same top tag)) [
  | inl e ↦ subst (λ t. is_void t ≡ false) (same-eq top tag e) n.0
  | inr e ↦ ground (arith, h, e)
]

pub not_plain :
    {A : Type 0} (u : Text) (attrs : Attributes) → is_plain (startend_tag u attrs) ≡ true → A
unfolding is_plain
not_plain u attrs h = ground (arith, h)

pub both_false : (a b : Bool) → not (a && b) ≡ true → b ≡ true → a ≡ false
both_false a b h k = ground (arith, h, k)

opened_removed :
    (tag : Text) (st : List Text) (v : Validator)
    → is_removed tag ≡ true
    → is_void tag ≡ false
    → (open_tag tag st v).is_valid ≡ true
    → open_tag tag st v ≡ record v { stack = tag ∷ v.stack }
unfolding open_tag push
opened_removed tag (top ∷ below) v gone solid h = rw solid refl
opened_removed tag [] v gone solid h = elim (Bool-cases (same tag (codes "table"))) [
  | inl e ↦
      true_ne_false (subst (λ t. is_removed t ≡ true) (same-eq tag (codes "table") e) gone)
        table_is_kept
  | inr e ↦ ground (arith, h, e)
]

pub by_step :
    {s t : Sanitizer}
    → s ≡ t
    → accepts (validated t.parts) ≡ true
    → accepts (validated s.parts) ≡ true
by_step e h = subst (λ (x : Sanitizer). accepts (validated x.parts) ≡ true) (sym e) h

clean-opened :
    (u : Text) (attrs : Attributes) (es : List Event) (parts : List Part)
    → is_removed (lower u) ≡ false
    → clean (start_tag u attrs ∷ es) (outside parts)
      ≡ clean es (outside (parts ++ (opening (lower u) (kept attrs) ∷ [])))
unfolding clean clean_one clean_open emit
clean-opened u attrs es parts stays = rw stays refl

clean-closed :
    (u : Text) (es : List Event) (parts : List Part)
    → is_void (lower u) ≡ false
    → clean (end_tag u ∷ es) (outside parts)
      ≡ clean es (outside (parts ++ (closing (lower u) ∷ [])))
unfolding clean clean_one clean_close emit
clean-closed u es parts solid = rw solid refl

start-Outside :
    (u : Text) (attrs : Attributes) (es : List Event)
    → is_plain (start_tag u attrs) ≡ true
    → Outside es
    → Within es
    → Outside (start_tag u attrs ∷ es)
unfolding validate is_plain check handle_starttag
start-Outside u attrs es plain rest deeper v parts same_text valid no_void accepted =
    elim (Bool-cases (is_removed (lower u))) [
      | inl gone ↦
          let solid = both_false (is_void (lower u)) (is_removed (lower u)) plain gone in
          let next =
            opened_removed (lower u) v.stack v gone solid
              (stays_valid (start_tag u attrs) es v accepted) in
          by_step (entered u attrs es parts gone) (
            deeper (record v { stack = lower u ∷ v.stack }) v parts 0 (lower u) same_text valid
              valid refl solid (under_top (lower u) v.stack) no_void
              (subst (λ x. accepts (validate es x) ≡ true) next accepted))
      | inr stays ↦ by_step (clean-opened u attrs es parts stays) (
          emitted (start_tag u attrs) (opening (lower u) (kept attrs)) es plain rest v parts
            same_text no_void (opening-call_of u attrs (kept attrs) v) accepted)
    ]

end-Outside : (u : Text) (es : List Event) → Outside es → Outside (end_tag u ∷ es)
unfolding validate check handle_endtag is_plain
end-Outside u es rest v parts same_text valid no_void accepted =
    elim (Bool-cases (is_void (lower u))) [
      | inl hollow ↦
          true_ne_false hollow
            (closed-solid (lower u) v.stack v no_void (stays_valid (end_tag u) es v accepted))
      | inr solid ↦ by_step (clean-closed u es parts solid) (
          emitted (end_tag u) (closing (lower u)) es refl rest v parts same_text no_void
            (closing-call_of u v) accepted)
    ]

pub step-Outside :
    (e : Event) (es : List Event) → is_plain e ≡ true → Outside es → Within es → Outside (e ∷ es)
unfolding validate clean clean_one emit_outside emit check call_of
step-Outside (start_tag u attrs) es p o w = start-Outside u attrs es p o w
step-Outside (startend_tag u attrs) es p o w = not_plain u attrs p
step-Outside (end_tag u) es p o w = end-Outside u es o
step-Outside (chars u) es p o w =
    λ v parts e h n a. emitted (chars u) (content u) es p o v parts e n refl a
step-Outside (comment u) es p o w = λ v parts e h n a.
    unchanged (comment u) es o v parts e h n
      (confined-open true v.stack v (stays_valid (comment u) es v a) h) a
step-Outside (declaration u) es p o w = λ v parts e h n a.
    unchanged (declaration u) es o v parts e h n
      (confined-open true v.stack v (stays_valid (declaration u) es v a) h) a
step-Outside (unknown_declaration u) es p o w = λ v parts e h n a.
    unchanged (unknown_declaration u) es o v parts e h n
      (confined-open true v.stack v (stays_valid (unknown_declaration u) es v a) h) a
step-Outside (instruction u) es p o w = λ v parts e h n a.
    unchanged (instruction u) es o v parts e h n
      (confined-open true v.stack v (stays_valid (instruction u) es v a) h) a
step-Outside (entity_ref u) es p o w =
    λ v parts e h n a. emitted (entity_ref u) (entity u) es p o v parts e n refl a
step-Outside (char_ref u) es p o w =
    λ v parts e h n a. emitted (char_ref u) (character u) es p o v parts e n refl a
