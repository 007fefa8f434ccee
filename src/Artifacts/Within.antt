-- ===== src/Artifacts/Within.antt =====
-- One call inside a removed element keeps what the parsers agree on (browser_artifacts.py).
use football_prediction_craw.Prelude.{
  ℕ, zero, suc, ◌≡◌, refl, sym, ap, subst, ◌∙◌, Bool, true, false, ◌&&◌, none, some, List, [], ◌∷◌,
  if◌then◌else◌, arith, Bool-cases, inl, inr,
}
use football_prediction_craw.Prelude.Text.{lower}
use football_prediction_craw.Artifacts.Words.{
  Text, Attributes, Event, start_tag, startend_tag, end_tag, chars, comment, declaration,
  unknown_declaration, instruction, entity_ref, char_ref, same, same-eq, has_ink,
}
use football_prediction_craw.Artifacts.Sanitizer.{
  Part, feed as clean, handle as clean_one, emit_outside,
}
use football_prediction_craw.Artifacts.Validator.{
  Validator, is_void, is_empty, accepts, feed as validate, handle as check, push, close_tag,
  handle_starttag, handle_endtag,
}
use football_prediction_craw.Artifacts.Erasure.{times}
use football_prediction_craw.Artifacts.Shape.{
  is_plain, going, under, stays_valid, validated, NoVoid, going_lem, within, ResultOf, Outside,
  Within,
}
use football_prediction_craw.Artifacts.Composition.{by_step, not_plain}
use football_prediction_craw.Artifacts.Inside.{
  opened_inside, confined_inside, under-other, under-same, under_first, closed_top, clean-nested,
  clean-ignored, clean-left, clean-passed,
}

start-Within :
    (u : Text) (attrs : Attributes) (es : List Event) → Within es → Within (start_tag u attrs ∷ es)
unfolding validate check handle_starttag push
start-Within u attrs es rest v w parts n tag same_text valid valid_out root solid below no_void
      accepted =
    let pushed = opened_inside tag (lower u) n v.stack v below in
    let accepted₁ = subst (λ x. accepts (validate es x) ≡ true) pushed accepted in
    elim (Bool-cases (same (lower u) tag)) [
      | inl e ↦
          let solid₁ = subst (λ t. is_void t ≡ false) (sym (same-eq (lower u) tag e)) solid in
          by_step (clean-nested u attrs es parts n tag e) (
            rest (record v { stack = lower u ∷ v.stack }) w parts (suc n) tag same_text valid
              valid_out root solid (under-same tag (lower u) n v.stack e ∙ below) no_void
              (subst
                (λ (b : Bool).
                  accepts (validate es (if b then v else record v { stack = lower u ∷ v.stack }))
                  ≡ true)
                solid₁ accepted₁))
      | inr e ↦
          by_step (clean-ignored u attrs es parts n tag e) (elim (Bool-cases (is_void (lower u))) [
            | inl hollow ↦ rest v w parts n tag same_text valid valid_out root solid below no_void (
                subst
                  (λ (b : Bool).
                    accepts (validate es (if b then v else record v { stack = lower u ∷ v.stack }))
                    ≡ true)
                  hollow accepted₁)
            | inr full ↦
                rest (record v { stack = lower u ∷ v.stack }) w parts n tag same_text valid
                  valid_out root solid (under-other tag (lower u) n v.stack e ∙ below) no_void
                  (subst
                    (λ (b : Bool).
                      accepts
                        (validate es (if b then v else record v { stack = lower u ∷ v.stack }))
                      ≡ true)
                    full accepted₁)
          ])
    ]

some_inj : {a b : List Text} → some a ≡ some b → a ≡ b
some_inj {a} h = ap (λ o. elim o [ none ↦ a | some x ↦ x ]) h

stays_valid_end :
    (u : Text) (es : List Event) (v : Validator)
    → accepts (validate es (close_tag (lower u) v.stack v)) ≡ true
    → (close_tag (lower u) v.stack v).is_valid ≡ true
unfolding check handle_endtag
stays_valid_end u es v h = stays_valid (end_tag u) es v h

nothing_open : (st : List Text) → is_empty st ≡ true → st ≡ []
nothing_open [] h = refl
nothing_open (t ∷ st) h = ground (arith, h)

all_three : (a b c : Bool) → (a && b && c) ≡ true → c ≡ true
all_three a b c h = ground (arith, h)

-- a fragment does not end inside an element
pub unfinished :
    {A : Type 0} (tag : Text) (n : ℕ) (v : Validator) {out : List Text}
    → accepts v ≡ true
    → under tag n v.stack ≡ some out
    → A
unfolding accepts under
unfinished {A} tag n v {out} h k =
    let empty = nothing_open v.stack (all_three v.is_valid v.root_seen (is_empty v.stack) h) in
    let never = subst (λ st. under tag n st ≡ some out) empty k in ground (arith, never)

end-Within : (u : Text) (es : List Event) → Outside es → Within es → Within (end_tag u ∷ es)
unfolding validate check handle_endtag
end-Within u es rest deeper v w parts n tag same_text valid valid_out root solid below no_void
      accepted =
    let (left, stack_is, closed) =
      closed_top (lower u) v.stack v (stays_valid_end u es v accepted) in
    let below₁ = subst (λ st. under tag n st ≡ some w.stack) stack_is below in
    let accepted₁ = subst (λ x. accepts (validate es x) ≡ true) closed accepted in
    elim (Bool-cases (same (lower u) tag)) [
      | inl e ↦ by_step (clean-left u es parts n tag e) (leave n (lower u) left e below₁ accepted₁)
      | inr e ↦ by_step (clean-passed u es parts n tag e) (
          deeper (record v { stack = left }) w parts n tag same_text valid valid_out root solid
            (sym (under-other tag (lower u) n left e) ∙ below₁) no_void accepted₁)
    ]
  where
    leave :
        (k : ℕ) (t : Text) (left : List Text)
        → same t tag ≡ true
        → under tag k (t ∷ left) ≡ some w.stack
        → accepts (validate es (record v { stack = left })) ≡ true
        → accepts (validated (clean es (record { parts = parts; skipped = times k tag })).parts)
          ≡ true
    leave zero t left e h a =
        let level = some_inj (sym (under_first tag t left e) ∙ h) in
        let out_is : w ≡ record v { stack = left } =
          going_lem w valid_out
          ∙ ap (λ st. going w.root_seen st) (sym level)
          ∙ ap (λ b. going b left) (sym root)
          ∙ sym (going_lem (record v { stack = left }) valid) in
        rest (record v { stack = left }) parts (same_text ∙ out_is) valid
          (subst NoVoid (sym level) no_void) a
    leave (suc k) t left e h a =
        deeper (record v { stack = left }) w parts k tag same_text valid valid_out root solid
          (sym (under-same tag t k left e) ∙ h) no_void a

within_kept :
    (e : Event) (es : List Event)
    → Within es
    → (v w : Validator) (parts : List Part) (n : ℕ) (tag : Text) → validated parts ≡ w
    → v.is_valid ≡ true
    → w.is_valid ≡ true
    → v.root_seen ≡ w.root_seen
    → is_void tag ≡ false
    → under tag n v.stack ≡ some w.stack
    → NoVoid w.stack
    → check e v ≡ v
    → accepts (validate es (check e v)) ≡ true
    → ResultOf es (within parts n tag)
within_kept e es rest v w parts n tag a b c d f g h still accepted =
    rest v w parts n tag a b c d f g h (subst (λ x. accepts (validate es x) ≡ true) still accepted)

pub step-Within :
    (e : Event) (es : List Event) → is_plain e ≡ true → Outside es → Within es → Within (e ∷ es)
unfolding validate clean clean_one emit_outside check
step-Within (start_tag u attrs) es p o r = start-Within u attrs es r
step-Within (startend_tag u attrs) es p o r = not_plain u attrs p
step-Within (end_tag u) es p o r = end-Within u es o r
step-Within (chars u) es p o r = λ v w parts n tag a b c d f g h k.
    within_kept (chars u) es r v w parts n tag a b c d f g h
      (confined_inside (has_ink u) tag n v.stack v g) k
step-Within (comment u) es p o r = λ v w parts n tag a b c d f g h k.
    within_kept (comment u) es r v w parts n tag a b c d f g h
      (confined_inside true tag n v.stack v g) k
step-Within (declaration u) es p o r = λ v w parts n tag a b c d f g h k.
    within_kept (declaration u) es r v w parts n tag a b c d f g h
      (confined_inside true tag n v.stack v g) k
step-Within (unknown_declaration u) es p o r = λ v w parts n tag a b c d f g h k.
    within_kept (unknown_declaration u) es r v w parts n tag a b c d f g h
      (confined_inside true tag n v.stack v g) k
step-Within (instruction u) es p o r = λ v w parts n tag a b c d f g h k.
    within_kept (instruction u) es r v w parts n tag a b c d f g h
      (confined_inside true tag n v.stack v g) k
step-Within (entity_ref u) es p o r =
    λ v w parts n tag a b c d f g h k. r v w parts n tag a b c d f g h k
step-Within (char_ref u) es p o r =
    λ v w parts n tag a b c d f g h k. r v w parts n tag a b c d f g h k
