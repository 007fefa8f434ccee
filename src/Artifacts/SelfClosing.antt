-- ===== src/Artifacts/SelfClosing.antt =====
-- Self-closing tags in the validator (browser_artifacts.py).
use football_prediction_craw.Prelude.{
  ◌≡◌, refl, sym, ap, subst, ◌∙◌, Bool, true, false, ◌||◌, List, [], ◌∷◌, ◌++◌, if◌then◌else◌,
  arith, Bool-cases, inl, inr,
}
use football_prediction_craw.Prelude.Text.{codes, lower}
use football_prediction_craw.Artifacts.Words.{
  Text, Attributes, Event, start_tag, startend_tag, end_tag, chars, comment, declaration,
  unknown_declaration, instruction, entity_ref, char_ref, same, same-eq, one_of, void_tags, has_ink,
}
use football_prediction_craw.Artifacts.Validator.{
  Validator, is_void, is_valid, accepts, fresh, feed as validate, handle as check, push, open_tag,
  close_tag, handle_starttag, handle_endtag, handle_startendtag,
}
use football_prediction_craw.Artifacts.Shape.{
  validate-invalid, validate-append, NoVoid, opened-NoVoid, closed-NoVoid, confined-stack,
}

closed_after-NoVoid :
    (tag : Text) (v : Validator) → NoVoid v.stack → NoVoid (handle_startendtag tag v).stack
unfolding handle_startendtag handle_starttag handle_endtag
closed_after-NoVoid tag v h =
    let opened = open_tag (lower tag) v.stack v in
    let kept = opened-NoVoid (lower tag) v.stack v h in
    elim (Bool-cases opened.is_valid) [
      | inl e ↦ rw e (closed-NoVoid (lower tag) opened.stack opened kept kept)
      | inr e ↦ rw e kept
    ]

check-NoVoid : (e : Event) (v : Validator) → NoVoid v.stack → NoVoid (check e v).stack
unfolding check handle_starttag handle_endtag
check-NoVoid (start_tag u attrs) v h = opened-NoVoid (lower u) v.stack v h
check-NoVoid (end_tag u) v h = closed-NoVoid (lower u) v.stack v h h
check-NoVoid (startend_tag u attrs) v h = closed_after-NoVoid u v h
check-NoVoid (chars u) v h = subst NoVoid (sym (confined-stack (has_ink u) v.stack v)) h
check-NoVoid (comment u) v h = subst NoVoid (sym (confined-stack true v.stack v)) h
check-NoVoid (declaration u) v h = subst NoVoid (sym (confined-stack true v.stack v)) h
check-NoVoid (unknown_declaration u) v h = subst NoVoid (sym (confined-stack true v.stack v)) h
check-NoVoid (instruction u) v h = subst NoVoid (sym (confined-stack true v.stack v)) h
check-NoVoid (entity_ref u) v h = h
check-NoVoid (char_ref u) v h = h

validate-NoVoid : (es : List Event) (v : Validator) → NoVoid v.stack → NoVoid (validate es v).stack
unfolding validate
validate-NoVoid [] v h = h
validate-NoVoid (e ∷ es) v h = validate-NoVoid es (check e v) (check-NoVoid e v h)

table_is_solid : is_void (codes "table") ≡ false
unfolding is_void one_of void_tags same
table_is_solid = refl

-- a void tag is not the root
root_is_solid : (tag : Text) → is_void tag ≡ true → same tag (codes "table") ≡ false
root_is_solid tag h = elim (Bool-cases (same tag (codes "table"))) [
  | inl e ↦
      ground
        (arith, subst (λ t. is_void t ≡ true) (same-eq tag (codes "table") e) h, table_is_solid)
  | inr e ↦ e
]

or_true : (b : Bool) → (b || true) ≡ true
or_true b = ground arith

-- one void element that closes itself
refuses :
    (tag : Text) (st : List Text) (v : Validator)
    → is_void tag ≡ true
    → NoVoid st
    → v.stack ≡ st
    → (if (open_tag tag st v).is_valid
        then close_tag tag (open_tag tag st v).stack (open_tag tag st v)
        else open_tag tag st v).is_valid
      ≡ false
unfolding open_tag push close_tag
refuses tag [] v hollow n same_stack = rw (root_is_solid tag hollow, or_true v.root_seen) refl
refuses tag (top ∷ below) v hollow n same_stack = elim (Bool-cases v.is_valid) [
  | inl valid ↦ elim (Bool-cases (same top tag)) [
    | inl e ↦ ground (arith, subst (λ t. is_void t ≡ false) (same-eq top tag e) n.0, hollow)
    | inr e ↦ rw (hollow, same_stack, valid, e) refl
  ]
  | inr broken ↦ rw (hollow, same_stack, broken) refl
]

-- A void element in the self-closing form, such as `<br/>`, makes every fragment that has it
-- invalid: the validator looks for the element among the open ones, where void elements never are.
pub self_closing_void_is_rejected :
    (tag : Text) (attrs : Attributes) (before after : List Event)
    → is_void (lower tag) ≡ true
    → is_valid (before ++ (startend_tag tag attrs ∷ after)) ≡ false
unfolding is_valid fresh validate check handle_startendtag handle_starttag handle_endtag
self_closing_void_is_rejected tag attrs before after hollow =
    let v = validate before fresh in
    ap accepts (validate-append before (startend_tag tag attrs ∷ after) fresh)
    ∙ validate-invalid after (check (startend_tag tag attrs) v)
        (refuses (lower tag) v.stack v hollow (validate-NoVoid before fresh tt) refl)
