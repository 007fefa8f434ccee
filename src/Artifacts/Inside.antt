-- ===== src/Artifacts/Inside.antt =====
-- The two parsers inside a removed element (browser_artifacts.py).
use football_prediction_craw.Prelude.{
  ℕ, zero, suc, ◌≡◌, refl, ap, Bool, true, false, some, List, [], ◌∷◌, arith, Bool-cases, inl, inr,
}
use football_prediction_craw.Prelude.Text.{lower}
use football_prediction_craw.Artifacts.Words.{
  Text, Attributes, Event, start_tag, end_tag, same, same-eq,
}
use football_prediction_craw.Artifacts.Sanitizer.{
  Part, feed as clean, handle as clean_one, open_tag as clean_open, close_tag as clean_close,
}
use football_prediction_craw.Artifacts.Validator.{Validator, push, open_tag, close_tag, inside_only}
use football_prediction_craw.Artifacts.Erasure.{times}
use football_prediction_craw.Artifacts.Shape.{under, within}

-- inside a removed element some element is open
pub opened_inside :
    (tag u : Text) (n : ℕ) (st : List Text) (v : Validator) {out : List Text}
    → under tag n st ≡ some out
    → open_tag u st v ≡ push u v
unfolding under open_tag
opened_inside tag u n [] v h = ground (arith, h)
opened_inside tag u n (top ∷ below) v h = refl

pub confined_inside :
    (refused : Bool) (tag : Text) (n : ℕ) (st : List Text) (v : Validator) {out : List Text}
    → under tag n st ≡ some out
    → inside_only refused st v ≡ v
unfolding under inside_only
confined_inside refused tag n [] v h = ground (arith, h)
confined_inside refused tag n (top ∷ below) v h = refl

pub under-other :
    (tag u : Text) (n : ℕ) (st : List Text)
    → same u tag ≡ false
    → under tag n (u ∷ st) ≡ under tag n st
unfolding under
under-other tag u zero st e = rw e refl
under-other tag u (suc n) st e = rw e refl

pub under-same :
    (tag u : Text) (n : ℕ) (st : List Text)
    → same u tag ≡ true
    → under tag (suc n) (u ∷ st) ≡ under tag n st
unfolding under
under-same tag u n st e = rw e refl

pub under_first :
    (tag u : Text) (st : List Text) → same u tag ≡ true → under tag 0 (u ∷ st) ≡ some st
unfolding under
under_first tag u st e = rw e refl

-- an end tag that is taken closes the top of the stack
pub closed_top :
    (u : Text) (st : List Text) (v : Validator)
    → (close_tag u st v).is_valid ≡ true
    → (below : List Text) × (st ≡ u ∷ below) × (close_tag u st v ≡ record v { stack = below })
unfolding close_tag
closed_top u [] v h = ground (arith, h)
closed_top u (top ∷ below) v h = elim (Bool-cases (same top u)) [
  | inl e ↦ (below, ap (λ t. t ∷ below) (same-eq top u e), rw e refl)
  | inr e ↦ ground (arith, h, e)
]

pub clean-nested :
    (u : Text) (attrs : Attributes) (es : List Event) (parts : List Part) (n : ℕ) (tag : Text)
    → same (lower u) tag ≡ true
    → clean (start_tag u attrs ∷ es) (within parts n tag) ≡ clean es (within parts (suc n) tag)
unfolding clean clean_one clean_open
clean-nested u attrs es parts n tag e = rw (e, same-eq (lower u) tag e) refl

pub clean-ignored :
    (u : Text) (attrs : Attributes) (es : List Event) (parts : List Part) (n : ℕ) (tag : Text)
    → same (lower u) tag ≡ false
    → clean (start_tag u attrs ∷ es) (within parts n tag) ≡ clean es (within parts n tag)
unfolding clean clean_one clean_open
clean-ignored u attrs es parts n tag e = rw e refl

pub clean-left :
    (u : Text) (es : List Event) (parts : List Part) (n : ℕ) (tag : Text)
    → same (lower u) tag ≡ true
    → clean (end_tag u ∷ es) (within parts n tag)
      ≡ clean es (record { parts = parts; skipped = times n tag })
unfolding clean clean_one clean_close
clean-left u es parts n tag e = rw e refl

pub clean-passed :
    (u : Text) (es : List Event) (parts : List Part) (n : ℕ) (tag : Text)
    → same (lower u) tag ≡ false
    → clean (end_tag u ∷ es) (within parts n tag) ≡ clean es (within parts n tag)
unfolding clean clean_one clean_close
clean-passed u es parts n tag e = rw e refl
