-- ===== src/Artifacts/Words.antt =====
-- Texts as code points, and the calls of an `HTMLParser`'s handlers.
use football_prediction_craw.Prelude.{
  ℕ, ◌≡◌, refl, ap, Bool, true, false, not, ◌&&◌, ◌||◌, Option, List, [], ◌∷◌, any, ◌==◌, leb,
  ==_iff, arith,
}
use football_prediction_craw.Prelude.Text.{codes, lower, lower_char, is_upper}

abbrev pub Text : Type 0
Text = List ℕ

abbrev pub Attributes : Type 0
Attributes = List (Text × Option Text)

-- the handlers' calls; `convert_charrefs` keeps the parser from the two calls on references
pub data Event : Type 0 where
  start_tag startend_tag : Text → Attributes → Event
  end_tag : Text → Event
  chars comment declaration unknown_declaration instruction : Text → Event
  entity_ref char_ref : Text → Event

unfoldable pub same : Text → Text → Bool
same [] [] = true
same [] (d ∷ t) = false
same (c ∷ s) [] = false
same (c ∷ s) (d ∷ t) = c == d && same s t

pub same-eq : (s t : Text) → same s t ≡ true → s ≡ t
unfolding same
same-eq [] [] h = refl
same-eq [] (d ∷ t) h = ground (arith, h)
same-eq (c ∷ s) [] h = ground (arith, h)
same-eq (c ∷ s) (d ∷ t) h = ground (arith, same-eq s t, ==_iff c d)

pub same_refl : (s : Text) → same s s ≡ true
unfolding same
same_refl [] = refl
same_refl (c ∷ s) = ground (arith, same_refl s)

-- `word in words`
unfoldable pub one_of : List Text → Text → Bool
one_of words word = any (λ w. same w word) words

-- white space of `str.strip`
unfoldable pub is_space : ℕ → Bool
is_space c = c == 32 || (leb 9 c && leb c 13) || (leb 28 c && leb c 31)

-- the truth of `text.strip()`
unfoldable pub has_ink : Text → Bool
has_ink text = any (λ c. not (is_space c)) text

lower_char_idempotent : (c : ℕ) → lower_char (lower_char c) ≡ lower_char c
unfolding lower_char is_upper
lower_char_idempotent c = ground arith

pub lower_idempotent : (s : Text) → lower (lower s) ≡ lower s
unfolding lower
lower_idempotent [] = refl
lower_idempotent (c ∷ s) =
    rw (lower_char_idempotent c) (ap (λ t. lower_char c ∷ t) (lower_idempotent s))

-- `_VOID_TAGS`
unfoldable pub void_tags : List Text
void_tags = codes "br" ∷ codes "hr" ∷ codes "img" ∷ codes "input" ∷ codes "meta" ∷ codes "link" ∷ []
