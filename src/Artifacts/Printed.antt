-- ===== src/Artifacts/Printed.antt =====
-- The parts of an accepted table, written out (browser_artifacts.py).
use football_prediction_craw.Prelude.{
  ◌≡◌, refl, sym, subst, Bool, true, false, List, [], ◌∷◌, ◌++◌, map, All, if◌then◌else◌, arith,
  Bool-cases, inl, inr,
}
use football_prediction_craw.Prelude.Text.{codes}
use football_prediction_craw.Artifacts.Words.{
  Text, Attributes, start_tag, end_tag, chars, same, same-eq, one_of, void_tags, has_ink,
}
use football_prediction_craw.Artifacts.Sanitizer.{
  Part, opening, closing, content, entity, character, escape, written, written_attributes, joined,
}
use football_prediction_craw.Artifacts.Validator.{
  Validator, is_void, accepts, feed as validate, handle as check, push, open_tag, close_tag,
  handle_starttag, handle_endtag, inside_only,
}
use football_prediction_craw.Artifacts.Shape.{call_of, going, stays_valid}
use football_prediction_craw.Artifacts.Inside.{closed_top}
use football_prediction_craw.Artifacts.Grammar.{
  TableText, finished, table_begins, element_begins, void_element, element_ends, text_inside,
  space_outside, named_reference, numbered_reference, opening_text, closing_text,
}
use football_prediction_craw.Artifacts.Parts.{IsKept, escaped-NoDelimiter, escaped_blank}

-- the first tag of an accepted text
first_tag :
    (begun : Bool) (tag : Text)
    → (open_tag tag [] (going begun [])).is_valid ≡ true
    → (begun ≡ false) × (tag ≡ codes "table")
unfolding open_tag push
first_tag true tag h = ground (arith, h)
first_tag false tag h = elim (Bool-cases (same tag (codes "table"))) [
  | inl e ↦ (refl, same-eq tag (codes "table") e)
  | inr e ↦ ground (arith, h, e)
]

first_stack : open_tag (codes "table") [] (going false []) ≡ going true (codes "table" ∷ [])
unfolding open_tag push is_void one_of void_tags same
first_stack = refl

-- what the induction gives for the parts that follow
abbrev Follow : List Part → Type 0
Follow ps =
    (begun : Bool) (st : List Text)
    → accepts (validate (map call_of ps) (going begun st)) ≡ true
    → TableText begun st (joined ps)

module _ (ps : List Part) (follow : Follow ps) where
  abbrev Accepted : Validator → Type 0
  Accepted v = accepts (validate (map call_of ps) v) ≡ true

  opening-Follow :
      (tag : Text) (attrs : Attributes)
      → IsKept (opening tag attrs)
      → Follow (opening tag attrs ∷ ps)
  unfolding validate check call_of handle_starttag push joined written
  opening-Follow tag attrs (fixed, named, allowed, kept) begun [] h =
      let h₁ = subst (λ t. Accepted (open_tag t [] (going begun []))) fixed h in
      let valid = stays_valid (start_tag tag attrs) (map call_of ps) (going begun []) h in
      let (fresh, is_table) =
        first_tag begun tag
          (subst (λ t. (open_tag t [] (going begun [])).is_valid ≡ true) fixed valid) in
      let h₂ =
        subst (λ v. Accepted v) first_stack
          (subst (λ t. Accepted (open_tag t [] (going false []))) is_table
            (subst (λ b. Accepted (open_tag tag [] (going b []))) fresh h₁)) in
      subst (λ b. TableText b [] (opening_text tag (written_attributes attrs) ++ joined ps))
        (sym fresh)
        (subst (λ t. TableText false [] (opening_text t (written_attributes attrs) ++ joined ps))
          (sym is_table)
          (table_begins (written_attributes attrs) (joined ps) kept
            (follow true (codes "table" ∷ []) h₂)))
  opening-Follow tag attrs (fixed, named, allowed, kept) begun (top ∷ below) h =
      let h₁ = subst (λ t. Accepted (push t (going begun (top ∷ below)))) fixed h in
      let pushed : Bool → Type 0 =
        λ b. Accepted (if b then going begun (top ∷ below) else going begun (tag ∷ top ∷ below)) in
      elim (Bool-cases (is_void tag)) [
        | inl e ↦
            void_element begun tag top below (written_attributes attrs) (joined ps) named allowed e
              kept (follow begun (top ∷ below) (subst pushed e h₁))
        | inr e ↦
            element_begins begun tag top below (written_attributes attrs) (joined ps) named allowed
              e kept (follow begun (tag ∷ top ∷ below) (subst pushed e h₁))
      ]

  closing-Follow : (tag : Text) → IsKept (closing tag) → Follow (closing tag ∷ ps)
  unfolding validate check call_of handle_endtag joined written
  closing-Follow tag fixed begun st h =
      let h₁ = subst (λ t. Accepted (close_tag t st (going begun st))) fixed h in
      let valid = stays_valid (end_tag tag) (map call_of ps) (going begun st) h in
      let (below, stack_is, closed) =
        closed_top tag st (going begun st)
          (subst (λ t. (close_tag t st (going begun st)).is_valid ≡ true) fixed valid) in
      subst (λ s. TableText begun s (closing_text tag ++ joined ps)) (sym stack_is)
        (element_ends begun tag below (joined ps)
          (follow begun below (subst (λ v. Accepted v) closed h₁)))

  content-Follow : (text : Text) → Follow (content text ∷ ps)
  unfolding validate check call_of inside_only joined written
  content-Follow text begun (top ∷ below) h =
      text_inside begun top below (escape text) (joined ps) (escaped-NoDelimiter text)
        (follow begun (top ∷ below) h)
  content-Follow text begun [] h = elim (Bool-cases (has_ink text)) [
    | inl e ↦
        let valid = stays_valid (chars text) (map call_of ps) (going begun []) h in
        ground (arith, valid, e)
    | inr e ↦
        space_outside begun (escape text) (joined ps)
          (subst (λ t. has_ink t ≡ false) (sym (escaped_blank text e)) e) (escaped-NoDelimiter text)
          (follow begun [] (subst (λ b. Accepted (inside_only b [] (going begun []))) e h))
  ]

  part-Follow : (p : Part) → IsKept p → Follow (p ∷ ps)
  unfolding validate check call_of joined written
  part-Follow (opening tag attrs) k = opening-Follow tag attrs k
  part-Follow (closing tag) k = closing-Follow tag k
  part-Follow (content text) k = content-Follow text
  part-Follow (entity name) k =
      λ begun st h. named_reference begun st name (joined ps) k (follow begun st h)
  part-Follow (character name) k =
      λ begun st h. numbered_reference begun st name (joined ps) k (follow begun st h)

pub printed-TableText : (ps : List Part) → All IsKept ps → Follow ps
unfolding validate accepts joined
printed-TableText [] k true [] h = finished
printed-TableText [] k false st h = ground (arith, h)
printed-TableText [] k true (t ∷ st) h = ground (arith, h)
printed-TableText (p ∷ ps) k begun st h = part-Follow ps (printed-TableText ps k.1) p k.0 begun st h
