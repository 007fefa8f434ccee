-- ===== src/Artifacts/Erasure.antt =====
-- What the sanitizer leaves out (browser_artifacts.py): a removed element with everything inside.
use football_prediction_craw.Prelude.{
  ℕ, zero, suc, ◌≡◌, refl, sym, ap, subst, ◌∙◌, true, Option, none, some, List, [], ◌∷◌, ◌++◌,
  if◌then◌else◌, arith, Bool-cases, inl, inr,
}
use football_prediction_craw.Prelude.Text.{lower}
use football_prediction_craw.Artifacts.Words.{
  Text, Attributes, Event, start_tag, startend_tag, end_tag, chars, comment, declaration,
  unknown_declaration, instruction, entity_ref, char_ref, same, same-eq, same_refl,
}
use football_prediction_craw.Artifacts.Sanitizer.{
  Part, Sanitizer, handle, feed, sanitized, is_removed, open_tag, close_tag, open_close_tag,
  emit_outside,
}

-- Inside an element: how many more elements of the tag are open after the events, from a number of
-- open ones; `none` once the element itself was closed.
unfoldable pub depth : Text → ℕ → List Event → Option ℕ
depth tag n [] = some n
depth tag n (start_tag u attrs ∷ es) = depth tag (if same (lower u) tag then suc n else n) es
depth tag zero (end_tag u ∷ es) =
    let rest = depth tag zero es in if same (lower u) tag then none else rest
depth tag (suc n) (end_tag u ∷ es) = depth tag (if same (lower u) tag then n else suc n) es
depth tag n (e ∷ es) = depth tag n es

-- the stack of `n` skipped elements of one tag
abbrev pub times : ℕ → Text → List Text
times zero tag = []
times (suc n) tag = tag ∷ times n tag

pub feed-append : (es fs : List Event) (s : Sanitizer) → feed (es ++ fs) s ≡ feed fs (feed es s)
unfolding feed
feed-append [] fs s = refl
feed-append (e ∷ es) fs s = feed-append es fs (handle e s)

some_inj : {a b : ℕ} → some a ≡ some b → a ≡ b
some_inj h = ground (arith, h)

skip :
    (tag : Text) (n m : ℕ) (es : List Event) (parts : List Part)
    → depth tag n es ≡ some m
    → feed es (record { parts = parts; skipped = times (suc n) tag })
      ≡ record { parts = parts; skipped = times (suc m) tag }
unfolding feed depth handle open_tag close_tag open_close_tag emit_outside
skip tag n m [] parts h =
    ap (λ k. record { parts = parts; skipped = times (suc k) tag }) (some_inj h)
skip tag n m (start_tag u attrs ∷ es) parts h = elim (Bool-cases (same (lower u) tag)) [
  | inl e ↦
      rw (e, same-eq (lower u) tag e)
        (skip tag (suc n) m es parts
          (subst (λ b. depth tag (if b then suc n else n) es ≡ some m) e h))
  | inr e ↦
      rw e (skip tag n m es parts (subst (λ b. depth tag (if b then suc n else n) es ≡ some m) e h))
]
skip tag zero m (end_tag u ∷ es) parts h = elim (Bool-cases (same (lower u) tag)) [
  | inl e ↦ ground (arith, h, e)
  | inr e ↦
      rw e (
        skip tag zero m es parts
          (subst (λ b. (if b then none else depth tag zero es) ≡ some m) e h))
]
skip tag (suc n) m (end_tag u ∷ es) parts h = elim (Bool-cases (same (lower u) tag)) [
  | inl e ↦
      rw e (skip tag n m es parts (subst (λ b. depth tag (if b then n else suc n) es ≡ some m) e h))
  | inr e ↦ rw e (
      skip tag (suc n) m es parts (subst (λ b. depth tag (if b then n else suc n) es ≡ some m) e h))
]
skip tag n m (startend_tag u attrs ∷ es) parts h = skip tag n m es parts h
skip tag n m (chars u ∷ es) parts h = skip tag n m es parts h
skip tag n m (comment u ∷ es) parts h = skip tag n m es parts h
skip tag n m (declaration u ∷ es) parts h = skip tag n m es parts h
skip tag n m (unknown_declaration u ∷ es) parts h = skip tag n m es parts h
skip tag n m (instruction u ∷ es) parts h = skip tag n m es parts h
skip tag n m (entity_ref u ∷ es) parts h = skip tag n m es parts h
skip tag n m (char_ref u ∷ es) parts h = skip tag n m es parts h

pub entered :
    (tag : Text) (attrs : Attributes) (rest : List Event) (parts : List Part)
    → is_removed (lower tag) ≡ true
    → feed (start_tag tag attrs ∷ rest) (record { parts = parts; skipped = [] })
      ≡ feed rest (record { parts = parts; skipped = lower tag ∷ [] })
unfolding feed handle open_tag
entered tag attrs rest parts gone = rw gone refl

erased :
    (tag close : Text) (attrs : Attributes) (inside after : List Event) (parts : List Part)
    → is_removed (lower tag) ≡ true
    → lower close ≡ lower tag
    → depth (lower tag) 0 inside ≡ some 0
    → feed
        (start_tag tag attrs ∷ (inside ++ (end_tag close ∷ after)))
        (record { parts = parts; skipped = [] })
      ≡ feed after (record { parts = parts; skipped = [] })
unfolding feed handle open_tag close_tag
erased tag close attrs inside after parts gone ends open_still =
    entered tag attrs (inside ++ (end_tag close ∷ after)) parts gone
    ∙ (feed-append inside (end_tag close ∷ after)
          (record { parts = parts; skipped = lower tag ∷ [] })
        ∙ ap (feed (end_tag close ∷ after)) (skip (lower tag) 0 0 inside parts open_still)
        ∙ rw (ends, same_refl) refl)

-- A removed element is left out with everything between its tags, whatever that is: the output is
-- that of the fragment without the element. The element begins outside every removed element, and
-- the events inside leave it open.
pub removed_element_is_erased :
    (tag close : Text) (attrs : Attributes) (before inside after : List Event)
    → is_removed (lower tag) ≡ true
    → lower close ≡ lower tag
    → (feed before (record { parts = []; skipped = [] })).skipped ≡ []
    → depth (lower tag) 0 inside ≡ some 0
    → sanitized (before ++ (start_tag tag attrs ∷ (inside ++ (end_tag close ∷ after))))
      ≡ sanitized (before ++ after)
unfolding sanitized
removed_element_is_erased tag close attrs before inside after gone ends outside open_still =
    let s = feed before (record { parts = []; skipped = [] }) in
    let whole : s ≡ record { parts = s.parts; skipped = [] } =
      ap (λ k. record { parts = s.parts; skipped = k }) outside in
    ap (λ x. x.parts)
      (feed-append before (start_tag tag attrs ∷ (inside ++ (end_tag close ∷ after)))
          (record { parts = []; skipped = [] })
        ∙ subst
            (λ x. feed (start_tag tag attrs ∷ (inside ++ (end_tag close ∷ after))) x ≡ feed after x)
            (sym whole) (erased tag close attrs inside after s.parts gone ends open_still)
        ∙ sym (feed-append before after (record { parts = []; skipped = [] })))

-- A removed tag that the fragment never closes, as the void tag `input`, swallows the rest of it: of
-- whatever follows, nothing is in the output, unless that tag is closed later.
pub unclosed_removed_tag_swallows :
    (tag : Text) (attrs : Attributes) (before after : List Event) (m : ℕ)
    → is_removed (lower tag) ≡ true
    → (feed before (record { parts = []; skipped = [] })).skipped ≡ []
    → depth (lower tag) 0 after ≡ some m
    → sanitized (before ++ (start_tag tag attrs ∷ after)) ≡ sanitized before
unfolding sanitized
unclosed_removed_tag_swallows tag attrs before after m gone outside open_still =
    let s = feed before (record { parts = []; skipped = [] }) in
    let whole : s ≡ record { parts = s.parts; skipped = [] } =
      ap (λ k. record { parts = s.parts; skipped = k }) outside in
    ap (λ x. x.parts)
      (feed-append before (start_tag tag attrs ∷ after) (record { parts = []; skipped = [] }))
    ∙ ap (λ x. (feed (start_tag tag attrs ∷ after) x).parts) whole
    ∙ ap (λ x. x.parts)
        (entered tag attrs after s.parts gone ∙ skip (lower tag) 0 m after s.parts open_still)
