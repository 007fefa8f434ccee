-- ===== src/Locking/Keys.antt =====
-- Lock keys of different sources and pages differ.
use Prim.Native.Char.{Char, code}
use Prim.Native.String
use text.Mathlib.TextLemmas.{append_cancel_left, append_assoc, nil-append, cons-append}
use football_prediction_craw.Prelude.{◌≡◌, refl, ap, ◌≢◌, true, false, String, all, arith, sym, ◌∙◌}
use football_prediction_craw.Prelude.Text.{codes}
use football_prediction_craw.Patterns.{is_source_id, source_char}
use football_prediction_craw.Locking.{source_lock_key, page_lock_key}

-- Different sources have different lock keys.
pub source_lock_key_injective : (s t : String) → source_lock_key s ≡ source_lock_key t → s ≡ t
unfolding source_lock_key
source_lock_key_injective s t e = append_cancel_left "crawler:lock:source:" s t e

-- A text of source characters, then a text that begins with another character, can be split in
-- one way only.
split_once :
    (s t p q : String) (colon : Char)
    → source_char (code colon) ≡ false
    → all source_char (codes s) ≡ true
    → all source_char (codes t) ≡ true
    → String.◌++◌ s (String.◌∷◌ colon p) ≡ String.◌++◌ t (String.◌∷◌ colon q)
    → (s ≡ t) × (p ≡ q)
split_once String.[] String.[] p q colon f hs ht e =
    (refl, cc (nil-append (String.◌∷◌ colon p), nil-append (String.◌∷◌ colon q)))
split_once String.[] (String.◌∷◌ d t) p q colon f hs ht e =
    let h : colon ≡ d =
      cc (nil-append (String.◌∷◌ colon p), cons-append d t (String.◌∷◌ colon q)) in
    let g : source_char (code d) ≡ true = ground arith in
    absurd (ground (arith, ap source_char (ap code h)))
split_once (String.◌∷◌ c s) String.[] p q colon f hs ht e =
    let h : c ≡ colon =
      cc (cons-append c s (String.◌∷◌ colon p), nil-append (String.◌∷◌ colon q)) in
    let g : source_char (code c) ≡ true = ground arith in
    absurd (ground (arith, ap source_char (ap code h)))
split_once (String.◌∷◌ c s) (String.◌∷◌ d t) p q colon f hs ht e =
    let h : c ≡ d =
      cc (cons-append c s (String.◌∷◌ colon p), cons-append d t (String.◌∷◌ colon q)) in
    let r : String.◌++◌ s (String.◌∷◌ colon p) ≡ String.◌++◌ t (String.◌∷◌ colon q) =
      cc (cons-append c s (String.◌∷◌ colon p), cons-append d t (String.◌∷◌ colon q)) in
    let hs' : all source_char (codes s) ≡ true = ground arith in
    let ht' : all source_char (codes t) ≡ true = ground arith in
    let (eq, rest) = split_once s t p q colon f hs' ht' r in (cc, rest)

source_chars : (s : String) → is_source_id s ≡ true → all source_char (codes s) ≡ true
unfolding is_source_id
source_chars String.[] h = refl
source_chars (String.◌∷◌ c s) h = h

abbrev colon : Char
colon = ":"

-- a page key, as the prefix of every lock key, the source, and a rest that begins with a colon
page_lock_key_lem :
    (s p : String)
    → page_lock_key s p
      ≡ String.◌++◌ "crawler:lock:source:"
          (String.◌++◌ s (String.◌∷◌ colon (String.◌++◌ "page:" p)))
unfolding page_lock_key source_lock_key
page_lock_key_lem s p =
    append_assoc (String.◌++◌ "crawler:lock:source:" s) ":page:" p
    ∙ append_assoc "crawler:lock:source:" s (String.◌++◌ ":page:" p)
    ∙ ap (λ (r : String). String.◌++◌ "crawler:lock:source:" (String.◌++◌ s r))
        (cons-append colon "page:" p)

-- Among sources with valid identifiers, page locks of different sources or pages have different
-- keys.
pub page_lock_key_injective :
    (s t p q : String)
    → is_source_id s ≡ true
    → is_source_id t ≡ true
    → page_lock_key s p ≡ page_lock_key t q
    → (s ≡ t) × (p ≡ q)
unfolding source_char
page_lock_key_injective s t p q hs ht e =
    let r =
      append_cancel_left "crawler:lock:source:" _ _
        (sym (page_lock_key_lem s p) ∙ e ∙ page_lock_key_lem t q) in
    let (same, rest) = split_once s t _ _ colon refl (source_chars s hs) (source_chars t ht) r in
    (same, append_cancel_left "page:" p q rest)

all-colon : (s r : String) → all source_char (codes (String.◌++◌ s (String.◌∷◌ colon r))) ≡ false
unfolding source_char
all-colon String.[] r = rw nil-append
all-colon (String.◌∷◌ c s) r = rw cons-append (ground (arith, all-colon s r))

-- The lock key of a source with a valid identifier is not the key of any page lock.
pub source_lock_key-ne-page_lock_key :
    (t s p : String) → is_source_id t ≡ true → source_lock_key t ≢ page_lock_key s p
unfolding source_lock_key
source_lock_key-ne-page_lock_key t s p h e =
    let r = append_cancel_left "crawler:lock:source:" _ _ (e ∙ page_lock_key_lem s p) in
    cc (
      ap (λ (x : String). all source_char (codes x)) r,
      all-colon s (String.◌++◌ "page:" p),
      source_chars t h,
    )
