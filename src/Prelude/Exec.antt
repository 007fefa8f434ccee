-- ===== src/Prelude/Exec.antt =====
-- Methods that change a state and may raise. What was changed before a raise stays changed, so the
-- state comes back beside the exception too.
use mathlib.Core.Path.{◌≡◌, ap}
use football_prediction_craw.Prelude.Result.{Result, ok, err}

abbrev pub Exec : Type 0 → Type 0 → Type 0 → Type 0
Exec E S A = S → Result E A × S

module _ {E S A : Type 0} where
  abbrev pub pure : A → Exec E S A
  pure a s = (ok a, s)

  abbrev pub raise : E → Exec E S A
  raise e s = (err e, s)

  -- a computation that touches no state
  abbrev pub lift : Result E A → Exec E S A
  lift r s = (r, s)

-- what follows a computation that came back with a result and a state
abbrev pub after : {E S A B : Type 0} → (A → Exec E S B) → Result E A → S → Result E B × S
after f (ok a) t = f a t
after f (err e) t = (err e, t)

infixl 5 ◌>>=◌ ◌>>◌
abbrev pub ◌>>=◌ : {E S A B : Type 0} → Exec E S A → (A → Exec E S B) → Exec E S B
◌>>=◌ m f s = let (r, t) = m s in after f r t

abbrev pub ◌>>◌ : {E S A B : Type 0} → Exec E S A → Exec E S B → Exec E S B
m >> k = m >>= λ _. k

abbrev pub modify : {E S : Type 0} → (S → S) → Exec E S (Unit {0})
modify f s = (ok tt, f s)

module _ {E S A B : Type 0} where
  pub bind_ok :
      (m : Exec E S A) (f : A → Exec E S B) {s : S} {a : A} {t : S}
      → m s ≡ (ok a, t)
      → (m >>= f) s ≡ f a t
  bind_ok m f h = ap (λ x. after f x.0 x.1) h

  pub bind_err :
      (m : Exec E S A) (f : A → Exec E S B) {s : S} {e : E} {t : S}
      → m s ≡ (err e, t)
      → (m >>= f) s ≡ (err e, t)
  bind_err m f h = ap (λ x. after f x.0 x.1) h

-- what an exception handler makes of a result and a state
abbrev pub caught : {E S A : Type 0} → (E → Exec E S A) → Result E A → S → Result E A × S
caught handler (ok a) t = (ok a, t)
caught handler (err e) t = handler e t

-- `try: m except error: handler(error)`
abbrev pub catch : {E S A : Type 0} → Exec E S A → (E → Exec E S A) → Exec E S A
catch m handler s = let (r, t) = m s in caught handler r t

pub catch_ok :
    {E S A : Type 0} (m : Exec E S A) (handler : E → Exec E S A) {s : S} {a : A} {t : S}
    → m s ≡ (ok a, t)
    → catch m handler s ≡ (ok a, t)
catch_ok m handler h = ap (λ x. caught handler x.0 x.1) h

pub catch_err :
    {E S A : Type 0} (m : Exec E S A) (handler : E → Exec E S A) {s : S} {e : E} {t : S}
    → m s ≡ (err e, t)
    → catch m handler s ≡ handler e t
catch_err m handler h = ap (λ x. caught handler x.0 x.1) h

-- `try: m finally: cleanup`, of a cleanup that does not raise
abbrev pub finally : {E S A : Type 0} → Exec E S A → (S → S) → Exec E S A
finally m cleanup s = let (r, t) = m s in (r, cleanup t)
