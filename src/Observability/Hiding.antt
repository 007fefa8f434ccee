-- ===== src/Observability/Hiding.antt =====
-- What a redacted value cannot show.
use football_prediction_craw.Prelude.{◌≡◌, refl, Bool, false, if◌then◌else◌, Bool-cases, inl, inr}
use football_prediction_craw.Observability.Json.{
  Json, null, boolean, number, text, array, object, other, Items, nil, cons, Fields, end, field,
}
use football_prediction_craw.Observability.Redaction.{
  Urls, is_sensitive_key, names_url, guarded, redact_inner, redact_items, redact_fields,
}

-- A value with everything under a sensitive key replaced by `null`, and every foreign object too.
unfoldable mutual
  pub blank : Json → Json
  blank null = null
  blank (boolean b) = boolean b
  blank (number n) = number n
  blank (text s) = text s
  blank (array xs) = array (blank_items xs)
  blank (object fs) = object (blank_fields fs)
  blank other = other

  pub blank_items : Items → Items
  blank_items nil = nil
  blank_items (cons x xs) = cons (blank x) (blank_items xs)

  pub blank_fields : Fields → Fields
  blank_fields end = end
  blank_fields (field key value rest) =
      let inner = blank value in
      field key (if is_sensitive_key key then null else inner) (blank_fields rest)

module _ (urls : Urls) where
  mutual
    unfolding redact_inner redact_items redact_fields guarded blank blank_items blank_fields

    redact_inner-blank :
        (at_url : Bool) (v : Json) → redact_inner urls at_url (blank v) ≡ redact_inner urls at_url v
    redact_inner-blank at_url null = refl
    redact_inner-blank at_url (boolean b) = refl
    redact_inner-blank at_url (number n) = refl
    redact_inner-blank at_url (text s) = refl
    redact_inner-blank at_url (array xs) = rw (redact_items-blank xs) refl
    redact_inner-blank at_url (object fs) = rw (redact_fields-blank fs) refl
    redact_inner-blank at_url other = refl

    redact_items-blank : (xs : Items) → redact_items urls (blank_items xs) ≡ redact_items urls xs
    redact_items-blank nil = refl
    redact_items-blank (cons x xs) = rw (redact_inner-blank false x, redact_items-blank xs) refl

    pub redact_fields-blank :
        (fs : Fields) → redact_fields urls (blank_fields fs) ≡ redact_fields urls fs
    redact_fields-blank end = refl
    redact_fields-blank (field key value rest) = elim (Bool-cases (is_sensitive_key key)) [
      | inl e ↦ rw (e, redact_fields-blank rest) refl
      | inr e ↦ rw (e, redact_inner-blank (names_url key) value, redact_fields-blank rest) refl
    ]
