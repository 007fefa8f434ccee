-- ===== src/Observability/Redaction.antt =====
-- `redact_value` of observability.py. `urlsplit` and `urlunsplit` are the operations of `Urls`;
-- `urlsplit` and the property `port` raise `ValueError` on some texts.
use football_prediction_craw.Prelude.{
  ℕ, Bool, true, false, not, ◌||◌, ◌&&◌, Option, none, some, String, str_eq, List, [], ◌∷◌, map,
  any, ◌==◌, if◌then◌else◌,
}
use Prim.Native.String
use football_prediction_craw.Prelude.Text.{codes, lower, contains}
use football_prediction_craw.Prelude.Result.{Result, ok, ◌>>=◌}
use football_prediction_craw.Observability.Json.{
  Json, null, boolean, number, text, array, object, other, Items, nil, cons, Fields, end, field,
}

pub data Error : Type 0 where
  value_error : Error

pub record Parts : Type 0 where
  pub scheme : String
  pub hostname : Option String
  -- the text of `parsed.port`, which may raise
  pub port : Result Error (Option String)
  pub path : String

pub record Urls : Type 0 where
  pub urlsplit : String → Result Error Parts
  -- `urlunsplit((scheme, netloc, path, "", ""))`
  pub urlunsplit : String → String → String → String

-- `_SENSITIVE_KEY_PARTS`
unfoldable pub sensitive_key_parts : List String
sensitive_key_parts =
    "account" ∷ "authorization" ∷ "cookie" ∷ "credential" ∷ "email" ∷ "identity" ∷ "password"
    ∷ "phone" ∷ "secret" ∷ "token" ∷ []

-- `c.replace("-", "_")`
abbrev underscore : ℕ → ℕ
underscore c = if c == b'-' then b'_' else c

-- `_is_sensitive_key`
unfoldable pub is_sensitive_key : String → Bool
unfolding lower contains sensitive_key_parts
is_sensitive_key key =
    let normalized = map underscore (lower (codes key)) in
    any (λ marker. contains (codes marker) normalized) sensitive_key_parts

-- `"url" in key.lower()`
unfoldable pub names_url : String → Bool
unfolding lower contains
names_url key = contains (codes "url") (lower (codes key))

module _ (urls : Urls) where
  open urls use {urlsplit, urlunsplit}

  abbrev with_port : String → Option String → String
  with_port host none = host
  with_port host (some port) = String.◌++◌ host (String.◌++◌ ":" port)

  -- the part of `_safe_url` after the tests
  unfoldable pub rebuilt : Parts → String → Result Error String
  rebuilt parsed host =
      parsed.port >>= λ port. ok (urlunsplit parsed.scheme (with_port host port) parsed.path)

  unfoldable pub checked : Parts → Option String → Result Error String
  checked parsed none = ok "[redacted]"
  checked parsed (some host) =
      if (str_eq parsed.scheme "http" || str_eq parsed.scheme "https") && not (str_eq host "")
      then rebuilt parsed host
      else ok "[redacted]"

  -- `_safe_url`
  unfoldable pub safe_url : String → Result Error String
  unfolding checked rebuilt
  safe_url value = urlsplit value >>= λ parsed. checked parsed parsed.hostname

  -- `redact_value(value, key=key)` of a text, when the key is not sensitive
  unfoldable pub redact_text : Bool → String → Result Error Json
  redact_text true s = safe_url s >>= λ url. ok (text url)
  redact_text false s = ok (text s)

  -- the test of the key, which comes first
  unfoldable pub guarded : String → Result Error Json → Result Error Json
  guarded key result = if is_sensitive_key key then ok (text "[redacted]") else result

  unfoldable mutual
    -- what `redact_value` does after the test of the key; the flag is `"url" in key.lower()`, and
    -- false without a key
    pub redact_inner : Bool → Json → Result Error Json
    redact_inner at_url null = ok null
    redact_inner at_url (boolean b) = ok (boolean b)
    redact_inner at_url (number n) = ok (number n)
    redact_inner at_url (text s) = redact_text at_url s
    redact_inner at_url (array xs) = redact_items xs >>= λ ys. ok (array ys)
    redact_inner at_url (object fs) = redact_fields fs >>= λ gs. ok (object gs)
    redact_inner at_url other = ok (text "[omitted]")

    -- the items of a list, without a key
    pub redact_items : Items → Result Error Items
    redact_items nil = ok nil
    redact_items (cons x xs) =
        redact_inner false x >>= λ y. redact_items xs >>= λ ys. ok (cons y ys)

    -- the values of a mapping, each under its key
    pub redact_fields : Fields → Result Error Fields
    redact_fields end = ok end
    redact_fields (field key value rest) =
        guarded key (redact_inner (names_url key) value) >>= λ safe.
        redact_fields rest >>= λ gs. ok (field key safe gs)

  -- `redact_value(value, key=key)`
  unfoldable pub redact_value : Option String → Json → Result Error Json
  redact_value none value = redact_inner false value
  redact_value (some key) value = guarded key (redact_inner (names_url key) value)
