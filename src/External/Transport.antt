-- ===== src/External/Transport.antt =====
-- What one HTTP request comes to, and the reading of its body:
-- src/boolean_maybe/external/_transport.py. Texts that are only compared are numbered, and so are
-- the literals that they are compared with. `loads` is `canonical_json.loads_strict` on the decoded
-- bytes, `none` where either raises; the sockets behind `send_request` are its result.
use boolean_maybe.Prelude.{
  ℕ, ◌+◌, Bool, true, false, ◌&&◌, leb, Option, none, some, List, [], ◌∷◌, any, all, ◌==◌,
  if◌then◌else◌,
}
use boolean_maybe.Domain.RetryAfter.{Text, strip, lstrip}
use boolean_maybe.Persistence.Rows.{Ident, Bytes}
use boolean_maybe.External.Literal

pub record TransportResponse : Type 0 where
  pub status : ℕ
  pub content_type : Option Text
  pub retry_after_values : List Text
  pub body : Option Bytes

pub data TransportOutcome : Type 0 where
  response : TransportResponse → TransportOutcome
  connect_failed failed : TransportOutcome

-- A parsed document; numbers, arrays and `null` are alike here.
mutual
  pub data Json : Type 0 where
    string : Ident → Json
    boolean : Bool → Json
    object : Members → Json
    other : Json

  pub data Members : Type 0 where
    end : Members
    member : Ident → Json → Members → Members

-- `re.IGNORECASE` on header values, which are latin-1: the case of ASCII letters.
abbrev lower : ℕ → ℕ
lower c = if leb b'A' c && leb c b'Z' then c + 32 else c

-- The text without the prefix, if it has it in any case.
unfoldable pub after_prefix : Text → Text → Option Text
after_prefix [] text = some text
after_prefix (p ∷ prefix) [] = none
after_prefix (p ∷ prefix) (c ∷ text) = if lower c == p then after_prefix prefix text else none

abbrev application_json : Text
application_json =
    b'a' ∷ b'p' ∷ b'p' ∷ b'l' ∷ b'i' ∷ b'c' ∷ b'a' ∷ b't' ∷ b'i' ∷ b'o' ∷ b'n' ∷ b'/' ∷ b'j' ∷ b's'
    ∷ b'o' ∷ b'n' ∷ []

abbrev charset_utf8 : Text
charset_utf8 =
    b'c' ∷ b'h' ∷ b'a' ∷ b'r' ∷ b's' ∷ b'e' ∷ b't' ∷ b'=' ∷ b'u' ∷ b't' ∷ b'f' ∷ b'-' ∷ b'8' ∷ []

abbrev is_end : Option Text → Bool
is_end (some []) = true
is_end _ = false

abbrev after_semicolon : Text → Bool
after_semicolon [] = false
after_semicolon (c ∷ rest) = c == b';' && is_end (after_prefix charset_utf8 (lstrip rest))

abbrev parameters : Option Text → Bool
parameters none = false
parameters (some []) = true
parameters (some (c ∷ rest)) = after_semicolon (lstrip (c ∷ rest))

-- `CONTENT_TYPE_JSON_RE.match(content_type.strip())`.
unfoldable pub has_json_content_type : Option Text → Bool
unfolding strip lstrip after_prefix
has_json_content_type none = false
has_json_content_type (some value) = parameters (after_prefix application_json (strip value))

unfoldable pub keys : Members → List Ident
keys end = []
keys (member name value rest) = name ∷ keys rest

-- `parsed.get(name)`.
unfoldable pub lookup : Ident → Members → Option Json
lookup name end = none
lookup name (member n value rest) = if n == name then some value else lookup name rest

abbrev among : List Ident → Ident → Bool
among names name = any (λ n. n == name) names

-- `set(parsed.keys()) == expected`.
unfoldable pub has_exactly : List Ident → Members → Bool
unfolding keys
has_exactly expected m = all (among expected) (keys m) && all (among (keys m)) expected

-- The string under a name.
unfoldable pub string_at : Ident → Members → Option Ident
unfolding lookup
string_at name m = elim (lookup name m) [ some (string text) ↦ some text | _ ↦ none ]

-- `parsed.get(name) == text`.
unfoldable pub is_text : Ident → Ident → Members → Bool
unfolding string_at
is_text name text m = elim (string_at name m) [ some found ↦ found == text | none ↦ false ]

abbrev pub is_some : Option Ident → Bool
is_some none = false
is_some (some _) = true

abbrev error_of : Option Json → Option Members
error_of (some (object m)) = some m
error_of _ = none

abbrev well_formed : List Ident → Option Members → Option Members
well_formed expected_keys none = none
well_formed expected_keys (some e) =
    if has_exactly expected_keys e
      && is_some (string_at Literal.code e)
      && is_some (string_at Literal.message e)
    then some e
    else none

abbrev envelope : List Ident → Option Members → Option Members
envelope expected_keys none = none
envelope expected_keys (some m) =
    if has_exactly (Literal.error ∷ []) m
    then well_formed expected_keys (error_of (lookup Literal.error m))
    else none

module _ (loads : Bytes → Option Json) where
  unfoldable pub parse_json_object : Bytes → Option Members
  parse_json_object body = elim (loads body) [ some (object m) ↦ some m | _ ↦ none ]

  unfoldable pub parse_error_envelope : List Ident → Option Bytes → Option Members
  unfolding parse_json_object has_exactly lookup string_at
  parse_error_envelope expected_keys none = none
  parse_error_envelope expected_keys (some body) = envelope expected_keys (parse_json_object body)
