-- ===== src/Simulator/ReconciliationPath.antt =====
-- The key in a reconciliation request's path: `decode_reconciliation_key` of
-- src/boolean_maybe/simulator/idempotency.py. `none` is the `ValueError`; `decode_utf8` is the
-- standard library's decoder, with `none` for a `UnicodeDecodeError`.
pub mod RoundTrip
use boolean_maybe.Prelude.{
  ℕ, ◌+◌, ◌-◌, ◌*◌, Bool, true, false, ◌&&◌, Option, none, some, List, [], ◌∷◌, ltb, leb, ◌==◌,
  if◌then◌else◌,
}
use boolean_maybe.Domain.RetryAfter.{Text}
use boolean_maybe.Domain.IdempotencyKey.{is_accepted_key}

-- `int` of one hexadecimal digit, and `none` of any other character.
unfoldable pub hex_value : ℕ → Option ℕ
hex_value c =
    if leb b'0' c && leb c b'9'
    then some (c - b'0')
    else if leb b'A' c && leb c b'F'
    then some (c - b'A' + 10)
    else if leb b'a' c && leb c b'f'
    then some (c - b'a' + 10)
    else none

abbrev with_byte : ℕ → Option (List ℕ) → Option (List ℕ)
with_byte byte none = none
with_byte byte (some bytes) = some (byte ∷ bytes)

abbrev escaped : Option ℕ → Option ℕ → Option (List ℕ) → Option (List ℕ)
escaped (some high) (some low) rest = with_byte (high * 16 + low) rest
escaped _ _ rest = none

abbrev literal : ℕ → Option (List ℕ) → Option (List ℕ)
literal c rest = if ltb 127 c then none else with_byte c rest

-- The loop over the segment; a percent sign wants two characters behind it.
unfoldable pub decode_bytes : Text → Option (List ℕ)
unfolding hex_value
decode_bytes [] = some []
decode_bytes (c ∷ []) = if c == b'%' then none else literal c (some [])
decode_bytes (c ∷ a ∷ []) =
    let rest = decode_bytes (a ∷ []) in if c == b'%' then none else literal c rest
decode_bytes (c ∷ a ∷ b ∷ segment) =
    let rest = decode_bytes (a ∷ b ∷ segment) in
    let behind = decode_bytes segment in
    if c == b'%' then escaped (hex_value a) (hex_value b) behind else literal c rest

module _ (decode_utf8 : List ℕ → Option Text) where
  accepted_only : Option Text → Option Text
  unfolding is_accepted_key
  accepted_only none = none
  accepted_only (some decoded) = if is_accepted_key decoded then some decoded else none

  decoded_text : Option (List ℕ) → Option Text
  unfolding accepted_only
  decoded_text none = none
  decoded_text (some bytes) = accepted_only (decode_utf8 bytes)

  unfoldable pub decode_reconciliation_key : Text → Option Text
  unfolding decode_bytes decoded_text
  decode_reconciliation_key segment = decoded_text (decode_bytes segment)
