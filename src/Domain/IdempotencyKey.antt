-- ===== src/Domain/IdempotencyKey.antt =====
-- The grammar of idempotency keys: `is_accepted_key` of src/boolean_maybe/domain/idempotency_key.py,
-- and the same function of src/boolean_maybe/simulator/idempotency.py. A text is the list of its code
-- points.
use boolean_maybe.Prelude.{ℕ, Bool, ◌&&◌, ◌||◌, ltb, leb, ◌==◌, length, all}
use boolean_maybe.Domain.RetryAfter.{Text}

-- `[A-Za-z0-9._~-]`.
abbrev pub is_key_character : ℕ → Bool
is_key_character c =
    (leb b'A' c && leb c b'Z')
    || (leb b'a' c && leb c b'z')
    || (leb b'0' c && leb c b'9')
    || c == b'.'
    || c == b'_'
    || c == b'~'
    || c == b'-'

abbrev pub max_key_length : ℕ
max_key_length = 128

unfoldable pub is_accepted_key : Text → Bool
is_accepted_key value =
    ltb 0 (length value) && leb (length value) max_key_length && all (λ c. is_key_character c) value
