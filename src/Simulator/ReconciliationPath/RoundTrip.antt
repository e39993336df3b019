-- ===== src/Simulator/ReconciliationPath/RoundTrip.antt =====
-- About `decode_reconciliation_key` of src/boolean_maybe/simulator/idempotency.py and the escaping of
-- a key.
use boolean_maybe.Prelude.{
  ℕ, ◌+◌, ◌-◌, ◌/◌, ◌%◌, ◌<◌, ◌≡◌, refl, ap, Bool, true, false, Option, some, List, [], ◌∷◌, arith,
  ltb, all, if◌then◌else◌, Bool-cases, inl, inr,
}
use boolean_maybe.Domain.RetryAfter.{Text}
use boolean_maybe.Domain.IdempotencyKey.{is_key_character, is_accepted_key}
use boolean_maybe.Simulator.ReconciliationPath.{
  hex_value, with_byte, decode_bytes, accepted_only, decoded_text, decode_reconciliation_key,
}

abbrev hex_digit : ℕ → ℕ
hex_digit n = if ltb n 10 then n + b'0' else n - 10 + b'A'

-- A key as a path segment: the characters that the list marks are escaped.
unfoldable pub percent_encode : List Bool → Text → Text
percent_encode [] key = key
percent_encode (escape ∷ marks) [] = []
percent_encode (true ∷ marks) (c ∷ key) =
    b'%' ∷ hex_digit (c / 16) ∷ hex_digit (c % 16) ∷ percent_encode marks key
percent_encode (false ∷ marks) (c ∷ key) = c ∷ percent_encode marks key

hex_value-hex_digit : (n : ℕ) → n < 16 → hex_value (hex_digit n) ≡ some n
unfolding hex_value
hex_value-hex_digit n h = ground arith

decode_bytes-literal :
    (c : ℕ) (segment : Text)
    → is_key_character c ≡ true
    → decode_bytes (c ∷ segment) ≡ with_byte c (decode_bytes segment)
unfolding decode_bytes
decode_bytes-literal c [] h = ground arith
decode_bytes-literal c (a ∷ []) h = ground arith
decode_bytes-literal c (a ∷ b ∷ segment) h = ground arith

decode_bytes-escape :
    (c : ℕ) (segment : Text)
    → is_key_character c ≡ true
    → decode_bytes (b'%' ∷ hex_digit (c / 16) ∷ hex_digit (c % 16) ∷ segment)
      ≡ with_byte c (decode_bytes segment)
unfolding decode_bytes
decode_bytes-escape c segment h =
    rw (hex_value-hex_digit (c / 16) (ground arith), hex_value-hex_digit (c % 16) (ground arith))
      (ap (λ n. with_byte n (decode_bytes segment)) (omega arith))

-- Every character of a key.
abbrev AllAccepted : Text → Type 0
AllAccepted key = all (λ c. is_key_character c) key ≡ true

head_tail :
    (c : ℕ) (key : Text) → AllAccepted (c ∷ key) → (is_key_character c ≡ true) × AllAccepted key
head_tail c key h = elim (Bool-cases (is_key_character c)) [
  | inl e ↦ (e, rw e at h)
  | inr e ↦ absurd (ground arith)
]

decode_bytes-encode :
    (marks : List Bool) (key : Text)
    → AllAccepted key
    → decode_bytes (percent_encode marks key) ≡ some key
unfolding percent_encode
decode_bytes-encode [] [] h = unfold decode_bytes in refl
decode_bytes-encode [] (c ∷ key) h =
    let (first, others) = head_tail c key h in
    rw (decode_bytes-literal c key first, decode_bytes-encode [] key others) refl
decode_bytes-encode (m ∷ marks) [] h = unfold decode_bytes in refl
decode_bytes-encode (true ∷ marks) (c ∷ key) h =
    let (first, others) = head_tail c key h in
    rw
      (decode_bytes-escape c (percent_encode marks key) first, decode_bytes-encode marks key others)
      refl
decode_bytes-encode (false ∷ marks) (c ∷ key) h =
    let (first, others) = head_tail c key h in
    rw
      (
        decode_bytes-literal c (percent_encode marks key) first,
        decode_bytes-encode marks key others,
      )
      refl

AllAccepted-ascii : (key : Text) → AllAccepted key → all (λ c. ltb c 128) key ≡ true
AllAccepted-ascii [] h = refl
AllAccepted-ascii (c ∷ key) h =
    let (first, others) = head_tail c key h in ground (arith, AllAccepted-ascii key others)

accepted-AllAccepted : (key : Text) → is_accepted_key key ≡ true → AllAccepted key
unfolding is_accepted_key
accepted-AllAccepted key h = ground arith

-- An accepted key, with any of its characters escaped, is decoded to itself, if the decoder of UTF-8
-- takes ASCII bytes to the same characters.
pub decode_reconciliation_key-encode :
    (decode_utf8 : List ℕ → Option Text) (marks : List Bool) (key : Text)
    → ((bytes : List ℕ) → all (λ c. ltb c 128) bytes ≡ true → decode_utf8 bytes ≡ some bytes)
    → is_accepted_key key ≡ true
    → decode_reconciliation_key decode_utf8 (percent_encode marks key) ≡ some key
unfolding decode_reconciliation_key decoded_text accepted_only
decode_reconciliation_key-encode decode_utf8 marks key ascii h =
    let every = accepted-AllAccepted key h in
    rw (decode_bytes-encode marks key every, ascii key (AllAccepted-ascii key every), h) refl
