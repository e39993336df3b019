-- ===== src/Examples/Keys.antt =====
-- The round trip of keys at a concrete key.
use boolean_maybe.Prelude.{
  ℕ, ◌≡◌, refl, true, false, Option, none, some, List, [], ◌∷◌, all, ltb, if◌then◌else◌,
}
use boolean_maybe.Domain.RetryAfter.{Text}
use boolean_maybe.Domain.IdempotencyKey.{is_accepted_key}
use boolean_maybe.Simulator.ReconciliationPath.{decode_reconciliation_key}
use boolean_maybe.Simulator.ReconciliationPath.RoundTrip.{
  percent_encode, decode_reconciliation_key-encode,
}

-- A decoder that knows ASCII alone.
abbrev ascii_decoder : List ℕ → Option Text
ascii_decoder bytes = if all (λ c. ltb c 128) bytes then some bytes else none

key-accepted : is_accepted_key (106 ∷ 95 ∷ 126 ∷ []) ≡ true
unfolding is_accepted_key
key-accepted = refl

decode_reconciliation_key-encode_example :
    decode_reconciliation_key ascii_decoder
      (percent_encode (false ∷ true ∷ true ∷ []) (106 ∷ 95 ∷ 126 ∷ []))
    ≡ some (106 ∷ 95 ∷ 126 ∷ [])
decode_reconciliation_key-encode_example =
    decode_reconciliation_key-encode ascii_decoder (false ∷ true ∷ true ∷ []) (106 ∷ 95 ∷ 126 ∷ [])
      (λ bytes h. rw h refl) key-accepted
