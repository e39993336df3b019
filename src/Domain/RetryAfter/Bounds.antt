-- ===== src/Domain/RetryAfter/Bounds.antt =====
-- About `parse_retry_after` of src/boolean_maybe/domain/retry_after.py.
use boolean_maybe.Prelude.{
  ◌↔◌, ℕ, ◌+◌, ◌*◌, ◌≤◌, ◌<◌, ◌≡◌, refl, true, false, Option, none, some, List, [], ◌∷◌, arith,
  length,
}
use boolean_maybe.Domain.RetryAfter.{
  Text, max_server_delay_ms, max_str_digits, accepted, is_delta_seconds, int_of, accept_delay_ms,
  parse_imf_fixdate, parse_retry_after, strip, ceil_ms, is_negative_delta_seconds, parse_value,
}

-- An accepted delay of a text is at most one hour, in seconds or as a date.
module _ (strptime : Text → Option ℕ) where
  parse_value_bounded :
      (value : Text) (now d : ℕ)
      → parse_value strptime value now ≡ some (accepted d)
      → d ≤ max_server_delay_ms
  unfolding parse_value parse_imf_fixdate accept_delay_ms
  parse_value_bounded value now d h = ground arith

  -- The delay that is accepted is at most 3,600,000 ms, whatever the header holds.
  pub parse_retry_after_bounded :
      (raw_values : List Text) (now d : ℕ)
      → parse_retry_after strptime raw_values now ≡ some (accepted d)
      → d ≤ max_server_delay_ms
  unfolding parse_retry_after
  parse_retry_after_bounded [] now d h = ground arith
  parse_retry_after_bounded (raw ∷ []) now d h = parse_value_bounded (strip raw) now d h
  parse_retry_after_bounded (raw ∷ other ∷ more) now d h = ground arith

  -- An accepted date is not shortened: the delay ends at the date or at most one millisecond
  -- after it, and the date lies in the future.
  pub parse_imf_fixdate_exact :
      (value : Text) (now date d : ℕ)
      → strptime value ≡ some date
      → parse_imf_fixdate strptime value now ≡ accepted d
      → (now < date) × (date ≤ now + d * 1000) × (now + d * 1000 ≤ date + 1000)
  unfolding parse_imf_fixdate accept_delay_ms ceil_ms
  parse_imf_fixdate_exact value now date d e h = ground arith

  digits_not_negative :
      (value : Text) → is_delta_seconds value ≡ true → is_negative_delta_seconds value ≡ false
  unfolding is_delta_seconds is_negative_delta_seconds
  digits_not_negative [] h = refl
  digits_not_negative (c ∷ cs) h = ground arith

  parse_value_raises :
      (value : Text) (now : ℕ)
      → (parse_value strptime value now ≡ none)
        ↔ ((is_delta_seconds value ≡ true) × (max_str_digits < length value))
  unfolding parse_value int_of
  parse_value_raises value now = (λ h. ground arith, λ h. ground (arith, digits_not_negative value))

  -- Of a single value, the parser raises `ValueError` exactly when the stripped text is made of
  -- digits and has more than 4300 of them.
  pub parse_retry_after_raises :
      (raw : Text) (now : ℕ)
      → (parse_retry_after strptime (raw ∷ []) now ≡ none)
        ↔ ((is_delta_seconds (strip raw) ≡ true) × (max_str_digits < length (strip raw)))
  unfolding parse_retry_after
  parse_retry_after_raises raw now = parse_value_raises (strip raw) now
