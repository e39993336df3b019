-- ===== src/Domain/Backoff/Bounds.antt =====
-- About the delays of src/boolean_maybe/domain/backoff.py.
use boolean_maybe.Prelude.{ℕ, ◌+◌, ◌*◌, ◌^◌, ◌≤◌, ◌≡◌, Option, some, List, arith}
use boolean_maybe.Domain.Backoff.{
  max_cap_ms, base_delay_ms, backoff_cap_ms, RandomSource, policy_delay_ms, effective_delay_ms,
}
use boolean_maybe.Domain.RetryAfter.{
  Text, RetryAfterResult, accepted, rejected, max_server_delay_ms, parse_retry_after,
  server_delay_of,
}
use boolean_maybe.Domain.RetryAfter.Bounds.{parse_retry_after_bounded}

-- The drawn delay is at most 30 seconds, and at most half a second, doubled for each request before.
pub policy_delay_ms_bounded :
    (n : ℕ) (random : RandomSource)
    → (policy_delay_ms (n + 1) random ≤ max_cap_ms)
      × (policy_delay_ms (n + 1) random ≤ base_delay_ms * 2 ^ n)
unfolding policy_delay_ms backoff_cap_ms
policy_delay_ms_bounded n random =
    let most = random.at_most 0 (backoff_cap_ms (n + 1)) (ground arith) in
    (ground arith, ground arith)

-- The delay after a `429` with whatever `Retry-After` values the service sent, if the parser does not
-- raise: at least the drawn delay, at least the accepted delay of the service, and
-- at most one hour.
pub effective_delay_ms_bounded :
    (strptime : Text → Option ℕ) (random : RandomSource) (raw_values : List Text) (n now : ℕ)
    (parsed : RetryAfterResult)
    → parse_retry_after strptime raw_values now ≡ some parsed
    → (policy_delay_ms (n + 1) random
        ≤ effective_delay_ms (policy_delay_ms (n + 1) random) (server_delay_of parsed))
      × ((d : ℕ)
          → parsed ≡ accepted d
          → d ≤ effective_delay_ms (policy_delay_ms (n + 1) random) (server_delay_of parsed))
      × (effective_delay_ms (policy_delay_ms (n + 1) random) (server_delay_of parsed)
          ≤ max_server_delay_ms)
unfolding effective_delay_ms server_delay_of
effective_delay_ms_bounded strptime random raw_values n now (accepted d) h =
    let low = policy_delay_ms_bounded n random in
    let high = parse_retry_after_bounded strptime raw_values now d h in
    (ground arith, λ e same. ground arith, ground arith)
effective_delay_ms_bounded strptime random raw_values n now (rejected why) h =
    let low = policy_delay_ms_bounded n random in
    (ground arith, λ e same. ground arith, ground arith)
