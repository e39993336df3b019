-- ===== src/Domain/Backoff.antt =====
-- Backoff delays: src/boolean_maybe/domain/backoff.py. `randint` is the injected random source of
-- src/boolean_maybe/domain/random_source.py; its draw is a number between its two arguments.
pub mod Bounds
use boolean_maybe.Prelude.{
  ℕ, zero, suc, ◌+◌, ◌-◌, ◌*◌, ◌^◌, ◌≤◌, ◌<◌, min, max, ◌≡◌, refl, Option, none, some, arith,
}

abbrev pub max_cap_ms : ℕ
max_cap_ms = 30000

abbrev pub base_delay_ms : ℕ
base_delay_ms = 500

unfoldable pub backoff_cap_ms : ℕ → ℕ
backoff_cap_ms request_ordinal = min max_cap_ms (base_delay_ms * 2 ^ (request_ordinal - 1))

-- What `RandomSource.randint` promises.
pub record RandomSource : Type 0 where
  pub randint : ℕ → ℕ → ℕ
  pub at_least : (low high : ℕ) → low ≤ high → low ≤ randint low high
  pub at_most : (low high : ℕ) → low ≤ high → randint low high ≤ high

unfoldable pub policy_delay_ms : ℕ → RandomSource → ℕ
policy_delay_ms request_ordinal random_source =
    random_source.randint 0 (backoff_cap_ms request_ordinal)

unfoldable pub effective_delay_ms : ℕ → Option ℕ → ℕ
effective_delay_ms policy_ms none = policy_ms
effective_delay_ms policy_ms (some server_ms) = max policy_ms server_ms
