-- ===== src/Examples/Services.antt =====
-- The theorems on delays, outcomes, waits, history and the simulator at concrete inputs.
use boolean_maybe.Prelude.{
  map, ◌==◌, select, ℕ, ◌+◌, ◌*◌, ◌≡◌, ◌≢◌, ◌≤◌, ◌<◌, ◌↔◌, refl, true, false, not, none, some, List,
  [], ◌∷◌, arith, length, is_none,
}
use boolean_maybe.Domain.Backoff.{policy_delay_ms, effective_delay_ms}
use boolean_maybe.Domain.Backoff.Bounds.{effective_delay_ms_bounded}
use boolean_maybe.Domain.RetryAfter.{
  max_server_delay_ms, max_str_digits, accepted, parse_retry_after, parse_value, accept_seconds,
  strip, lstrip, rstrip, is_delta_seconds, is_negative_delta_seconds, int_of, digits_value,
  accept_delay_ms, ceil_ms, parse_imf_fixdate, server_delay_of,
}
use boolean_maybe.Domain.RetryAfter.Bounds.{
  parse_retry_after_bounded, parse_imf_fixdate_exact, parse_retry_after_raises,
}
use boolean_maybe.Application.Waiting.{
  WaitBudget, new_budget, ceiling, waited, unfit, remaining, sleep, chunks,
  wait_while_renewing_lease, delay_until,
}
use boolean_maybe.Application.Waiting.Budget.{AllShort, wait_while_renewing_lease_lem}
use boolean_maybe.Application.AttemptHistory.{read_attempt_history}
use boolean_maybe.Application.AttemptHistory.{history_item}
use boolean_maybe.Application.AttemptHistory.Projection.{InOrder, read_attempt_history_lem}
use boolean_maybe.Persistence.Rows.{Operation, Ident}
use boolean_maybe.Persistence.Database.{select_job, attempts_of, bytes_eq}
use boolean_maybe.Simulator.Scenario.{
  Scenario, Rule, ScenarioPlan, supports, resolve_action, exact_rule, wildcard_rule, resolve,
  add_rule, add_rules, validate_rules,
}
use boolean_maybe.Simulator.Scenario.Plans.{validate_rules-total}
use boolean_maybe.Simulator.State.{
  create_record, ProcessedRecord, KeyCoordinator, last_ordinal, next_ordinal, find_record,
  get_record,
}
use boolean_maybe.Simulator.Service.{
  process, Body, response, Outcome, normal_submission, submission_action, submission_step,
  handle_submission,
}
use boolean_maybe.Simulator.Service.Records.{
  no_more, handle_submission-keeps, handle_submission-processed, handle_submission-conflict,
}
use boolean_maybe.Examples.Tables.{one_date, lowest, payload, other_payload, delayed, delayed_job}

one_second : parse_retry_after one_date ((32 ∷ 49 ∷ []) ∷ []) 0 ≡ some (accepted 1000)
unfolding parse_retry_after parse_value accept_seconds strip lstrip rstrip is_delta_seconds
    is_negative_delta_seconds int_of digits_value accept_delay_ms
one_second = refl

parse_retry_after_bounded_example : 1000 ≤ max_server_delay_ms
parse_retry_after_bounded_example =
    parse_retry_after_bounded one_date ((32 ∷ 49 ∷ []) ∷ []) 0 1000 one_second

date-run : parse_imf_fixdate one_date (84 ∷ []) 1000000 ≡ accepted 2001
unfolding parse_imf_fixdate accept_delay_ms ceil_ms
date-run = refl

parse_imf_fixdate_exact_example :
    (1000000 < 3000500)
    × (3000500 ≤ 1000000 + 2001 * 1000)
    × (1000000 + 2001 * 1000 ≤ 3000500 + 1000)
parse_imf_fixdate_exact_example =
    parse_imf_fixdate_exact one_date (84 ∷ []) 1000000 3000500 2001 refl date-run

parse_retry_after_raises_example :
    (parse_retry_after one_date ((49 ∷ []) ∷ []) 0 ≡ none)
    ↔ ((is_delta_seconds (strip (49 ∷ [])) ≡ true) × (max_str_digits < length (strip (49 ∷ []))))
parse_retry_after_raises_example = parse_retry_after_raises one_date (49 ∷ []) 0

effective_delay_ms_bounded_example :
    (policy_delay_ms (0 + 1) lowest
      ≤ effective_delay_ms (policy_delay_ms (0 + 1) lowest) (server_delay_of (accepted 1000)))
    × ((d : ℕ)
        → accepted 1000 ≡ accepted d
        → d ≤ effective_delay_ms (policy_delay_ms (0 + 1) lowest) (server_delay_of (accepted 1000)))
    × (effective_delay_ms (policy_delay_ms (0 + 1) lowest) (server_delay_of (accepted 1000))
        ≤ max_server_delay_ms)
effective_delay_ms_bounded_example =
    effective_delay_ms_bounded one_date lowest ((32 ∷ 49 ∷ []) ∷ []) 0 0 (accepted 1000) one_second

-- A wait of 25 seconds sleeps 20 and then 5.
abbrev slept_twice : WaitBudget
slept_twice = record { ceiling_of = ceiling; slept = 25000000; sleeps = 5000000 ∷ 20000000 ∷ [] }

renewing-run : wait_while_renewing_lease 25000000 0 (true ∷ []) new_budget ≡ (waited, slept_twice)
unfolding wait_while_renewing_lease remaining sleep chunks
renewing-run = refl

wait_while_renewing_lease_lem_example :
    (slept_twice.slept ≤ ceiling)
    × (waited ≡ waited → slept_twice.slept ≡ 0 + delay_until 25000000 0)
    × (waited ≡ unfit → slept_twice ≡ new_budget)
    × (AllShort [] → AllShort slept_twice.sleeps)
wait_while_renewing_lease_lem_example =
    wait_while_renewing_lease_lem 25000000 0 (true ∷ []) new_budget waited slept_twice (omega arith)
      renewing-run

delayed-named : select_job 1 delayed ≡ some delayed_job
unfolding select_job
delayed-named = refl

read_attempt_history_lem_example :
    InOrder (read_attempt_history 1 delayed)
    × (length (select (λ i. i.attempt_number == 1) (read_attempt_history 1 delayed))
        ≡ length (
            select
              (λ i. i.attempt_number == 1)
              (map (history_item delayed) (attempts_of 1 delayed.attempts))))
read_attempt_history_lem_example = read_attempt_history_lem delayed 1 (λ i. i.attempt_number == 1)

abbrev rules : List Rule
rules =
    record {
      operation = Operation.submission;
      idempotency_key = some 7;
      scenario = Scenario.processed_then_500;
    }
    ∷ record {
      operation = Operation.reconciliation;
      idempotency_key = none;
      scenario = Scenario.reconciliation_timeout;
    }
    ∷ []

abbrev plan : ScenarioPlan
plan = record {
  exact_rules = ((Operation.submission, 7), Scenario.processed_then_500) ∷ [];
  wildcard_rules = (Operation.reconciliation, Scenario.reconciliation_timeout) ∷ [];
}

rules-valid : validate_rules rules ≡ some plan
unfolding validate_rules add_rules add_rule supports
rules-valid = refl

validate_rules-total_example :
    resolve_action (resolve plan Operation.submission 7) Operation.submission 1 ≢ none
validate_rules-total_example = validate_rules-total rules plan Operation.submission 7 1 rules-valid

abbrev remote : Ident → Ident
remote key = key + 100

abbrev stored : ProcessedRecord
stored = record {
  idempotency_key = 7;
  canonical_bytes = payload;
  payload_digest = 5;
  remote_request_id = 107;
}

-- After one submission of the key 7, which was processed and answered 500.
abbrev served : KeyCoordinator
served = record { records = (7, stored) ∷ []; ordinals = ((Operation.submission, 7), 1) ∷ [] }

stored-there : get_record 7 served ≡ some stored
unfolding get_record find_record
stored-there = refl

abbrev replayed : KeyCoordinator
replayed = record served { ordinals = ((Operation.submission, 7), 2) ∷ served.ordinals }

abbrev replay : Outcome
replay = record {
  delivery = response 200 (Body.submission stored true) none;
  processed = true;
  scenario = Scenario.processed_then_500;
  ordinal = 2;
}

replay-run : handle_submission remote 0 plan 7 payload 5 served ≡ some (replay, replayed)
unfolding handle_submission submission_step submission_action normal_submission next_ordinal
    last_ordinal get_record find_record resolve exact_rule wildcard_rule resolve_action bytes_eq
replay-run = refl

handle_submission-keeps_example : get_record 7 replayed ≡ some stored
handle_submission-keeps_example =
    handle_submission-keeps remote 0 plan 7 payload 5 served replay replayed 7 stored replay-run
      stored-there

handle_submission-processed_example : true ≡ not (is_none (get_record 7 replayed))
handle_submission-processed_example =
    handle_submission-processed remote 0 plan 7 payload 5 served replay replayed replay-run

abbrev refusal : Outcome
refusal = record {
  delivery = response 409 (Body.idempotency_conflict 5 6) none;
  processed = true;
  scenario = Scenario.processed_then_500;
  ordinal = 2;
}

refusal-run : handle_submission remote 0 plan 7 other_payload 6 served ≡ some (refusal, replayed)
unfolding handle_submission submission_step submission_action normal_submission next_ordinal
    last_ordinal get_record find_record resolve exact_rule wildcard_rule resolve_action bytes_eq
refusal-run = refl

stored_differs : bytes_eq payload other_payload ≡ false
unfolding bytes_eq
stored_differs = refl

abbrev interrupted : Outcome
interrupted = record {
  delivery = response 500 Body.simulated_server_error none;
  processed = true;
  scenario = Scenario.processed_then_500;
  ordinal = 1;
}

served-run :
    handle_submission remote 0 plan 7 payload 5 (record { records = []; ordinals = [] })
    ≡ some (interrupted, served)
unfolding handle_submission submission_step submission_action process create_record next_ordinal
    last_ordinal get_record find_record resolve exact_rule wildcard_rule resolve_action bytes_eq
served-run = refl

handle_submission-conflict_example :
    (refusal.delivery ≡ response 409 (Body.idempotency_conflict 5 6) none)
    × (replayed.records ≡ served.records)
handle_submission-conflict_example =
    handle_submission-conflict remote 0 plan 7 payload other_payload 5 6
      (record { records = []; ordinals = [] }) served served replayed interrupted refusal
      (unfold get_record in unfold find_record in refl) served-run refl no_more stored_differs
      refusal-run

abbrev asked : KeyCoordinator
asked = record served { ordinals = ((Operation.reconciliation, 7), 1) ∷ served.ordinals }

abbrev asked_again : KeyCoordinator
asked_again = record asked { ordinals = ((Operation.reconciliation, 7), 2) ∷ asked.ordinals }

abbrev told : Outcome
told = record {
  delivery = response 200 (Body.reconciliation stored) none;
  processed = true;
  scenario = Scenario.reconciliation_timeout;
  ordinal = 2;
}
