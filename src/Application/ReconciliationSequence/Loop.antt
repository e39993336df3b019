-- ===== src/Application/ReconciliationSequence/Loop.antt =====
-- The loop of `run_reconciliation_sequence` of
-- src/boolean_maybe/application/reconciliation_sequence.py.
use boolean_maybe.Prelude.{ℕ, ◌+◌, Option, none, some, List, [], ◌∷◌, leb, if◌then◌else◌}
use boolean_maybe.Domain.Backoff.{RandomSource, policy_delay_ms, effective_delay_ms}
use boolean_maybe.Domain.RetryAfter.{
  Text, Diagnostic, parse_retry_after, server_delay_of, diagnostic_of,
}
use boolean_maybe.External.Outcome.{
  ReconcileHttpOutcome, observed_http_status, observed_remote_request_id,
}
use boolean_maybe.Persistence.Rows.{Ident, Instant, Operation, add_milliseconds, is_rate_limited}
use boolean_maybe.Persistence.Database.{Result, ok, err, value_error, out_of_draws}
use boolean_maybe.Persistence.Lease.{
  lease_seconds_default, Authorization, reconciliation_authorized, reconciliation_ownership_lost,
  reconciliation_deferred, authorize_reconciliation_request,
}
use boolean_maybe.Persistence.Observations.{Observed, append_observation}
use boolean_maybe.Persistence.Reconcile.{Disposition, advance_gate_for_reconciliation_rate_limit}
use boolean_maybe.Application.Classification.{
  ReconciliationDisposition, ReconciliationEvidence, classify_reconciliation_outcome,
}
use boolean_maybe.Application.Waiting.{Waited, waited, unfit, lost}
use boolean_maybe.Application.Flow.{Moment, Flow, give, raise, settle, transact, requested, get}
use boolean_maybe.Application.ReconciliationSequence.{
  max_reconciliation_requests, ReconciliationOutcome, Owner, claim_of, lost_ownership,
  failed_persistence, try_consume_late_evidence, unless_consumed, Ending, Finding,
  inconclusive_finding, finalize, wait_renewing,
}

-- What one round of the loop meets: of each call its moment, and of each other reading of the clock
-- its instant. `answer` is what `reconcile_job` returns; an exception of it counts as a
-- `transport_failure`.
pub record Round : Type 0 where
  pub consume : Moment
  pub authorize : Moment
  pub wait_from : Instant
  pub renewals : List Moment
  pub answer : ReconcileHttpOutcome
  pub answered_at : Instant
  pub observe : Moment
  pub advance : Moment
  pub scheduled_from : Instant
  pub ending : Ending

-- The end of a round: the sequence returns, or goes on with the number of requests so far and the
-- instant before which there is no other.
pub data RoundEnd : Type 0 where
  ended : ReconciliationOutcome → RoundEnd
  going_on : ℕ → Option Instant → RoundEnd

-- `return` in the loop.
unfoldable pub ending_with : Result ReconciliationOutcome → Flow RoundEnd
ending_with (ok outcome) = give (ended outcome)
ending_with (err e) = raise e

unfoldable pub finish : RandomSource → Owner → ℕ → Finding → Ending → Flow RoundEnd
unfolding settle finalize ending_with
finish random o n f e = settle (finalize random o n f e) ending_with

-- The server's delay and the diagnostic that a delivered `429` carries; `none` is the `ValueError`.
unfoldable pub server_wish :
    (Text → Option ℕ) → ReconciliationEvidence → Instant → Option (Option ℕ × Option Diagnostic)
unfolding parse_retry_after server_delay_of diagnostic_of
server_wish strptime evidence now =
    if is_rate_limited evidence.error_category
    then elim (parse_retry_after strptime evidence.retry_after_values now) [
      | none ↦ none
      | some parsed ↦ some (server_delay_of parsed, diagnostic_of parsed)
    ]
    else some (none, none)

unfoldable pub reconciliation_observation :
    Owner
    → ℕ
    → ReconcileHttpOutcome
    → ReconciliationEvidence
    → Option ℕ
    → Option Diagnostic
    → Observed
reconciliation_observation o n answer evidence retry_after_ms diagnostic = record {
  attempt_id = o.attempt.attempt_id;
  operation = Operation.reconciliation;
  request_ordinal = n;
  dispatch_certainty = none;
  evidence_category = evidence.error_category;
  http_status = observed_http_status answer;
  remote_request_id = observed_remote_request_id answer;
  retry_after_ms = retry_after_ms;
  retry_after_diagnostic = diagnostic;
  observed_fencing_generation = o.fencing_generation;
}

-- What ends the sequence at once; `none` is `retryable`.
unfoldable pub conclusion : ReconciliationDisposition → Option Disposition
conclusion ReconciliationDisposition.matched = some Disposition.matched
conclusion ReconciliationDisposition.conflict = some Disposition.conflict
conclusion ReconciliationDisposition.not_found = some Disposition.not_found
conclusion ReconciliationDisposition.retryable = none

abbrev pub finding_of : Disposition → ReconcileHttpOutcome → Finding
finding_of d answer = record {
  disposition = d;
  http_status = observed_http_status answer;
  remote_request_id = observed_remote_request_id answer;
}

-- Another request, if the budget of requests is not used up.
unfoldable pub another : RandomSource → Owner → ℕ → ℕ → Round → Flow RoundEnd
unfolding finish
another random o n delay_ms round =
    if leb max_reconciliation_requests n
    then finish random o n inconclusive_finding round.ending
    else give (going_on n (some (add_milliseconds round.scheduled_from delay_ms)))

unfoldable pub after_advance :
    RandomSource → Owner → ℕ → ℕ → Round → Result {0} Unit → Flow RoundEnd
unfolding another
after_advance random o n delay_ms round (ok _) = another random o n delay_ms round
after_advance random o n delay_ms round (err _) = give (ended (failed_persistence o n))

unfoldable pub advancing : ℕ → Moment → Flow Unit
unfolding transact
advancing delay_ms m =
    transact m (λ now draws. advance_gate_for_reconciliation_rate_limit delay_ms now)

unfoldable pub delaying :
    RandomSource → Owner → ℕ → ReconciliationEvidence → Option ℕ → Round → Flow RoundEnd
unfolding settle advancing another after_advance policy_delay_ms effective_delay_ms
delaying random o n evidence server_ms round =
    let delay_ms = effective_delay_ms (policy_delay_ms n random) server_ms in
    if is_rate_limited evidence.error_category
    then settle (advancing delay_ms round.advance) (after_advance random o n delay_ms round)
    else another random o n delay_ms round

unfoldable pub concluded :
    RandomSource
    → Owner
    → ℕ
    → ReconciliationEvidence
    → Option ℕ
    → Round
    → Option Disposition
    → Flow RoundEnd
unfolding finish delaying
concluded random o n evidence server_ms round (some d) =
    finish random o n (finding_of d round.answer) round.ending
concluded random o n evidence server_ms round none = delaying random o n evidence server_ms round

unfoldable pub after_observation :
    RandomSource
    → Owner
    → ℕ
    → ReconciliationEvidence
    → Option ℕ
    → Round
    → Result Ident
    → Flow RoundEnd
unfolding concluded conclusion
after_observation random o n evidence server_ms round (ok _) =
    concluded random o n evidence server_ms round (conclusion evidence.disposition)
after_observation random o n evidence server_ms round (err _) =
    give (ended (failed_persistence o n))

unfoldable pub appending : Observed → Ident → Moment → Flow Ident
unfolding transact
appending seen sequence_id m =
    transact m (λ now draws. append_observation seen sequence_id now draws)

unfoldable pub authorization : Owner → Option Instant → Moment → Flow Authorization
unfolding transact
authorization o not_before m = transact m (λ now draws.
    authorize_reconciliation_request (claim_of o) lease_seconds_default now not_before)

module _ (strptime : Text → Option ℕ) (random : RandomSource) where
  unfoldable pub observing :
      Owner
      → Ident
      → ℕ
      → ReconciliationEvidence
      → Round
      → Option (Option ℕ × Option Diagnostic)
      → Flow RoundEnd
  unfolding settle appending reconciliation_observation after_observation
  observing o sequence_id n evidence round none = raise value_error
  observing o sequence_id n evidence round (some (server_ms, diagnostic)) =
      settle
        (appending (reconciliation_observation o n round.answer evidence server_ms diagnostic)
          sequence_id round.observe)
        (after_observation random o n evidence server_ms round)

  -- `reconcile_job` and what follows.
  unfoldable pub requesting : Owner → Ident → ℕ → Round → Flow RoundEnd
  unfolding settle requested observing server_wish classify_reconciliation_outcome
  requesting o sequence_id n round =
      let evidence = classify_reconciliation_outcome round.answer in
      settle (requested (get o.job.idempotency_key round.answer)) (λ _.
        observing o sequence_id (n + 1) evidence round
          (server_wish strptime evidence round.answered_at))

  unfoldable pub after_wait : Owner → ℕ → Option Instant → Round → Result Waited → Flow RoundEnd
  unfolding finish
  after_wait o n not_before round (ok waited) = give (going_on n not_before)
  after_wait o n not_before round (ok unfit) = finish random o n inconclusive_finding round.ending
  after_wait o n not_before round (ok lost) = give (ended (lost_ownership o n))
  after_wait o n not_before round (err e) = raise e

  unfoldable pub after_authorize :
      Owner → Ident → ℕ → Option Instant → Round → Result Authorization → Flow RoundEnd
  unfolding settle wait_renewing after_wait requesting
  after_authorize o q n not_before round (ok reconciliation_authorized) = requesting o q n round
  after_authorize o q n not_before round (ok reconciliation_ownership_lost) =
      give (ended (lost_ownership o n))
  after_authorize o q n not_before round (ok (reconciliation_deferred until)) =
      settle (wait_renewing until round.wait_from round.renewals o)
        (after_wait o n not_before round)
  after_authorize o q n not_before round (err _) = give (ended (failed_persistence o n))

  unfoldable pub authorizing : Owner → Ident → ℕ → Option Instant → Round → Flow RoundEnd
  unfolding settle authorization after_authorize
  authorizing o q n not_before round =
      settle (authorization o not_before round.authorize) (after_authorize o q n not_before round)

  -- One round.
  unfoldable pub run_round : Owner → Ident → ℕ → Option Instant → Round → Flow RoundEnd
  unfolding settle try_consume_late_evidence unless_consumed authorizing
  run_round o sequence_id n not_before round =
      settle (try_consume_late_evidence random o n round.consume)
        (unless_consumed ended (authorizing o sequence_id n not_before round))

  unfoldable pub next_round :
      (ℕ → Option Instant → Flow ReconciliationOutcome)
      → Result RoundEnd
      → Flow ReconciliationOutcome
  next_round rest (ok (ended outcome)) = give outcome
  next_round rest (ok (going_on n not_before)) = rest n not_before
  next_round rest (err e) = raise e

  -- The rounds, from one with so many requests behind it. `out_of_draws` says that the list of
  -- rounds has ended, and not the loop.
  unfoldable pub run_rounds :
      List Round → Owner → Ident → ℕ → Option Instant → Flow ReconciliationOutcome
  unfolding settle run_round next_round
  run_rounds [] o q n not_before = raise out_of_draws
  run_rounds (round ∷ rounds) o q n not_before =
      settle (run_round o q n not_before round)
        (next_round (λ m later. run_rounds rounds o q m later))

  unfoldable pub run_reconciliation_sequence :
      List Round → Owner → Ident → Flow ReconciliationOutcome
  unfolding run_rounds
  run_reconciliation_sequence rounds o sequence_id = run_rounds rounds o sequence_id 0 none
